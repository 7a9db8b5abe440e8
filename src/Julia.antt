-- ===== src/Julia.antt =====
-- `JuliaServer` (julia_server.py) and the connection of `JuliaClient` (julia_client.py). A process is
-- a number. Whether the process can be started, the socket be connected and the ping be answered,
-- is an argument of each call.
pub mod Owned
pub mod Client
pub mod Released
mod Tests
use grip_absorption_pipeline.Base.{
  ℕ, suc, Bool, true, false, Option, none, some, List, [], ◌∷◌, nat_eq, if◌then◌else◌,
}
use grip_absorption_pipeline.Base.Exec.{
  Error, Result, ok, err, Exec, pure, raise, gets, modify, lift, continue, file_not_found,
  runtime_error, ◌>>=◌, ◌>>◌,
}

pub record Julia : Type 0 where
  -- the processes that run, and the number of the next one
  pub running : List ℕ
  pub next_process : ℕ
  -- `_server_process`
  pub server_process : Option ℕ
  -- `connected` of the client
  pub connected : Bool

-- what the system does during a call
pub record Weather : Type 0 where
  pub launches : Bool
  pub connects : Bool
  pub answers : Bool

abbrev pub without_process : ℕ → List ℕ → List ℕ
without_process p [] = []
without_process p (q ∷ qs) =
    let rest = without_process p qs in if nat_eq q p then rest else q ∷ rest

-- `subprocess.Popen`
unfoldable pub launch : Weather → Exec Julia ℕ
launch w = do
  p ← gets λ j. j.next_process
  if w.launches
      then modify (λ j. record j { running = p ∷ j.running; next_process = suc p })
      else raise file_not_found
  pure p

unfoldable pub kill : ℕ → Exec Julia (Unit {0})
kill p = modify λ j. record j { running = without_process p j.running }

-- `julia_client.connect()`
unfoldable pub connect : Weather → Exec Julia (Unit {0})
connect w = do
  already ← gets λ j. j.connected
  if already
      then pure tt
      else if w.connects
      then modify (λ j. record j { connected = true })
      else raise runtime_error

-- `julia_client.send('ping')`
unfoldable pub ping : Weather → Exec Julia (Unit {0})
ping w = if w.answers then pure tt else raise runtime_error

-- `except Exception as err: server_process.kill(); raise err`
abbrev pub killing : ℕ → Result (Unit {0}) × Julia → Result (Unit {0}) × Julia
killing p (ok a, j) = (ok a, j)
killing p (err e, j) = (kill p >> raise e) j

-- the body of the `try`
unfoldable pub greet : Weather → ℕ → Exec Julia (Unit {0})
greet w p = do connect w; ping w; modify λ j. record j { server_process = some p }

-- `start`
unfoldable pub start_server : Weather → Exec Julia (Unit {0})
start_server w = launch w >>= λ p j. killing p (greet w p j)

abbrev pub kill_held : Option ℕ → Exec Julia (Unit {0})
kill_held none = pure tt
kill_held (some p) = kill p

-- `stop`
unfoldable pub stop_server : Exec Julia (Unit {0})
stop_server = do
  held ← gets λ j. j.server_process
  kill_held held
  modify λ j. record j { server_process = none }

-- `__enter__` and `__exit__`
abbrev pub enter : Weather → Exec Julia (Unit {0})
enter w = start_server w

abbrev pub exit : Exec Julia (Unit {0})
exit = stop_server

-- what `exit` leaves of the end of the body: an exception goes on
abbrev pub after_exit : {A : Type 0} → Result A × Julia → Result A × Julia
after_exit (r, j) = continue (λ u. lift r) (exit j).0 (exit j).1

-- `with JuliaServer(): body`: `__exit__` is called however the body ends, but not if `__enter__` raises
abbrev pub with_server : {A : Type 0} → Weather → Exec Julia A → Exec Julia A
with_server w body = enter w >>= λ u j. after_exit (body j)

-- before the first call
abbrev pub no_server : Julia
no_server = record { running = []; next_process = 0; server_process = none; connected = false }
