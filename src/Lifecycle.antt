-- ===== src/Lifecycle.antt =====
-- `on_init` and `on_term` (absorption.py), with the server of julia_server.py. The largest load of the
-- baseline file is an argument, none where it cannot be read. A bus number is a text of digits.
pub mod Released
mod Tests
use grip_absorption_pipeline.Base.{
  ℕ, String, Bool, true, false, not, Option, none, some, List, [], ◌∷◌, ◌++◌, ◌&&◌, ◌==◌,
  if◌then◌else◌,
}
use grip_absorption_pipeline.Base.Text.{split_second}
use grip_absorption_pipeline.Base.Decimal.{first_digits, int_of}
use grip_absorption_pipeline.Base.Nodes.{bus_number}
use grip_absorption_pipeline.Base.Exec.{
  Result, ok, err, Exec, pure, gets, or_raise, modify, zoom, index_error, value_error,
  file_not_found, ◌>>=◌, ◌>>◌,
}
use grip_absorption_pipeline.Gridlab.{Gridlab}
use grip_absorption_pipeline.Faults.{Area, value_of, supernodes_in}
use grip_absorption_pipeline.Julia.{Julia, Weather, start_server, stop_server}

-- the global variables that the two functions use
pub record Session (F Sim : Type 0) : Type 0 where
  pub area : Area Sim
  pub server : Julia
  -- `Islanding`, `Packetizing`, `Absorption`
  pub islanding_on : Bool
  pub packetizing : Bool
  pub absorption_on : Bool
  pub compile_only : Bool
  pub setpoint : F
  pub t_start : ℕ
  pub swing_sn : ℕ

module _ {F Sim : Type 0} where
  -- `try: julia_server.start()`, and `Absorption=False` in its handler
  abbrev pub given_up : Result (Unit {0}) × Session F Sim → Result (Unit {0}) × Session F Sim
  given_up (ok a, s) = (ok a, s)
  given_up (err e, s) = (ok tt, record s { absorption_on = false })

  abbrev pub in_server : Exec Julia (Unit {0}) → Exec (Session F Sim) (Unit {0})
  in_server m = zoom (λ s. s.server) (λ j s. record s { server = j }) m

  unfoldable pub start_or_give_up : Weather → Exec (Session F Sim) (Unit {0})
  start_or_give_up w s = given_up (in_server (start_server w) s)

  -- the branch of on_init for the server
  unfoldable pub prepare_server : Weather → Option F → Exec (Session F Sim) (Unit {0})
  prepare_server w largest = do
    on ← gets λ s. s.absorption_on && s.islanding_on
    if on
        then (do
          setpoint ← or_raise largest file_not_found
          modify λ s. record s { setpoint = setpoint }
          start_or_give_up w)
        else pure tt

abbrev pub head_of : List ℕ → Option ℕ
head_of [] = none
head_of (n ∷ ns) = some n

module _ {F Sim : Type 0} ⦃gld : Gridlab Sim⦄ where
  abbrev pub in_session : {A : Type 0} → Exec (Area Sim) A → Exec (Session F Sim) A
  in_session m = zoom (λ s. s.area) (λ a s. record s { area = a }) m

  -- the number of a bus of type SWING
  unfoldable pub swing_here : String → Exec (Session F Sim) (List ℕ)
  swing_here sn = do
    kind ← in_session (value_of sn "bustype")
    if kind == "SWING" then (bus_number sn >>= λ n. pure (n ∷ [])) else pure []

  unfoldable pub swing_buses : List String → Exec (Session F Sim) (List ℕ)
  swing_buses [] = pure []
  swing_buses (sn ∷ sns) = do here ← swing_here sn; more ← swing_buses sns; pure (here ++ more)

  unfoldable pub find_swing : ℕ → Exec (Session F Sim) (Unit {0})
  find_swing t = do
    modify λ s. record s { t_start = t }
    nodestr ← in_session (value_of "supernode_list" "node_group")
    numbers ← swing_buses (supernodes_in nodestr)
    swing ← or_raise (head_of numbers) index_error
    modify λ s. record s { swing_sn = swing }

  -- what on_init does if the model is not only compiled
  unfoldable pub begin_run : Weather → Option F → ℕ → Exec (Session F Sim) (Unit {0})
  begin_run w largest t = do
    modify λ s. record s { absorption_on = gld.get_global s.area.sim "LOAD_CONTROL" == "TRUE" }
    modify λ s. record s { absorption_on = s.islanding_on && (s.packetizing && s.absorption_on) }
    prepare_server w largest
    find_swing t

  -- `on_init(t)`
  unfoldable pub on_init : Weather → Option F → ℕ → Exec (Session F Sim) (Unit {0})
  on_init w largest t = do
    modify λ s. record s { compile_only = gld.get_global s.area.sim "compileonly" == "TRUE" }
    skip ← gets λ s. s.compile_only
    if skip then pure tt else begin_run w largest t

module _ {F Sim : Type 0} where
  -- `on_term(t)`
  unfoldable pub on_term : Exec (Session F Sim) (Unit {0})
  on_term = do
    on ← gets λ s. not s.compile_only && (s.absorption_on && s.islanding_on)
    if on then in_server stop_server else pure tt
