-- ===== src/Julia/Owned.antt =====
-- Runs of the server, in which no start follows a start that returned.
use grip_absorption_pipeline.Base.{
  ℕ, Bool, true, false, Option, none, some, List, [], ◌∷◌, ◌≡◌, refl, sym, ap, subst, ◌∙◌, arith,
}
use grip_absorption_pipeline.Julia.{
  Julia, Weather, launch, kill, connect, ping, greet, start_server, stop_server, no_server,
}

-- the states that calls lead to, `start` only where no process is held
pub data Reached : Julia → Type 0 where
  begun : Reached no_server
  started :
      (w : Weather) (j : Julia) → Reached j → j.server_process ≡ none → Reached (start_server w j).1
  stopped : (j : Julia) → Reached j → Reached (stop_server j).1

abbrev pub held_list : Option ℕ → List ℕ
held_list none = []
held_list (some p) = p ∷ []

-- exactly the held process runs
unfoldable pub IsOwned : Julia → Type 0
IsOwned j = j.running ≡ held_list j.server_process

-- a start where nothing runs
clean-IsOwned :
    (launches connects answers connected : Bool) (p : ℕ)
    → IsOwned
        (start_server
          (record { launches = launches; connects = connects; answers = answers })
          (record {
            running = [];
            next_process = p;
            server_process = none;
            connected = connected;
          })).1
unfolding start_server launch greet connect ping kill IsOwned
clean-IsOwned false connects answers connected p = refl
clean-IsOwned true connects false true p = ground arith
clean-IsOwned true connects true true p = refl
clean-IsOwned true false answers false p = ground arith
clean-IsOwned true true false false p = ground arith
clean-IsOwned true true true false p = refl

start_server-IsOwned :
    (w : Weather) (j : Julia) → j.server_process ≡ none → IsOwned j → IsOwned (start_server w j).1
unfolding IsOwned
start_server-IsOwned w j e h =
    subst (λ k. IsOwned (start_server w k).1)
      (ap (λ o. record j { running = held_list o; server_process = o }) (sym e)
        ∙ ap (λ r. record j { running = r }) (sym h))
      (clean-IsOwned w.launches w.connects w.answers j.connected j.next_process)

-- a stop where exactly the held process runs
clean-stop_server :
    (o : Option ℕ) (p : ℕ) (connected : Bool)
    → (stop_server (record {
      running = held_list o;
      next_process = p;
      server_process = o;
      connected = connected;
    })).1
      ≡ record { running = []; next_process = p; server_process = none; connected = connected }
unfolding stop_server kill
clean-stop_server none p connected = refl
clean-stop_server (some q) p connected = ground arith

pub owned-stop_server :
    (j : Julia) → IsOwned j → (stop_server j).1 ≡ record j { running = []; server_process = none }
unfolding IsOwned
owned-stop_server j h =
    subst
      (λ r.
        (stop_server (record j { running = r })).1
        ≡ record j { running = []; server_process = none })
      (sym h) (clean-stop_server j.server_process j.next_process j.connected)

owned : {j : Julia} → Reached j → IsOwned j
unfolding IsOwned
owned begun = refl
owned (started w j r e) = start_server-IsOwned w j e (owned r)
owned (stopped j r) = subst IsOwned (sym (owned-stop_server j (owned r))) refl

-- In every state that calls lead to, of which no start follows a start that returned, exactly the
-- process that is held runs, or none, and after a `stop` none runs, also where a start has raised.
pub Reached-IsOwned : (j : Julia) → Reached j → IsOwned j × ((stop_server j).1.running ≡ [])
Reached-IsOwned j r = (owned r, ap (λ k. k.running) (owned-stop_server j (owned r)))
