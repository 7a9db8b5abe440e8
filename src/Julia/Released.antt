-- ===== src/Julia/Released.antt =====
-- The process of the server in a `with` statement over `JuliaServer` (julia_server.py).
use grip_absorption_pipeline.Base.{
  ℕ, Bool, true, false, none, [], ◌≡◌, refl, arith, ap, subst, sym, ◌∙◌,
}
use grip_absorption_pipeline.Base.Exec.{Exec, Result, ok, err, lift, continue}
use grip_absorption_pipeline.Base.Outcomes.{Outcome}
use grip_absorption_pipeline.Julia.{
  Julia, Weather, launch, kill, connect, ping, greet, start_server, stop_server, after_exit,
  with_server,
}
use grip_absorption_pipeline.Julia.Owned.{held_list, IsOwned, owned-stop_server}

-- how a start ends where nothing runs
clean-Outcome :
    (launches connects answers connected : Bool) (p : ℕ)
    → Outcome
        (λ _ j. j.running ≡ held_list j.server_process)
        (λ j. j.running ≡ [])
        (start_server
          (record { launches = launches; connects = connects; answers = answers })
          (record { running = []; next_process = p; server_process = none; connected = connected }))
unfolding start_server launch greet connect ping kill
clean-Outcome false connects answers connected p = refl
clean-Outcome true connects false true p = ground arith
clean-Outcome true connects true true p = refl
clean-Outcome true false answers false p = ground arith
clean-Outcome true true false false p = ground arith
clean-Outcome true true true false p = refl

pub start-Outcome :
    (w : Weather) (j : Julia)
    → j.running ≡ []
    → j.server_process ≡ none
    → Outcome
        (λ _ k. k.running ≡ held_list k.server_process)
        (λ k. k.running ≡ [])
        (start_server w j)
start-Outcome w j h e =
    subst
      (λ j'.
        Outcome (λ _ k. k.running ≡ held_list k.server_process) (λ k. k.running ≡ [])
          (start_server w j'))
      (ap (λ o. record j { running = []; server_process = o }) (sym e)
        ∙ ap (λ r. record j { running = r }) (sym h))
      (clean-Outcome w.launches w.connects w.answers j.connected j.next_process)

after_exit-state :
    {A : Type 0} (r : Result A) (j : Julia) → (after_exit (r, j)).1 ≡ (stop_server j).1
after_exit-state {A} r j = go (stop_server j).0 (stop_server j).1
  where
    go : (e : Result (Unit {0})) (k : Julia) → (continue (λ u. lift r) e k).1 ≡ k
    go (ok u) k = refl
    go (err x) k = refl

-- Where no process runs before a `with` statement over the server, none runs after it, however its body
-- ends, if the body leaves the held process, or none, the one that runs.
pub with_server-Released :
    {A : Type 0} (w : Weather) (body : Exec Julia A) (j : Julia)
    → ((k : Julia) → IsOwned k → IsOwned (body k).1)
    → j.running ≡ []
    → j.server_process ≡ none
    → (with_server w body j).1.running ≡ []
unfolding IsOwned
with_server-Released w body j kept quiet free =
    go (start_server w j).0 (start_server w j).1 (start-Outcome w j quiet free)
  where
    go :
        (r : Result (Unit {0})) (k : Julia)
        → Outcome (λ _ k. k.running ≡ held_list k.server_process) (λ k. k.running ≡ []) (r, k)
        → (continue (λ u j. after_exit (body j)) r k).1.running ≡ []
    go (err e) k h = h
    go (ok u) k h =
        ap (λ j. j.running)
          (after_exit-state (body k).0 (body k).1 ∙ owned-stop_server (body k).1 (kept k h))
