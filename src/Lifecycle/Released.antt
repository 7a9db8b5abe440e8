-- ===== src/Lifecycle/Released.antt =====
-- The server's process over `on_init` and `on_term` (absorption.py).
use grip_absorption_pipeline.Base.{
  ℕ, String, Bool, true, false, not, Option, none, some, List, [], ◌∷◌, ◌++◌, ◌&&◌, ◌==◌, ◌≡◌, refl,
  sym, ap, ◌∙◌, if◌then◌else◌,
}
use grip_absorption_pipeline.Base.Exec.{
  Result, ok, err, Exec, pure, or_raise, modify, file_not_found, ◌>>=◌, ◌>>◌,
}
use grip_absorption_pipeline.Base.Keeps.{Keeps, bind-Keeps, pure-Keeps, keeps_rules}
use grip_absorption_pipeline.Base.Outcomes.{Outcome, Leads, bind-Leads, Keeps-Leads}
use grip_absorption_pipeline.Gridlab.{Gridlab}
use grip_absorption_pipeline.Faults.{Area}
use grip_absorption_pipeline.Base.Nodes.{bus_number}
use grip_absorption_pipeline.Julia.{Julia, Weather, stop_server}
use grip_absorption_pipeline.Julia.Released.{start-Outcome}
use grip_absorption_pipeline.Julia.Owned.{held_list, IsOwned, owned-stop_server}
use grip_absorption_pipeline.Lifecycle.{
  Session, in_session, in_server, given_up, start_or_give_up, prepare_server, swing_here,
  swing_buses, find_swing, begin_run, on_init, on_term,
}

module _ {F Sim : Type 0} where
  -- whether on_term stops the server
  abbrev stops : Session F Sim → Bool
  stops s = not s.compile_only && (s.absorption_on && s.islanding_on)

  abbrev Safe : Session F Sim → Type 0
  Safe s = s.server.running ≡ (if stops s then held_list s.server.server_process else [])

  abbrev Quiet : Session F Sim → Type 0
  Quiet s = (s.server.running ≡ []) × (s.server.server_process ≡ none)

  abbrev Ready : Session F Sim → Type 0
  Ready s = (s.server.running ≡ []) × (s.server.server_process ≡ none) × (s.compile_only ≡ false)

  Quiet-Safe : (s : Session F Sim) → Quiet s → Safe s
  Quiet-Safe s (h, e) = go (stops s)
    where
      go : (b : Bool) → s.server.running ≡ (if b then held_list s.server.server_process else [])
      go true = h ∙ ap held_list (sym e)
      go false = h

  Ready-Safe : (s : Session F Sim) → Ready s → Safe s
  Ready-Safe s (h, e, c) = Quiet-Safe s (h, e)

  given_up-Safe :
      (s : Session F Sim) (r : Result (Unit {0}) × Julia)
      → Outcome (λ _ k. k.running ≡ held_list k.server_process) (λ k. k.running ≡ []) r
      → s.compile_only ≡ false
      → s.absorption_on && s.islanding_on ≡ true
      → Outcome (λ _. Safe) Safe (given_up (r.0, record s { server = r.1 }))
  given_up-Safe s (ok a, j) h c on = rw c (rw on h)
  given_up-Safe s (err e, j) h c on = rw c h

  on_term-Safe : (s : Session F Sim) → Safe s → (on_term s).1.server.running ≡ []
  unfolding on_term IsOwned
  on_term-Safe s h = go (stops s) h
    where
      go :
          (b : Bool)
          → s.server.running ≡ (if b then held_list s.server.server_process else [])
          → ((if b then in_server stop_server else pure tt) s).1.server.running ≡ []
      go true h = ap (λ k. k.running) (owned-stop_server s.server h)
      go false h = h

  prepare_server-Leads :
      (w : Weather) (largest : Option F) → Leads Safe Ready (λ _. Safe) (prepare_server w largest)
  unfolding prepare_server start_or_give_up
  prepare_server-Leads w largest s (h, e, c) = go (s.absorption_on && s.islanding_on) refl
    where
      reading :
          (o : Option F)
          → s.absorption_on && s.islanding_on ≡ true
          → Outcome
              (λ _. Safe)
              Safe
              ((or_raise o file_not_found >>= λ setpoint.
                  modify (λ s. record s { setpoint = setpoint }) >> start_or_give_up w)
                s)
      reading none on = Ready-Safe s (h, e, c)
      reading (some x) on =
          given_up-Safe (record s { setpoint = x }) _ (start-Outcome w s.server h e) c on

      go :
          (b : Bool)
          → s.absorption_on && s.islanding_on ≡ b
          → Outcome
              (λ _. Safe)
              Safe
              ((if b
                  then (or_raise largest file_not_found >>= λ setpoint.
                      modify (λ s. record s { setpoint = setpoint }) >> start_or_give_up w)
                  else pure tt)
                s)
      go true on = reading largest on
      go false on = Ready-Safe s (h, e, c)

module _ {F Sim : Type 0} ⦃gld : Gridlab Sim⦄ where
  in_session-Keeps : {A : Type 0} (m : Exec (Area Sim) A) → Keeps Safe (in_session {F = F} m)
  in_session-Keeps m = record { at = λ s h. h }

  bus_number-Keeps : (sn : String) → Keeps (Safe {F = F} {Sim = Sim}) (bus_number sn)
  unfolding bus_number
  bus_number-Keeps sn = search keeps_rules depth 20

  swing_here-Keeps :
      (sn : String) → Keeps (Safe {F = F} {Sim = Sim}) (swing_here {F = F} {Sim = Sim} sn)
  unfolding swing_here
  swing_here-Keeps sn = search (keeps_rules, in_session-Keeps, bus_number-Keeps) depth 20

  swing_buses-Keeps :
      (sns : List String) → Keeps (Safe {F = F} {Sim = Sim}) (swing_buses {F = F} {Sim = Sim} sns)
  unfolding swing_buses
  swing_buses-Keeps [] = search keeps_rules
  swing_buses-Keeps (sn ∷ sns) =
      bind-Keeps (swing_here sn) (λ here. swing_buses sns >>= λ more. pure (here ++ more))
        (swing_here-Keeps sn)
        (λ here.
          bind-Keeps (swing_buses sns) (λ more. pure (here ++ more)) (swing_buses-Keeps sns)
            (λ more. pure-Keeps (here ++ more)))

  find_swing-Keeps : (t : ℕ) → Keeps (Safe {F = F} {Sim = Sim}) (find_swing {F = F} {Sim = Sim} t)
  unfolding find_swing
  find_swing-Keeps t = search (keeps_rules, in_session-Keeps, swing_buses-Keeps) depth 20

  begin_run-Leads :
      (w : Weather) (largest : Option F) (t : ℕ)
      → Leads Safe (Ready {F = F} {Sim = Sim}) (λ _. Safe) (begin_run w largest t)
  unfolding begin_run
  begin_run-Leads w largest t s h =
      bind-Leads Safe Ready (λ _. Safe) (λ _. Safe) (prepare_server w largest) (λ _. find_swing t)
        (prepare_server-Leads w largest)
        (λ _. Keeps-Leads Safe Safe (find_swing t) (find_swing-Keeps t) (λ s h. h)) _ h

  on_init-Leads :
      (w : Weather) (largest : Option F) (t : ℕ)
      → Leads Safe (Quiet {F = F} {Sim = Sim}) (λ _. Safe) (on_init w largest t)
  unfolding on_init
  on_init-Leads w largest t s (h, e) = go (gld.get_global s.area.sim "compileonly" == "TRUE") refl
    where
      known : Session F Sim
      known = record s { compile_only = gld.get_global s.area.sim "compileonly" == "TRUE" }

      go :
          (b : Bool)
          → known.compile_only ≡ b
          → Outcome (λ _. Safe) Safe ((if b then pure tt else begin_run w largest t) known)
      go true c = Quiet-Safe known (h, e)
      go false c = begin_run-Leads w largest t known (h, e, c)

Outcome-same :
    {S : Type 0} (P : S → Type 0) (r : Result (Unit {0}) × S) → Outcome (λ _. P) P r → P r.1
Outcome-same P (ok a, s) h = h
Outcome-same P (err e, s) h = h

-- Where no process of the server runs before `on_init`, none runs after `on_term`, whatever the system
-- does and however `on_init` ends.
pub on_term-on_init :
    {F Sim : Type 0} ⦃gld : Gridlab Sim⦄ (w : Weather) (largest : Option F) (t : ℕ)
    (s : Session F Sim)
    → s.server.running ≡ []
    → s.server.server_process ≡ none
    → (on_term (on_init w largest t s).1).1.server.running ≡ []
on_term-on_init w largest t s h e =
    on_term-Safe (on_init w largest t s).1
      (Outcome-same Safe (on_init w largest t s) (on_init-Leads w largest t s (h, e)))
