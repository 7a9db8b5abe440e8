-- ===== src/Packetized/Battery/Total.antt =====
-- `VirtualBattery.next` (packetized/virtual_battery.py) returns where the texts of the simulator
-- parse.
use grip_absorption_pipeline.Base.{
  ℕ, ◌≡◌, Bool, true, false, Option, none, some, List, [], ◌∷◌, Bool-cases, inl, inr,
}
use grip_absorption_pipeline.Base.Dict.{get, values}
use grip_absorption_pipeline.Base.Exec.{Returns, Ensures-Returns}
use grip_absorption_pipeline.Num.{Num, NumZero, NumOrder}
use grip_absorption_pipeline.Gridlab.{Gridlab}
use grip_absorption_pipeline.Packetized.World.{GldDevice, water_heater, hvac, World}
use grip_absorption_pipeline.Packetized.Reading.{update_from_gld}
use grip_absorption_pipeline.Packetized.Ready.{IsReady, update_from_gld-Returns}
use grip_absorption_pipeline.Packetized.Switching.{soc_kwh_object, soc_kwh}
use grip_absorption_pipeline.Packetized.Device.{
  pem_off, Effect, power_request, turn_on, turn_off, TurnOn, PowerRequest, VbDevice, update, pem,
  request_accepted,
}
use grip_absorption_pipeline.Packetized.Device.Total.{
  Readily, Readily-bind, update-Readily, pem-Readily, request_accepted-Readily,
}
use grip_absorption_pipeline.Packetized.Battery.{
  VirtualBattery, Round, Grants, each_soc, total_soc, replace_all, apply_updates, admit,
  take_answer, pem_round, apply_pem_changes, grant_to, consider, grant_all, handle_power_requests,
  comes_closer, answer_requests, next, or_empty, first_round, sum_kw,
}
use grip_absorption_pipeline.Packetized.Battery.Keys.{IsKeyed, IsGood}
use grip_absorption_pipeline.Packetized.Battery.Keeps.{next-IsGood}
use grip_absorption_pipeline.Packetized.Battery.Load.{IsAdmitted, apply_pem_changes_admits}
use grip_absorption_pipeline.Packetized.Battery.Requests.{distance, handle_power_requests_closer}

module _ {F Sim : Type 0} ⦃num : Num F⦄ ⦃gld : Gridlab Sim⦄ (zero_laws : NumZero F) where
  soc_kwh_object-Readily : (d : GldDevice F) → Readily zero_laws (soc_kwh_object {Sim = Sim} d)
  unfolding soc_kwh_object
  soc_kwh_object-Readily (water_heater d) w ready = rw (zero_laws.lit_nonzero 19) ready
  soc_kwh_object-Readily (hvac d) w ready = rw (zero_laws.lit_nonzero 3) ready

  soc_kwh-Readily : (id : _) → Readily zero_laws (soc_kwh {Sim = Sim} id)
  unfolding soc_kwh
  soc_kwh-Readily id w ready =
      Readily-bind zero_laws (update_from_gld id) _ (update_from_gld-Returns zero_laws id)
        (λ _ w1 r1. soc_kwh_object-Readily (w1.heap id) w1 r1) w ready

  each_soc-Readily : (ds : List (VbDevice F)) → Readily zero_laws (each_soc {Sim = Sim} ds)
  unfolding each_soc
  each_soc-Readily [] w ready = ready
  each_soc-Readily (d ∷ ds) w ready =
      Readily-bind zero_laws (soc_kwh d.device_id) _ (soc_kwh-Readily d.device_id)
        (λ soc w1 r1.
          Readily-bind zero_laws (each_soc ds) _ (each_soc-Readily ds) (λ _ _ r2. r2) w1 r1)
        w ready

  apply_updates-Readily :
      (vb : VirtualBattery F) (ns : List (VbDevice F))
      → Readily zero_laws (apply_updates {Sim = Sim} vb ns)
  unfolding apply_updates total_soc
  apply_updates-Readily vb ns w ready =
      Readily-bind zero_laws (total_soc (replace_all vb.devices ns)) _
        (λ w1 r1.
          Readily-bind zero_laws (each_soc (values (replace_all vb.devices ns))) _
            (each_soc-Readily (values (replace_all vb.devices ns))) (λ _ _ r2. r2) w1 r1)
        (λ _ _ r1. r1) w ready

  admit-Readily :
      (b : Bool) (d n : VbDevice F) (e : TurnOn F) (r : Round F)
      → Readily zero_laws (admit {Sim = Sim} b d n e r)
  unfolding admit
  admit-Readily true d n e r w ready = ready
  admit-Readily false d n e r w ready =
      Readily-bind zero_laws (update d (some pem_off) none) _
        (update-Readily zero_laws d (some pem_off) none) (λ _ _ r1. r1) w ready

  take_answer-Readily :
      (limit : F) (d n : VbDevice F) (e : Option (Effect F)) (r : Round F)
      → Readily zero_laws (take_answer {Sim = Sim} limit d n e r)
  unfolding take_answer
  take_answer-Readily limit d n none r w ready = ready
  take_answer-Readily limit d n (some (turn_on e)) r w ready =
      admit-Readily (num.lt r.totalload limit) d n e r w ready
  take_answer-Readily limit d n (some (turn_off e)) r w ready = ready
  take_answer-Readily limit d n (some (power_request e)) r w ready = ready

  pem_round-Readily :
      (limit : F) (t : ℕ) (ds : List (VbDevice F)) (r : Round F)
      → Readily zero_laws (pem_round {Sim = Sim} limit t ds r)
  unfolding pem_round
  pem_round-Readily limit t [] r w ready = ready
  pem_round-Readily limit t (d ∷ ds) r w ready =
      Readily-bind zero_laws (pem 2 d t) _ (pem-Readily zero_laws 0 d t)
        (λ a w1 r1.
          Readily-bind zero_laws (take_answer limit d a.0 a.1 r) _
            (take_answer-Readily limit d a.0 a.1 r) (pem_round-Readily limit t ds) w1 r1)
        w ready

  grant_to-Readily :
      (t : ℕ) (q : PowerRequest F) (found : Option (VbDevice F)) (g : Grants F)
      → Readily zero_laws (grant_to {Sim = Sim} t q found g)
  unfolding grant_to
  grant_to-Readily t q none g w ready = ready
  grant_to-Readily t q (some d) g w ready =
      Readily-bind zero_laws (request_accepted d t) _ (request_accepted-Readily zero_laws d t)
        (λ _ _ r1. r1) w ready

  consider-Readily :
      (setpoint : F) (t : ℕ) (q : PowerRequest F) (g : Grants F)
      → Readily zero_laws (consider {Sim = Sim} setpoint t q g)
  unfolding consider
  consider-Readily setpoint t q g w ready =
      elim (Bool-cases (comes_closer setpoint g.totalkw q.kw)) [
        | inl closer ↦ rw closer (grant_to-Readily t q (get q.device_id g.devices) g w ready)
        | inr farther ↦ rw farther ready
      ]

  grant_all-Readily :
      (setpoint : F) (t : ℕ) (qs : List (PowerRequest F)) (g : Grants F)
      → Readily zero_laws (grant_all {Sim = Sim} setpoint t qs g)
  unfolding grant_all
  grant_all-Readily setpoint t [] g w ready = ready
  grant_all-Readily setpoint t (q ∷ qs) g w ready =
      Readily-bind zero_laws (consider setpoint t q g) _ (consider-Readily setpoint t q g)
        (grant_all-Readily setpoint t qs) w ready

  apply_pem_changes-Readily :
      (vb : VirtualBattery F) → Readily zero_laws (apply_pem_changes {Sim = Sim} vb)
  unfolding apply_pem_changes
  apply_pem_changes-Readily vb w ready =
      pem_round-Readily (num.round vb.setpoint) vb.time_sec (values vb.devices) first_round w ready

  handle_power_requests-Readily :
      (vb : VirtualBattery F) (qs : List (PowerRequest F))
      → Readily zero_laws (handle_power_requests {Sim = Sim} vb qs)
  unfolding handle_power_requests
  handle_power_requests-Readily vb qs w ready =
      grant_all-Readily vb.setpoint vb.time_sec qs _ w ready

  answer_requests-Readily :
      (shuffle : List (PowerRequest F) → List (PowerRequest F)) (vb : VirtualBattery F)
      (r : Round F) (qs : List (PowerRequest F))
      → Readily zero_laws (answer_requests {Sim = Sim} shuffle vb r qs)
  unfolding answer_requests
  answer_requests-Readily shuffle vb r [] w ready = ready
  answer_requests-Readily shuffle vb r (q ∷ qs) w ready =
      Readily-bind zero_laws
        (handle_power_requests (record vb { devices = r.devices }) (shuffle (q ∷ qs))) _
        (handle_power_requests-Readily (record vb { devices = r.devices }) (shuffle (q ∷ qs)))
        (λ _ _ r1. r1) w ready

  next-Readily :
      (shuffle : List (PowerRequest F) → List (PowerRequest F)) (vb : VirtualBattery F)
      (setpoint : Option F) (updates : Option (List (VbDevice F))) (time : Option ℕ)
      → Readily zero_laws (next {Sim = Sim} shuffle vb setpoint updates time)
  unfolding next
  next-Readily shuffle vb setpoint updates time w ready =
      Readily-bind zero_laws _ _ (apply_updates-Readily _ (or_empty updates))
        (λ vb2 w1 r1.
          Readily-bind zero_laws (apply_pem_changes vb2) _ (apply_pem_changes-Readily vb2)
            (λ r. answer_requests-Readily shuffle vb2 r r.effects.power_requests) w1 r1)
        w ready

  -- From a world whose texts parse, and a battery whose devices stand under their own ids, `next`
  -- returns; the devices stand so afterwards, each of their ids was there before, and the texts
  -- still parse.
  pub next-Returns :
      (shuffle : List (PowerRequest F) → List (PowerRequest F)) (vb : VirtualBattery F)
      (setpoint : Option F) (updates : Option (List (VbDevice F))) (time : Option ℕ)
      (w : World F Sim)
      → IsKeyed vb.devices
      → IsReady w
      → Returns
          (λ a w'. IsGood vb.devices a.0.devices × IsReady w')
          (next shuffle vb setpoint updates time w)
  next-Returns shuffle vb setpoint updates time w keyed ready =
      Ensures-Returns _ _ (next shuffle vb setpoint updates time w)
        (next-IsGood shuffle vb setpoint updates time w keyed)
        (next-Readily shuffle vb setpoint updates time w ready)

  -- From a world whose texts parse `apply_pem_changes` returns; its load is the sum of what its
  -- effects turn on, added in order, and each of these was admitted while the sum of those before it
  -- was below the rounded setpoint.
  pub apply_pem_changes-Returns :
      (vb : VirtualBattery F) (w : World F Sim)
      → IsReady w
      → Returns (λ r w'. IsAdmitted (num.round vb.setpoint) r × IsReady w') (apply_pem_changes vb w)
  apply_pem_changes-Returns vb w ready =
      Ensures-Returns _ _ (apply_pem_changes vb w) (apply_pem_changes_admits vb w)
        (apply_pem_changes-Readily vb w ready)

  -- From such a world `handle_power_requests` returns, and, in whatever order the requests come,
  -- its load is no farther from the setpoint than the load of the devices before, where the order
  -- of the numbers is reflexive and transitive.
  pub handle_power_requests-Returns :
      (order : NumOrder F) (vb : VirtualBattery F) (qs : List (PowerRequest F)) (w : World F Sim)
      → IsReady w
      → Returns
          (λ g w'.
            (num.le
                (distance vb.setpoint g.totalkw)
                (distance vb.setpoint (sum_kw (num.lit 0) (values vb.devices)))
              ≡ true)
            × IsReady w')
          (handle_power_requests vb qs w)
  handle_power_requests-Returns order vb qs w ready =
      Ensures-Returns _ _ (handle_power_requests vb qs w)
        (handle_power_requests_closer order vb qs w) (handle_power_requests-Readily vb qs w ready)
