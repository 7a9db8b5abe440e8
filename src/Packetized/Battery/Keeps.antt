-- ===== src/Packetized/Battery/Keeps.antt =====
-- The methods of `VirtualBattery` (packetized/virtual_battery.py) keep every device under its own id,
-- and bring in no id.
use grip_absorption_pipeline.Base.{
  ℕ, ◌≡◌, refl, sym, ap, ◌∙◌, Bool, true, false, Option, none, some, List, [], ◌∷◌, inl, inr,
  Bool-cases,
}
use grip_absorption_pipeline.Base.Dict.{Dict, get, values, contains, keys}
use grip_absorption_pipeline.Base.Exec.{Ensures, >>=-Ensures, >>=-Ensures_any, Ensures-map, ◌>>=◌}
use grip_absorption_pipeline.Num.{Num}
use grip_absorption_pipeline.Gridlab.{Gridlab}
use grip_absorption_pipeline.Packetized.World.{World}
use grip_absorption_pipeline.Packetized.Device.{
  pem_off, Effect, Effects, power_request, turn_on, turn_off, TurnOn, PowerRequest, VbDevice,
  update, pem, request_accepted, given_end,
}
use grip_absorption_pipeline.Packetized.Device.During.{During}
use grip_absorption_pipeline.Packetized.Device.Step.{Stepped, Updated, Granted}
use grip_absorption_pipeline.Packetized.Device.Follows.{
  update-Updated, pem-Stepped, request_accepted-Granted,
}
use grip_absorption_pipeline.Packetized.Battery.{
  VirtualBattery, Round, Grants, replace_all, apply_updates, total_soc, first_round, admit,
  take_answer, pem_round, apply_pem_changes, grant_to, consider, grant_all, handle_power_requests,
  comes_closer, answer_requests, next, or_empty, given_setpoint,
}
use grip_absorption_pipeline.Packetized.Battery.Keys.{
  IsKeyed, Listed, Listed-values, replace_all-IsKeyed, IsGood, put-IsGood, put_found-IsGood,
  IsGood-keys,
}

module _ {F Sim : Type 0} ⦃num : Num F⦄ ⦃gld : Gridlab Sim⦄ (big : Dict (VbDevice F)) where
  admit-IsGood :
      (b : Bool) (d next : VbDevice F) (e : TurnOn F) (r : Round F) (w : World F Sim)
      → contains d.device_id big ≡ true
      → next.device_id ≡ d.device_id
      → IsGood big r.devices
      → Ensures (λ r' _. IsGood big r'.devices) (admit b d next e r w)
  unfolding admit
  admit-IsGood true d next e r w at id h = put-IsGood big d.device_id next r.devices at (sym id) h
  admit-IsGood false d next e r w at id h =
      >>=-Ensures (λ idle w'. Updated d (some pem_off) none idle × During d.device_id w w')
        (λ r' _. IsGood big r'.devices) _ (update d (some pem_off) none) w
        (update-Updated d (some pem_off) none w)
        (λ idle _ (u, _). put-IsGood big d.device_id idle r.devices at (sym u.same_id) h)

  take_answer-IsGood :
      (limit : F) (d next : VbDevice F) (effect : Option (Effect F)) (r : Round F) (w : World F Sim)
      → contains d.device_id big ≡ true
      → next.device_id ≡ d.device_id
      → IsGood big r.devices
      → Ensures (λ r' _. IsGood big r'.devices) (take_answer limit d next effect r w)
  unfolding take_answer
  take_answer-IsGood limit d next none r w at id h = h
  take_answer-IsGood limit d next (some (turn_on e)) r w at id h =
      admit-IsGood (num.lt r.totalload limit) d next e r w at id h
  take_answer-IsGood limit d next (some (turn_off e)) r w at id h =
      put-IsGood big d.device_id next r.devices at (sym id) h
  take_answer-IsGood limit d next (some (power_request e)) r w at id h =
      put-IsGood big d.device_id next r.devices at (sym id) h

  pub pem_round-IsGood :
      (limit : F) (t : ℕ) (ds : List (VbDevice F)) (r : Round F) (w : World F Sim)
      → Listed big ds
      → IsGood big r.devices
      → Ensures (λ r' _. IsGood big r'.devices) (pem_round limit t ds r w)
  unfolding pem_round
  pem_round-IsGood limit t [] r w l h = h
  pem_round-IsGood limit t (d ∷ ds) r w l h =
      >>=-Ensures (λ a w'. Stepped w t d a × During d.device_id w w')
        (λ r' _. IsGood big r'.devices) _ (pem 2 d t) w (pem-Stepped 2 t d w)
        λ a w1 (s, _).
          >>=-Ensures (λ r' _. IsGood big r'.devices) (λ r' _. IsGood big r'.devices) _
            (take_answer limit d a.0 a.1 r) w1
            (take_answer-IsGood limit d a.0 a.1 r w1 l.0 s.same_id h)
            (λ r' w2 h'. pem_round-IsGood limit t ds r' w2 l.1 h')

  grant_to-IsGood :
      (t : ℕ) (q : PowerRequest F) (found : Option (VbDevice F)) (g : Grants F) (w : World F Sim)
      → get q.device_id g.devices ≡ found
      → IsGood big g.devices
      → Ensures (λ g' _. IsGood big g'.devices) (grant_to t q found g w)
  unfolding grant_to
  grant_to-IsGood t q none g w e h = h
  grant_to-IsGood t q (some d) g w e h =
      >>=-Ensures (λ a _. Granted t d a) (λ g' _. IsGood big g'.devices) _ (request_accepted d t) w
        (request_accepted-Granted d t w)
        (λ a _ granted. put_found-IsGood big q.device_id d a.0 g.devices e granted.same_id h)

  consider-IsGood :
      (setpoint : F) (t : ℕ) (q : PowerRequest F) (g : Grants F) (w : World F Sim)
      → IsGood big g.devices
      → Ensures (λ g' _. IsGood big g'.devices) (consider setpoint t q g w)
  unfolding consider
  consider-IsGood setpoint t q g w h = elim (Bool-cases (comes_closer setpoint g.totalkw q.kw)) [
    | inl closer ↦ rw closer (grant_to-IsGood t q (get q.device_id g.devices) g w refl h)
    | inr farther ↦ rw farther h
  ]

  pub grant_all-IsGood :
      (setpoint : F) (t : ℕ) (qs : List (PowerRequest F)) (g : Grants F) (w : World F Sim)
      → IsGood big g.devices
      → Ensures (λ g' _. IsGood big g'.devices) (grant_all setpoint t qs g w)
  unfolding grant_all
  grant_all-IsGood setpoint t [] g w h = h
  grant_all-IsGood setpoint t (q ∷ qs) g w h =
      >>=-Ensures (λ g' _. IsGood big g'.devices) (λ g' _. IsGood big g'.devices) _
        (consider setpoint t q g) w (consider-IsGood setpoint t q g w h)
        (λ g' w1 h'. grant_all-IsGood setpoint t qs g' w1 h')

  answer_requests-IsGood :
      (shuffle : List (PowerRequest F) → List (PowerRequest F)) (vb : VirtualBattery F)
      (r : Round F) (qs : List (PowerRequest F)) (w : World F Sim)
      → IsGood big r.devices
      → Ensures (λ a _. IsGood big a.0.devices) (answer_requests shuffle vb r qs w)
  unfolding answer_requests handle_power_requests
  answer_requests-IsGood shuffle vb r [] w h = h
  answer_requests-IsGood shuffle vb r (q ∷ qs) w h =
      >>=-Ensures (λ g _. IsGood big g.devices) (λ a _. IsGood big a.0.devices) _
        (handle_power_requests (record vb { devices = r.devices }) (shuffle (q ∷ qs))) w
        (grant_all-IsGood vb.setpoint vb.time_sec (shuffle (q ∷ qs)) _ w h) (λ g _ h'. h')

module _ {F Sim : Type 0} ⦃num : Num F⦄ ⦃gld : Gridlab Sim⦄ where
  apply_updates_devices :
      (vb : VirtualBattery F) (ns : List (VbDevice F)) (w : World F Sim)
      → Ensures (λ vb' _. vb'.devices ≡ replace_all vb.devices ns) (apply_updates vb ns w)
  unfolding apply_updates
  apply_updates_devices vb ns w =
      >>=-Ensures_any (λ vb' _. vb'.devices ≡ replace_all vb.devices ns) _
        (total_soc (replace_all vb.devices ns)) w (λ _ _. refl)

  pub apply_pem_changes-IsGood :
      (vb : VirtualBattery F) (w : World F Sim)
      → IsKeyed vb.devices
      → Ensures (λ r _. IsGood vb.devices r.devices) (apply_pem_changes vb w)
  unfolding apply_pem_changes
  apply_pem_changes-IsGood vb w h =
      pem_round-IsGood vb.devices (num.round vb.setpoint) vb.time_sec (values vb.devices)
        first_round w (Listed-values vb.devices h) (record { keyed = tt; within = tt })

  rest_IsGood :
      (shuffle : List (PowerRequest F) → List (PowerRequest F)) (vb : VirtualBattery F)
      (w : World F Sim)
      → IsKeyed vb.devices
      → Ensures
          (λ a _. IsGood vb.devices a.0.devices)
          ((apply_pem_changes vb >>= λ r. answer_requests shuffle vb r r.effects.power_requests) w)
  rest_IsGood shuffle vb w h =
      >>=-Ensures (λ r _. IsGood vb.devices r.devices) _ _ (apply_pem_changes vb) w
        (apply_pem_changes-IsGood vb w h)
        λ r w1 good. answer_requests-IsGood vb.devices shuffle vb r r.effects.power_requests w1 good

  -- If every device of a battery stands under its own id, then so it does after `next`, whatever
  -- the updates and the order of the requests, and each id after it was there before.
  pub next-IsGood :
      (shuffle : List (PowerRequest F) → List (PowerRequest F)) (vb : VirtualBattery F)
      (setpoint : Option F) (updates : Option (List (VbDevice F))) (time : Option ℕ)
      (w : World F Sim)
      → IsKeyed vb.devices
      → Ensures (λ a _. IsGood vb.devices a.0.devices) (next shuffle vb setpoint updates time w)
  unfolding next
  next-IsGood shuffle vb setpoint updates time w h =
      >>=-Ensures (λ vb2 _. vb2.devices ≡ replace_all vb.devices (or_empty updates)) _ _
        (apply_updates
          (record vb {
            setpoint = given_setpoint setpoint vb.setpoint;
            time_sec = given_end time vb.time_sec;
          })
          (or_empty updates))
        w (apply_updates_devices _ _ w)
        λ vb2 w1 e.
          Ensures-map {A = VirtualBattery F × Effects F × F} _
            (rest_IsGood shuffle vb2 w1 (rw e (keyed vb.devices h).0))
            (λ a _ good.
              IsGood-keys vb2.devices vb.devices a.0.devices (ap keys e ∙ (keyed vb.devices h).1)
                good)
    where
      keyed :
          (dict : Dict (VbDevice F))
          → IsKeyed dict
          → IsKeyed (replace_all dict (or_empty updates))
            × (keys (replace_all dict (or_empty updates)) ≡ keys dict)
      keyed = replace_all-IsKeyed (or_empty updates)
