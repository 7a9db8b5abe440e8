-- ===== src/Packetized/Battery/Requests.antt =====
-- What `handle_power_requests` (packetized/virtual_battery.py) grants.
use grip_absorption_pipeline.Base.{
  ◌≡◌, inl, inr, true, Option, none, some, List, [], ◌∷◌, Bool-cases,
}
use grip_absorption_pipeline.Base.Dict.{values, get}
use grip_absorption_pipeline.Base.Exec.{Ensures, >>=-Ensures, >>=-Ensures_any}
use grip_absorption_pipeline.Num.{Num, NumOrder}
use grip_absorption_pipeline.Gridlab.{Gridlab}
use grip_absorption_pipeline.Packetized.World.{World}
use grip_absorption_pipeline.Packetized.Device.{PowerRequest, VbDevice, request_accepted}
use grip_absorption_pipeline.Packetized.Battery.{
  VirtualBattery, Grants, sum_kw, comes_closer, grant_to, consider, grant_all,
  handle_power_requests,
}

module _ {F : Type 0} ⦃num : Num F⦄ where
  -- how far a load is from the setpoint
  abbrev pub distance : F → F → F
  distance setpoint load = num.abs (num.sub load setpoint)

  abbrev IsCloser : F → F → Grants F → Type 0
  IsCloser setpoint load g = num.le (distance setpoint g.totalkw) (distance setpoint load) ≡ true

module _ {F Sim : Type 0} ⦃num : Num F⦄ ⦃gld : Gridlab Sim⦄ (order : NumOrder F)
    (setpoint : F) where
  grant_to-IsCloser :
      (t : _) (r : PowerRequest F) (found : Option (VbDevice F)) (g : Grants F) (w : World F Sim)
      → comes_closer setpoint g.totalkw r.kw ≡ true
      → Ensures (λ g' _. IsCloser setpoint g.totalkw g') (grant_to t r found g w)
  unfolding grant_to
  grant_to-IsCloser t r none g w h = order.le_refl _
  grant_to-IsCloser t r (some d) g w h =
      >>=-Ensures_any (λ g' _. IsCloser setpoint g.totalkw g') _ (request_accepted d t) w (λ _ _. h)

  consider-IsCloser :
      (t : _) (r : PowerRequest F) (g : Grants F) (w : World F Sim)
      → Ensures (λ g' _. IsCloser setpoint g.totalkw g') (consider setpoint t r g w)
  unfolding consider
  consider-IsCloser t r g w = elim (Bool-cases (comes_closer setpoint g.totalkw r.kw)) [
    | inl yes_ ↦ rw yes_ (grant_to-IsCloser t r (get r.device_id g.devices) g w yes_)
    | inr no_ ↦ rw no_ (order.le_refl _)
  ]

  grant_all-IsCloser :
      (t : _) (rs : List (PowerRequest F)) (load : F) (g : Grants F) (w : World F Sim)
      → IsCloser setpoint load g
      → Ensures (λ g' _. IsCloser setpoint load g') (grant_all setpoint t rs g w)
  unfolding grant_all
  grant_all-IsCloser t [] load g w h = h
  grant_all-IsCloser t (r ∷ rs) load g w h =
      >>=-Ensures (λ g' _. IsCloser setpoint g.totalkw g') (λ g' _. IsCloser setpoint load g') _
        (consider setpoint t r g) w (consider-IsCloser t r g w)
        λ g' w1 closer. grant_all-IsCloser t rs load g' w1 (order.le_trans _ _ _ closer h)

-- However the requests are ordered, granting them leaves the load no farther from the setpoint
-- than the load of the devices before.
pub handle_power_requests_closer :
    {F Sim : Type 0} ⦃num : Num F⦄ ⦃gld : Gridlab Sim⦄ (order : NumOrder F) (vb : VirtualBattery F)
    (rs : List (PowerRequest F)) (w : World F Sim)
    → Ensures
        (λ g _.
          num.le
            (distance vb.setpoint g.totalkw)
            (distance vb.setpoint (sum_kw (num.lit 0) (values vb.devices)))
          ≡ true)
        (handle_power_requests vb rs w)
unfolding handle_power_requests
handle_power_requests_closer order vb rs w =
    grant_all-IsCloser order vb.setpoint vb.time_sec rs _ _ w (order.le_refl _)
