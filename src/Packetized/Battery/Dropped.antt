-- ===== src/Packetized/Battery/Dropped.antt =====
-- `apply_pem_changes` (packetized/virtual_battery.py) and the devices that `pem` answers with no
-- effect: the new dict has only those with one.
use grip_absorption_pipeline.Base.{ℕ, ◌≡◌, refl, ◌∙◌, List, [], ◌∷◌, ◌++◌, ap}
use grip_absorption_pipeline.Base.Dict.{Dict, values}
use grip_absorption_pipeline.Base.Lists.{All}
use grip_absorption_pipeline.Num.{Num}
use grip_absorption_pipeline.Gridlab.{Gridlab}
use grip_absorption_pipeline.Packetized.World.{World}
use grip_absorption_pipeline.Packetized.Device.{VbDevice}
use grip_absorption_pipeline.Packetized.Device.Waiting.{IsWaiting, pem_waiting}
use grip_absorption_pipeline.Packetized.Battery.{
  VirtualBattery, Round, first_round, take_answer, pem_round, apply_pem_changes,
}

module _ {F Sim : Type 0} ⦃num : Num F⦄ ⦃gld : Gridlab Sim⦄ where
  -- A waiting device is passed over: it does not come into the new dict.
  pem_round_waiting :
      (limit : F) (t : ℕ) (d : VbDevice F) (ds : List (VbDevice F)) (r : Round F) (w : World F Sim)
      → IsWaiting t w d
      → pem_round limit t (d ∷ ds) r w ≡ pem_round limit t ds r w
  unfolding pem_round take_answer
  pem_round_waiting limit t d ds r w h = rw (pem_waiting 1 t d w h)

  pem_round_silent :
      (limit : F) (t : ℕ) (ds others : List (VbDevice F)) (r : Round F) (w : World F Sim)
      → All (IsWaiting t w) ds
      → pem_round limit t (ds ++ others) r w ≡ pem_round limit t others r w
  pem_round_silent limit t [] others r w h = refl
  pem_round_silent limit t (d ∷ ds) others r w h =
      pem_round_waiting limit t d (ds ++ others) r w h.0
      ∙ pem_round_silent limit t ds others r w h.1

  -- Where the first devices of a battery are PEM_OFF, before their time, and at a temperature at
  -- which neither exit is due, `apply_pem_changes` ends as for a battery without them, whatever the
  -- other devices do: their ids are lost with the dict that it makes.
  pub apply_pem_changes_loses_waiting :
      (vb : VirtualBattery F) (idle : List (VbDevice F)) (others : Dict (VbDevice F))
      (w : World F Sim)
      → values vb.devices ≡ idle ++ values others
      → All (IsWaiting vb.time_sec w) idle
      → apply_pem_changes vb w ≡ apply_pem_changes (record vb { devices = others }) w
  unfolding apply_pem_changes
  apply_pem_changes_loses_waiting vb idle others w e h =
      ap (λ ds. pem_round (num.round vb.setpoint) vb.time_sec ds first_round w) e
      ∙ pem_round_silent _ vb.time_sec idle (values others) first_round w h
