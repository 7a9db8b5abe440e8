-- ===== src/Packetized/Island.antt =====
-- `packetize_island` (absorption.py): one round of the virtual battery of an island, whose effects
-- are sent to the simulation.
use grip_absorption_pipeline.Base.{ℕ, none, some, List, [], ◌∷◌}
use grip_absorption_pipeline.Base.Dict.{values}
use grip_absorption_pipeline.Base.Exec.{Exec, pure, ◌>>=◌, ◌>>◌}
use grip_absorption_pipeline.Num.{Num}
use grip_absorption_pipeline.Gridlab.{Gridlab}
use grip_absorption_pipeline.Packetized.World.{World, kw_of, object_at}
use grip_absorption_pipeline.Packetized.Reading.{update_from_gld}
use grip_absorption_pipeline.Packetized.Switching
use grip_absorption_pipeline.Packetized.Device.{TurnOn, TurnOff, PowerRequest, VbDevice, update}
use grip_absorption_pipeline.Packetized.Battery.{VirtualBattery, next}

module _ {F Sim : Type 0} ⦃num : Num F⦄ ⦃gld : Gridlab Sim⦄ where
  -- `[d.update() for d in devices]`
  unfoldable pub update_each : List (VbDevice F) → Exec (World F Sim) (List (VbDevice F))
  update_each [] = pure []
  update_each (d ∷ ds) = do d' ← update d none none; ds' ← update_each ds; pure (d' ∷ ds')

  -- the loop of `effect.send()`
  unfoldable pub send_ons : List (TurnOn F) → Exec (World F Sim) (Unit {0})
  send_ons [] = pure tt
  send_ons (e ∷ es) = Switching.turn_on_device e.gld >> send_ons es

  unfoldable pub send_offs : List TurnOff → Exec (World F Sim) (Unit {0})
  send_offs [] = pure tt
  send_offs (e ∷ es) = Switching.turn_off_device e.gld >> send_offs es

  -- `[d.gld_dev.update_from_gld().kw for d in devices]`
  unfoldable pub measure_each : List (VbDevice F) → Exec (World F Sim) (List F)
  measure_each [] = pure []
  measure_each (d ∷ ds) = do
    update_from_gld d.device_id
    g ← object_at d.device_id
    kws ← measure_each ds
    pure (kw_of g ∷ kws)

  -- The load, and the battery as it is left.
  unfoldable pub packetize_island :
      (List (PowerRequest F) → List (PowerRequest F))
      → VirtualBattery F
      → ℕ
      → Exec (World F Sim) (VirtualBattery F × F)
  packetize_island shuffle vb time = do
    updates ← update_each (values vb.devices)
    (vb', effects, load) ← next shuffle vb (some vb.setpoint) (some updates) (some time)
    send_ons effects.turn_ons
    send_offs effects.turn_offs
    kws ← measure_each (values vb'.devices)
    pure (vb', num.np_sum kws)
