-- ===== src/Packetized/Device/Waiting.antt =====
-- `vb_device.pem` (packetized/vb_device.py) on an idle device before its time.
use grip_absorption_pipeline.Base.{ℕ, suc, ◌<◌, ◌≡◌, none, arith}
use grip_absorption_pipeline.Base.Exec.{Exec, ok}
use grip_absorption_pipeline.Num.{Num}
use grip_absorption_pipeline.Gridlab.{Gridlab}
use grip_absorption_pipeline.Packetized.World.{World}
use grip_absorption_pipeline.Packetized.CheckStat.Bands.{check_stat-on, check_stat-off}
use grip_absorption_pipeline.Packetized.Device.During.{IsInside}
use grip_absorption_pipeline.Packetized.Device.{
  PemState, pem_off, pem_on, exit_off, exit_on, VbDevice, Answer, when_off, dispatch, check_exits,
  exit_if_low, exit_if_high, then_exits, pem,
}

module _ {F Sim : Type 0} ⦃num : Num F⦄ ⦃gld : Gridlab Sim⦄ where
  -- An idle device before its time, in its band.
  pub record IsWaiting (t : ℕ) (w : World F Sim) (d : VbDevice F) : Type 0 where
    pub idle : d.pem_state ≡ pem_off
    pub early : t < d.state_ends_at
    pub in_range : IsInside (w.heap d.device_id)

  check_exits_waiting :
      (t : ℕ) (d : VbDevice F) (w : World F Sim)
      → IsWaiting t w d
      → check_exits d w ≡ (ok (d, none), w)
  unfolding check_exits exit_if_low exit_if_high
  check_exits_waiting t d w h =
      rw (check_stat-on d.device_id 0 w, h.in_range.0, check_stat-off d.device_id 0 w, h.in_range.1)

  dispatch_waiting :
      (rest : VbDevice F → ℕ → Exec (World F Sim) (Answer F)) (t : ℕ) (s : PemState)
      (d : VbDevice F) (w : World F Sim)
      → t < d.state_ends_at
      → s ≡ pem_off
      → dispatch rest s d t w ≡ (ok (d, none), w)
  unfolding dispatch when_off
  dispatch_waiting rest t pem_off d w early e = ground arith
  dispatch_waiting rest t pem_on d w early e = cc
  dispatch_waiting rest t exit_off d w early e = cc
  dispatch_waiting rest t exit_on d w early e = cc

  -- Such a device is left as it is, with no effect.
  pub pem_waiting :
      (fuel t : ℕ) (d : VbDevice F) (w : World F Sim)
      → IsWaiting t w d
      → pem (suc fuel) d t w ≡ (ok (d, none), w)
  unfolding pem then_exits
  pem_waiting fuel t d w h =
      rw (dispatch_waiting (pem fuel) t d.pem_state d w h.early h.idle, check_exits_waiting t d w h)
