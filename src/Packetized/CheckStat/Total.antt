-- ===== src/Packetized/CheckStat/Total.antt =====
-- `check_stat` (packetized/vb_device.py) always returns: its divisors are never zero.
use grip_absorption_pipeline.Base.{
  ℕ, String, Bool, true, false, ◌&&◌, List, [], ◌∷◌, inl, inr, Bool-cases, if◌then◌else◌,
}
use grip_absorption_pipeline.Base.Exec.{Exec, Returns, >>=-Returns, pure}
use grip_absorption_pipeline.Num.{Num, NumZero}
use grip_absorption_pipeline.Gridlab.{Gridlab}
use grip_absorption_pipeline.Packetized.World.{
  WaterHeater, Hvac, GldDevice, water_heater, hvac, World,
}
use grip_absorption_pipeline.Packetized.Ready.{IsReady}
use grip_absorption_pipeline.Packetized.CheckStat.{
  Stat, request, exit_on, exit_off, is_request, in_band, roll_below, roll_between, req_die_roll,
  check_water_heater, request_loop, try_request, check_hvac, check_object, check_stat,
}

module _ {F Sim : Type 0} ⦃num : Num F⦄ ⦃gld : Gridlab Sim⦄ (zero_laws : NumZero F) where
  req_die_roll-Returns :
      (soc : F) (w : World F Sim) → IsReady w → Returns (λ _ w'. IsReady w') (req_die_roll soc w)
  unfolding req_die_roll roll_between roll_below
  req_die_roll-Returns soc w ready = elim (Bool-cases (num.le soc (num.lit 0))) [
    | inl empty ↦ rw empty ready
    | inr some_ ↦ rw some_ (elim (Bool-cases (num.le (num.lit 1) soc)) [
      | inl full ↦ rw full ready
      | inr part ↦ rw part (
          rw (zero_laws.sub_nonzero soc some_)
            (rw (zero_laws.lit_nonzero 179) (record { at = ready.at })))
    ])
  ]

  check_water_heater-Returns :
      (d : WaterHeater F) (s : Stat) (h : ℕ) (w : World F Sim)
      → IsReady w
      → Returns (λ _ w'. IsReady w') (check_water_heater d s h w)
  unfolding check_water_heater
  check_water_heater-Returns d s h w ready =
      elim (Bool-cases
        (in_band d.setpoint (num.add d.pem_range (num.lit h)) d.temperature && is_request s)) [
          | inl asks ↦ rw asks (req_die_roll-Returns d.soc w ready)
          | inr no_ ↦ rw no_ ready
        ]

  try_request-Returns :
      (s : Stat) (soc : F) (visited : Exec (World F Sim) (Bool × Bool)) (w : World F Sim)
      → IsReady w
      → ((w1 : World F Sim) → IsReady w1 → Returns (λ _ w'. IsReady w') (visited w1))
      → Returns (λ _ w'. IsReady w') (try_request s soc visited w)
  unfolding try_request
  try_request-Returns request soc visited w ready k =
      >>=-Returns (λ _ w'. IsReady w') (λ _ w'. IsReady w') _ (req_die_roll soc) w
        (req_die_roll-Returns soc w ready) after
    where
      after :
          (won : Bool) (w1 : World F Sim)
          → IsReady w1
          → Returns (λ _ w'. IsReady w') ((if won then pure (true, false) else visited) w1)
      after true w1 r1 = r1
      after false w1 r1 = k w1 r1
  try_request-Returns exit_on soc visited w ready k = k w ready
  try_request-Returns exit_off soc visited w ready k = k w ready

  request_loop-Returns :
      (d : Hvac F) (s : Stat) (band : F) (exitoff : Bool) (setpoints : List F) (w : World F Sim)
      → IsReady w
      → Returns (λ _ w'. IsReady w') (request_loop d s band exitoff setpoints w)
  unfolding request_loop
  request_loop-Returns d s band exitoff [] w ready = ready
  request_loop-Returns d s band exitoff (x ∷ xs) w ready =
      elim (Bool-cases (in_band x band d.temperature)) [
        | inl inside ↦ rw inside (
            try_request-Returns s d.soc _ w ready
              (λ w1 r1. request_loop-Returns d s band false xs w1 r1))
        | inr outside ↦ rw outside (request_loop-Returns d s band exitoff xs w ready)
      ]

  check_object-Returns :
      (d : GldDevice F) (s : Stat) (h : ℕ) (w : World F Sim)
      → IsReady w
      → Returns (λ _ w'. IsReady w') (check_object d s h w)
  unfolding check_object check_hvac
  check_object-Returns (water_heater d) s h w ready = check_water_heater-Returns d s h w ready
  check_object-Returns (hvac d) s h w ready =
      >>=-Returns (λ _ w'. IsReady w') (λ _ w'. IsReady w') _
        (request_loop d s (num.add d.pem_range (num.lit h)) true
          (d.setpoint_upp ∷ d.setpoint_low ∷ []))
        w
        (request_loop-Returns d s (num.add d.pem_range (num.lit h)) true
          (d.setpoint_upp ∷ d.setpoint_low ∷ []) w ready)
        (λ _ _ ready'. ready')

  pub check_stat-Returns :
      (id : String) (s : Stat) (h : ℕ) (w : World F Sim)
      → IsReady w
      → Returns (λ _ w'. IsReady w') (check_stat id s h w)
  unfolding check_stat
  check_stat-Returns id s h w ready = check_object-Returns (w.heap id) s h w ready
