-- ===== src/Packetized/CheckStat/Bands.antt =====
-- The answers of the two methods `check_stat` (packetized/vb_device.py) to EXIT_ON and EXIT_OFF, by
-- the temperature of the device.
use grip_absorption_pipeline.Base.{
  ℕ, String, ◌≡◌, refl, Bool, true, false, not, ◌&&◌, ◌||◌, if◌then◌else◌, arith,
}
use grip_absorption_pipeline.Base.Exec.{ok, pure}
use grip_absorption_pipeline.Num.{Num}
use grip_absorption_pipeline.Packetized.World.{
  WaterHeater, Hvac, GldDevice, water_heater, hvac, World,
}
use grip_absorption_pipeline.Packetized.CheckStat.{
  exit_on, exit_off, in_band, beyond, req_die_roll, check_water_heater, check_hvac, check_object,
  check_stat,
}

module _ {F : Type 0} ⦃num : Num F⦄ where
  -- A tank is too cold; a house is above the band of the upper setpoint or below that of the lower.
  abbrev pub needs_on : GldDevice F → ℕ → Bool
  needs_on (water_heater g) h =
      num.lt g.temperature (num.sub g.setpoint (num.add g.pem_range (num.lit h)))
  needs_on (hvac g) h =
      let band = num.add g.pem_range (num.lit h) in
      beyond g.temperature band g.setpoint_upp (num.lit 1)
      || beyond g.temperature band g.setpoint_low (num.neg (num.lit 1))

  -- A tank is too hot; a house is between the two bands.
  abbrev pub needs_off : GldDevice F → ℕ → Bool
  needs_off (water_heater g) h =
      num.lt (num.add g.setpoint (num.add g.pem_range (num.lit h))) g.temperature
  needs_off (hvac g) h =
      let band = num.add g.pem_range (num.lit h) in
      not (in_band g.setpoint_upp band g.temperature || in_band g.setpoint_low band g.temperature)
      && not (needs_on (hvac g) h)

module _ {F Sim : Type 0} ⦃num : Num F⦄ where
  water_heater-on :
      (g : WaterHeater F) (h : ℕ) (w : World F Sim)
      → check_water_heater g exit_on h w ≡ (ok (needs_on (water_heater g) h), w)
  unfolding check_water_heater
  water_heater-on g h w =
      tank (in_band g.setpoint (num.add g.pem_range (num.lit h)) g.temperature)
        (needs_on (water_heater g) h) (needs_off (water_heater g) h)
    where
      tank :
          (a b c : Bool)
          → (if a && false then req_die_roll g.soc else pure (b && true || c && false)) w
            ≡ (ok b, w)
      tank true true c = refl
      tank true false true = refl
      tank true false false = refl
      tank false true c = refl
      tank false false true = refl
      tank false false false = refl

  water_heater-off :
      (g : WaterHeater F) (h : ℕ) (w : World F Sim)
      → check_water_heater g exit_off h w ≡ (ok (needs_off (water_heater g) h), w)
  unfolding check_water_heater
  water_heater-off g h w =
      tank (in_band g.setpoint (num.add g.pem_range (num.lit h)) g.temperature)
        (needs_on (water_heater g) h) (needs_off (water_heater g) h)
    where
      tank :
          (a b c : Bool)
          → (if a && false then req_die_roll g.soc else pure (b && false || c && true)) w
            ≡ (ok c, w)
      tank true true true = refl
      tank true true false = refl
      tank true false true = refl
      tank true false false = refl
      tank false true true = refl
      tank false true false = refl
      tank false false true = refl
      tank false false false = refl

  hvac-on :
      (g : Hvac F) (h : ℕ) (w : World F Sim)
      → check_hvac g exit_on h w ≡ (ok (needs_on (hvac g) h), w)
  unfolding check_hvac
  hvac-on g h w = ground arith

  hvac-off :
      (g : Hvac F) (h : ℕ) (w : World F Sim)
      → check_hvac g exit_off h w ≡ (ok (needs_off (hvac g) h), w)
  unfolding check_hvac
  hvac-off g h w = ground arith

  object-on :
      (g : GldDevice F) (h : ℕ) (w : World F Sim)
      → check_object g exit_on h w ≡ (ok (needs_on g h), w)
  unfolding check_object
  object-on (water_heater g) h w = water_heater-on g h w
  object-on (hvac g) h w = hvac-on g h w

  object-off :
      (g : GldDevice F) (h : ℕ) (w : World F Sim)
      → check_object g exit_off h w ≡ (ok (needs_off g h), w)
  unfolding check_object
  object-off (water_heater g) h w = water_heater-off g h w
  object-off (hvac g) h w = hvac-off g h w

  -- The answer to EXIT_ON, with nothing changed.
  pub check_stat-on :
      (id : String) (h : ℕ) (w : World F Sim)
      → check_stat id exit_on h w ≡ (ok (needs_on (w.heap id) h), w)
  unfolding check_stat
  check_stat-on id h w = object-on (w.heap id) h w

  -- The answer to EXIT_OFF, with nothing changed.
  pub check_stat-off :
      (id : String) (h : ℕ) (w : World F Sim)
      → check_stat id exit_off h w ≡ (ok (needs_off (w.heap id) h), w)
  unfolding check_stat
  check_stat-off id h w = object-off (w.heap id) h w
