-- ===== src/Packetized/Switching.antt =====
-- `turn_on`, `turn_off` and `soc_kWh` of the classes `gldWaterHeater` and `gldHVAC`
-- (packetized/vb_device.py).
use Prim.Native.String.{◌++◌ as str_append}
use grip_absorption_pipeline.Base.{String, if◌then◌else◌}
use grip_absorption_pipeline.Base.Exec.{Exec, pure, ◌>>=◌, ◌>>◌}
use grip_absorption_pipeline.Num.{Num, divide}
use grip_absorption_pipeline.Gridlab.{Gridlab}
use grip_absorption_pipeline.Packetized.World.{
  Hvac, GldDevice, water_heater, hvac, World, object_at, set_value,
}
use grip_absorption_pipeline.Packetized.Reading.{update_from_gld}

module _ {F : Type 0} ⦃num : Num F⦄ where
  -- `f'{t} degF'`
  abbrev deg_f : F → String
  deg_f t = str_append (num.str t) " degF"

module _ {F Sim : Type 0} ⦃num : Num F⦄ ⦃gld : Gridlab Sim⦄ where
  turn_on_hvac : String → Hvac F → Exec (World F Sim) (Unit {0})
  turn_on_hvac id d = do
    set_value id "thermostat_control" "NONE"
    if num.lt (num.sub d.setpoint_upp (num.lit 2)) d.temperature
        then set_value id "system_mode" "COOL"
        else if num.lt d.temperature (num.add d.setpoint_low (num.lit 2))
        then set_value id "system_mode" "HEAT"
        else pure tt

  turn_on_object : String → GldDevice F → Exec (World F Sim) (Unit {0})
  unfolding turn_on_hvac
  turn_on_object id (water_heater d) =
      set_value id "tank_setpoint" (deg_f (num.add d.upper_temp (num.lit 1)))
  turn_on_object id (hvac d) = turn_on_hvac id d

  unfoldable pub turn_on_device : String → Exec (World F Sim) (Unit {0})
  unfolding turn_on_object
  turn_on_device id = do d ← object_at id; turn_on_object id d

  unfoldable pub turn_off_object : String → GldDevice F → Exec (World F Sim) (Unit {0})
  turn_off_object id (water_heater d) =
      set_value id "tank_setpoint" (deg_f (num.sub d.lower_temp (num.lit 1)))
  turn_off_object id (hvac d) = do
    set_value id "thermostat_control" "NONE"
    set_value id "system_mode" "OFF"

  unfoldable pub turn_off_device : String → Exec (World F Sim) (Unit {0})
  unfolding turn_off_object
  turn_off_device id = do d ← object_at id; turn_off_object id d

  -- `kWh/deltaT * soc * (width of the band)`
  unfoldable pub soc_kwh_object : GldDevice F → Exec (World F Sim) F
  soc_kwh_object (water_heater d) = do
    per_degree ← divide (num.lit 2) (num.lit 20)
    pure (num.mul (num.mul per_degree d.soc) (num.sub d.upper_temp d.lower_temp))
  soc_kwh_object (hvac d) = do
    per_degree ← divide (num.lit 2) (num.lit 4)
    pure (num.mul (num.mul per_degree d.soc) (num.mul d.pem_range (num.lit 2)))

  unfoldable pub soc_kwh : String → Exec (World F Sim) F
  unfolding update_from_gld soc_kwh_object
  soc_kwh id = do update_from_gld id; d ← object_at id; soc_kwh_object d
