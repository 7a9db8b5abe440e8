-- ===== src/Packetized/Reading.antt =====
-- How `gldWaterHeater` and `gldHVAC` (packetized/vb_device.py) read their device from the
-- simulation: the constructors and `update_from_gld`.
use grip_absorption_pipeline.Base.{String, if◌then◌else◌}
use grip_absorption_pipeline.Base.Text.{split_first}
use grip_absorption_pipeline.Base.Exec.{Exec, or_raise, value_error, ◌>>=◌, ◌>>◌}
use grip_absorption_pipeline.Num.{Num, divide}
use grip_absorption_pipeline.Gridlab.{Gridlab}
use grip_absorption_pipeline.Packetized.Units.{convert_power_units}
use grip_absorption_pipeline.Packetized.World.{
  WaterHeater, Hvac, GldDevice, water_heater, hvac, World, object_at, write_object, get_value,
}

module _ {F Sim : Type 0} ⦃num : Num F⦄ ⦃gld : Gridlab Sim⦄ where
  -- `float(gld.get_value(id, prop).split(' ')[0])`
  unfoldable pub read_number : String → String → Exec (World F Sim) F
  unfolding split_first
  read_number id prop = do
    s ← get_value id prop
    or_raise (num.float (split_first " " s)) value_error

  unfoldable pub read_kw : String → String → Exec (World F Sim) F
  unfolding convert_power_units
  read_kw id prop = do s ← get_value id prop; convert_power_units s "kW" "kW"

  -- how full the tank is, between its two limits
  unfoldable pub water_heater_soc : F → F → F → Exec (World F Sim) F
  water_heater_soc temperature lower upper =
      divide (num.sub temperature lower) (num.sub upper lower)

  unfoldable pub heating_soc : F → F → F → Exec (World F Sim) F
  heating_soc low range temperature =
      divide (num.sub temperature (num.sub low range)) (num.mul range (num.lit 2))

  unfoldable pub cooling_soc : F → F → F → Exec (World F Sim) F
  cooling_soc upp range temperature =
      divide (num.sub (num.add upp range) temperature) (num.mul range (num.lit 2))

  -- heating below the middle of the two setpoints, cooling above
  unfoldable pub hvac_soc : F → F → F → F → F → Exec (World F Sim) F
  unfolding heating_soc cooling_soc
  hvac_soc low upp range temperature outside = do
    half ← divide (num.sub upp low) (num.lit 2)
    if num.le outside (num.add low half)
        then heating_soc low range temperature
        else cooling_soc upp range temperature

  -- `gldWaterHeater(wh_id, gridlabd)`
  unfoldable pub new_water_heater : String → Exec (World F Sim) (Unit {0})
  unfolding read_number read_kw water_heater_soc
  new_water_heater id = do
    setpoint ← read_number id "tank_setpoint"
    let upper = num.add setpoint (num.lit 10)
    let lower = num.sub setpoint (num.lit 10)
    temperature ← read_number id "temperature"
    kw ← read_kw id "actual_load"
    soc ← water_heater_soc temperature lower upper
    write_object id (
        water_heater (record {
          setpoint = setpoint;
          pem_range = num.lit 10;
          upper_temp = upper;
          lower_temp = lower;
          temperature = temperature;
          kw = kw;
          soc = soc;
        }))

  -- `gldHVAC(house_id, gridlabd)`
  unfoldable pub new_hvac : String → Exec (World F Sim) (Unit {0})
  unfolding read_number read_kw hvac_soc
  new_hvac id = do
    upp ← read_number id "cooling_setpoint"
    low ← read_number id "heating_setpoint"
    range ← read_number id "thermostat_deadband"
    temperature ← read_number id "air_temperature"
    kw ← read_kw id "hvac_load"
    outside ← read_number id "outdoor_temperature"
    soc ← hvac_soc low upp range temperature outside
    write_object id (
        hvac (record {
          setpoint_upp = upp;
          setpoint_low = low;
          pem_range = range;
          temperature = temperature;
          kw = kw;
          outside_t = outside;
          soc = soc;
        }))

  -- `update_from_gld`, field by field
  unfoldable pub update_water_heater : String → WaterHeater F → Exec (World F Sim) (Unit {0})
  update_water_heater id d = do
    temperature ← read_number id "temperature"
    write_object id (water_heater (record d { temperature = temperature }))
    kw ← read_kw id "actual_load"
    write_object id (water_heater (record d { temperature = temperature; kw = kw }))
    soc ← water_heater_soc temperature d.lower_temp d.upper_temp
    write_object id (water_heater (record d { temperature = temperature; kw = kw; soc = soc }))

  unfoldable pub update_hvac : String → Hvac F → Exec (World F Sim) (Unit {0})
  update_hvac id d = do
    temperature ← read_number id "air_temperature"
    write_object id (hvac (record d { temperature = temperature }))
    kw ← read_kw id "hvac_load"
    write_object id (hvac (record d { temperature = temperature; kw = kw }))
    outside ← read_number id "outdoor_temperature"
    write_object id (hvac (record d { temperature = temperature; kw = kw; outside_t = outside }))
    soc ← hvac_soc d.setpoint_low d.setpoint_upp d.pem_range temperature outside
    write_object id
        (hvac (record d { temperature = temperature; kw = kw; outside_t = outside; soc = soc }))

  unfoldable pub update_object : String → GldDevice F → Exec (World F Sim) (Unit {0})
  update_object id (water_heater d) = update_water_heater id d
  update_object id (hvac d) = update_hvac id d

  unfoldable pub update_from_gld : String → Exec (World F Sim) (Unit {0})
  update_from_gld id = do d ← object_at id; update_object id d
