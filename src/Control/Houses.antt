-- ===== src/Control/Houses.antt =====
-- The devices of the islands (absorption.py): `initialize_devices`, `update_VB`, `turn_off_house`
-- and `turn_on_house`. A set of devices is a list, in the order in which Python goes through it. No
-- call has a time before t_start. A device is a value: an object that a battery shares with
-- `all_devices` is the battery's own from its first round on, which makes every device anew.
use Prim.Native.String.{◌++◌ as str_append}
use grip_absorption_pipeline.Base.{
  ℕ, ◌-◌, String, Bool, true, false, Option, none, some, List, [], ◌∷◌, ◌++◌, ◌&&◌, if◌then◌else◌,
}
use grip_absorption_pipeline.Base.Text.{split_second, strip}
use grip_absorption_pipeline.Base.Decimal.{three_digits}
use grip_absorption_pipeline.Base.Dict.{Dict, get, put, pop, listed}
use grip_absorption_pipeline.Base.Exec.{
  Exec, pure, gets, or_raise, modify, attempt, key_error, type_error, index_error, ◌>>=◌, ◌>>◌,
}
use grip_absorption_pipeline.Num.{Num}
use grip_absorption_pipeline.Gridlab.{Gridlab}
use grip_absorption_pipeline.Packetized.World.{World}
use grip_absorption_pipeline.Packetized.Reading.{new_water_heater, new_hvac}
use grip_absorption_pipeline.Packetized.Switching.{turn_off_device}
use grip_absorption_pipeline.Packetized.Device.{VbDevice, new_device}
use grip_absorption_pipeline.Packetized.Battery.{VirtualBattery, new_battery, add_device}
use grip_absorption_pipeline.Faults.{NodeDevices, assign, find}
use grip_absorption_pipeline.Faults.Mapping.{map_devices_to_nodes}
use grip_absorption_pipeline.Control.{
  Island, PerIsland, Control, in_area, in_world, battery_of, put_battery, put_for,
}

-- `"supernode_{:03d}".format(node)`
abbrev pub supernode_of : ℕ → String
supernode_of node = str_append "supernode_" (three_digits node)

-- `'waterheater_{}'.format(h.strip('house_'))`
unfoldable pub heater_of : String → String
unfolding strip
heater_of h = str_append "waterheater_" (strip "house_" h)

-- `if not device_map`
abbrev pub is_mapped : Option (Dict NodeDevices) → Bool
is_mapped none = false
is_mapped (some []) = false
is_mapped (some (e ∷ es)) = true

-- `s.update(items)` of a set
abbrev pub join_set : List String → List String → List String
join_set xs [] = xs
join_set xs (y ∷ ys) = join_set (if listed y xs then xs else xs ++ y ∷ []) ys

module _ {F : Type 0} where
  -- None where there is no island
  abbrev pub or_none : PerIsland (VirtualBattery F) → Option (PerIsland (VirtualBattery F))
  or_none [] = none
  or_none (b ∷ bs) = some (b ∷ bs)

module _ {F Sim : Type 0} ⦃num : Num F⦄ ⦃gld : Gridlab Sim⦄ where
  -- `{wh:vb_device(gldWaterHeater(wh,gridlabd), state_ends_at=t-t_start) for wh in waterheaters}`
  unfoldable pub heater_devices :
      ℕ → Dict (VbDevice F) → List String → Exec (World F Sim) (Dict (VbDevice F))
  heater_devices ends acc [] = pure acc
  heater_devices ends acc (wh ∷ whs) = do
    new_water_heater wh
    d ← new_device wh ends
    heater_devices ends (put wh d acc) whs

  unfoldable pub hvac_devices :
      ℕ → Dict (VbDevice F) → List String → Exec (World F Sim) (Dict (VbDevice F))
  hvac_devices ends acc [] = pure acc
  hvac_devices ends acc (h ∷ hs) = do
    new_hvac h
    d ← new_device h ends
    hvac_devices ends (put h d acc) hs

  unfoldable pub set_device_map : Exec (Control F Sim) (Unit {0})
  set_device_map = do
    device_map ← in_area map_devices_to_nodes
    modify λ c. record c { device_map = some device_map }

  -- `initialize_devices(t)`
  unfoldable pub initialize_devices : ℕ → Exec (Control F Sim) (Unit {0})
  initialize_devices t = do
    set_device_map
    waterheaters ← in_area (find "class=waterheater")
    houses ← in_area (find "class=house")
    on ← gets λ c. c.packetizing && c.absorption_on
    start ← gets λ c. c.t_start
    if on
        then (do
          heaters ← in_world (heater_devices (t - start) [] waterheaters)
          all ← in_world (hvac_devices (t - start) heaters houses)
          modify λ c. record c { all_devices = some all })
        else pure tt

  unfoldable pub devices_on : String → Exec (Control F Sim) NodeDevices
  devices_on node = do
    known ← gets λ c. c.device_map
    device_map ← or_raise known type_error
    or_raise (get node device_map) key_error

  -- the houses and the water heaters of the nodes of an island
  unfoldable pub gather : NodeDevices → Island → Exec (Control F Sim) NodeDevices
  gather acc [] = pure acc
  gather acc (node ∷ nodes) = do
    here ← devices_on (supernode_of node)
    gather
        (record {
          houses = join_set acc.houses here.houses;
          waterheaters = join_set acc.waterheaters here.waterheaters;
        })
        nodes

  -- `[all_devices[d] for d in ids]`
  unfoldable pub known_devices : List String → Exec (Control F Sim) (List (VbDevice F))
  known_devices [] = pure []
  known_devices (id ∷ ids) = do
    known ← gets λ c. c.all_devices
    all ← or_raise known type_error
    d ← or_raise (get id all) key_error
    ds ← known_devices ids
    pure (d ∷ ds)

  -- the loop of `update_VB`
  unfoldable pub island_batteries :
      PerIsland (VirtualBattery F)
      → List Island
      → Exec (Control F Sim) (PerIsland (VirtualBattery F))
  island_batteries acc [] = pure acc
  island_batteries acc (island ∷ islands) = do
    ids ← gather (record { houses = []; waterheaters = [] }) island
    heaters ← known_devices ids.waterheaters
    hvacs ← known_devices ids.houses
    modify λ c. record c { islanded_devices = c.islanded_devices ++ ids.houses ++ ids.waterheaters }
    battery ← in_world (new_battery (heaters ++ hvacs))
    island_batteries (put_for island battery acc) islands

  -- `update_VB(islands)`
  unfoldable pub update_vb :
      List Island → Exec (Control F Sim) (Option (PerIsland (VirtualBattery F)))
  update_vb islands = do
    mapped ← gets λ c. is_mapped c.device_map
    if mapped then pure tt else set_device_map
    modify λ c. record c { islanded_devices = [] }
    batteries ← island_batteries [] islands
    pure (or_none batteries)

  -- `devices[id].gld_dev.turn_off()` and `devices.pop(id)`
  abbrev pub switched :
      Island → String → VirtualBattery F → VbDevice F → Exec (Control F Sim) (Unit {0})
  switched island id vb d =
      in_world (turn_off_device d.device_id)
      >> put_battery island (record vb { devices = pop id vb.devices })

  abbrev pub take_out : Island → String → VirtualBattery F → Exec (Control F Sim) (Unit {0})
  take_out island id vb = or_raise (get id vb.devices) key_error >>= switched island id vb

  unfoldable pub drop_device : Island → String → Exec (Control F Sim) (Unit {0})
  drop_device island id = battery_of island >>= take_out island id

  -- `gridlabd.set_value('meter_{}'.format(h.split('_')[1]),'customer_interrupted', …)`
  unfoldable pub interrupt : String → String → Exec (Control F Sim) (Unit {0})
  unfolding split_second
  interrupt h value = do
    part ← or_raise (split_second "_" h) index_error
    in_area (assign (str_append "meter_" part) "customer_interrupted" value)

  -- `turn_off_house(island,h)`
  unfoldable pub turn_off_house : Island → String → Exec (Control F Sim) (Unit {0})
  turn_off_house island h = do
    attempt (drop_device island h >> drop_device island (heater_of h))
    interrupt h "TRUE"

  -- `all_devices[id].state_ends_at=…`
  unfoldable pub restart_timer : String → ℕ → Exec (Control F Sim) (Unit {0})
  restart_timer id ends = do
    known ← gets λ c. c.all_devices
    all ← or_raise known type_error
    d ← or_raise (get id all) key_error
    modify λ c. record c { all_devices = some (put id (record d { state_ends_at = ends }) all) }

  unfoldable pub add_known : Island → String → Exec (Control F Sim) (Unit {0})
  add_known island id = do
    vb ← battery_of island
    known ← gets λ c. c.all_devices
    all ← or_raise known type_error
    d ← or_raise (get id all) key_error
    put_battery island (add_device vb d)

  -- `turn_on_house(island,h,t)`
  unfoldable pub turn_on_house : Island → String → ℕ → Exec (Control F Sim) (Unit {0})
  turn_on_house island h t = do
    start ← gets λ c. c.t_start
    restart_timer h (t - start)
    restart_timer (heater_of h) (t - start)
    add_known island h
    add_known island (heater_of h)
    interrupt h "FALSE"
