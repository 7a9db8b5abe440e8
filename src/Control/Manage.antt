-- ===== src/Control/Manage.antt =====
-- `get_island_management_data` and `island_management` (absorption.py). The optimisation server is
-- an argument: the first row of the table that it answers with, a number for each column, or none
-- where the call fails.
pub mod Shed
pub mod Columns
pub mod Bounds
use Prim.Native.String.{◌++◌ as str_append}
use grip_absorption_pipeline.Base.{
  ℕ, zero, suc, ◌+◌, ◌-◌, ◌*◌, String, Bool, true, false, not, Option, none, some, List, [], ◌∷◌,
  ◌++◌, ◌&&◌, map, reverse, ltb, leb, nat_eq, ◌==◌, if◌then◌else◌,
}
use grip_absorption_pipeline.Base.Lists.{length}
use grip_absorption_pipeline.Base.Text.{split_first, strip, contains_text}
use grip_absorption_pipeline.Base.Decimal.{first_digits, int_of, decimal}
use grip_absorption_pipeline.Base.Dict.{Dict, get, put, keys}
use grip_absorption_pipeline.Base.Exec.{
  Exec, pure, gets, or_raise, modify, key_error, type_error, attribute_error, value_error,
  overflow_error, runtime_error, ◌>>=◌, ◌>>◌,
}
use grip_absorption_pipeline.Num.{Num}
use grip_absorption_pipeline.Gridlab.{Gridlab}
use grip_absorption_pipeline.Packetized.Units.{convert_power_units}
use grip_absorption_pipeline.Packetized.Device.{PowerRequest}
use grip_absorption_pipeline.Packetized.Island.{packetize_island}
use grip_absorption_pipeline.Faults.{Area, value_of, assign, find, log_power, all_but}
use grip_absorption_pipeline.ServerData.{convert, bus_in}
use grip_absorption_pipeline.ServerData.Buses.{sorted}
use grip_absorption_pipeline.Network.Sets.{mem}
use grip_absorption_pipeline.Balance.{PowerBalance, check_power_balance}
use grip_absorption_pipeline.Control.{
  Island, PerIsland, Control, in_area, in_world, battery_of, put_battery, get_for, put_for,
}
use grip_absorption_pipeline.Control.Houses.{
  devices_on, supernode_of, turn_off_house, turn_on_house,
}

abbrev pub insert_number : ℕ → List ℕ → List ℕ
insert_number n [] = n ∷ []
insert_number n (m ∷ ms) = let rest = insert_number n ms in if ltb m n then m ∷ rest else n ∷ m ∷ ms

abbrev pub sorted_numbers : List ℕ → List ℕ
sorted_numbers [] = []
sorted_numbers (n ∷ ns) = insert_number n (sorted_numbers ns)

abbrev joined_by_underscore : List String → String
joined_by_underscore [] = ""
joined_by_underscore (s ∷ []) = s
joined_by_underscore (s ∷ (t ∷ ts)) = str_append s (str_append "_" (joined_by_underscore (t ∷ ts)))

-- `"_".join(map(str, sorted(island)))`
pub island_str : Island → String
island_str island = joined_by_underscore (map decimal (sorted_numbers island))

module _ {Sim : Type 0} ⦃gld : Gridlab Sim⦄ where
  -- the objects of the island that are online
  unfoldable pub online_in : Island → List String → Exec (Area Sim) (List String)
  online_in island [] = pure []
  online_in island (b ∷ bs) = do
    name ← value_of b "supernode_name"
    number ← bus_in name
    state ← value_of b "generator_status"
    rest ← online_in island bs
    pure (if mem (int_of number) island && state == "ONLINE" then b ∷ rest else rest)

-- the three lists about the batteries
pub record Stored (F : Type 0) : Type 0 where
  pub e0 : List F
  pub e_max : List F
  pub p_max : List F

module _ {F Sim : Type 0} ⦃num : Num F⦄ ⦃gld : Gridlab Sim⦄ where
  unfoldable pub stored_in : List String → Exec (Area Sim) (Stored F)
  stored_in [] = pure (record { e0 = []; e_max = []; p_max = [] })
  stored_in (b ∷ bs) = do
    charge ← value_of b "state_of_charge"
    soc ← or_raise (num.float (split_first " " charge)) value_error
    capacity ← value_of b "battery_capacity"
    e_max ← convert_power_units capacity "Wh" "kW"
    item ← gets λ a. gld.get_object a.sim b
    inv ← or_raise (get "parent" item) key_error
    rate ← value_of inv "max_charge_rate"
    p_max ← convert_power_units rate "W" "kW"
    rest ← stored_in bs
    pure (record {
      e0 = num.mul soc e_max ∷ rest.e0;
      e_max = e_max ∷ rest.e_max;
      p_max = p_max ∷ rest.p_max;
    })

  -- `get_island_management_data(island)`; `t_inc` is 3
  unfoldable pub get_island_management_data : Island → Exec (Control F Sim) (Dict String)
  get_island_management_data island = do
    clock ← gets λ c. gld.get_global c.world.sim "clock"
    all_batteries ← in_area (find "class=battery")
    batteries ← in_area (online_in island all_batteries)
    all_solar ← in_area (find "class=solar")
    solar ← in_area (online_in island all_solar)
    stored ← in_area (stored_in batteries)
    vb ← battery_of island
    pure (
        ("op", "management")
        ∷ ("island", island_str island)
        ∷ ("t0", clock)
        ∷ ("t_inc", "3")
        ∷ ("solargens", convert solar)
        ∷ ("batteries", convert batteries)
        ∷ ("E0_battery", convert (map num.str stored.e0))
        ∷ ("Emax_battery", convert (map num.str stored.e_max))
        ∷ ("Pmax_battery", convert (map num.str stored.p_max))
        ∷ ("E0_virtualb", convert (num.str vb.soc ∷ []))
        ∷ ("Emax_virtualb", convert (decimal (length vb.devices * 5) ∷ []))
        ∷ ("gens", convert [])
        ∷ ("Pmax_gens", convert [])
        ∷ [])

  -- the power of a generator: set, and logged
  unfoldable pub set_output : String → F → Exec (Control F Sim) (Unit {0})
  set_output inv p_out =
      in_area
        (assign inv "P_Out" (str_append (num.fixed2 p_out) " kW") >> log_power inv (num.str p_out))

  -- the rest of the loop body for a column about a battery or a solar generator
  unfoldable pub take_solar : String → F → PowerBalance F → Exec (Control F Sim) (PowerBalance F)
  unfolding strip split_first
  take_solar c p_out p = do
    set_output (strip " " (split_first ":" c)) p_out
    pure (record p { solar_p = num.add p.solar_p p_out })

  unfoldable pub take_battery : String → F → PowerBalance F → Exec (Control F Sim) (PowerBalance F)
  take_battery c value p = do
    item ← gets λ k. gld.get_object k.world.sim c
    inv ← or_raise (get "parent" item) key_error
    set_output inv (num.neg value)
    pure (record p { batt_p = put inv (num.neg value) p.batt_p })

  -- the houses of the nodes of an island
  unfoldable pub count_houses : Island → Exec (Control F Sim) ℕ
  count_houses [] = pure 0
  count_houses (n ∷ ns) = do
    here ← devices_on (supernode_of n)
    more ← count_houses ns
    pure (length here.houses + more)

  -- `int(round(load_shed/load_per_house[tuple(island)]))`
  unfoldable pub houses_for : Island → F → Exec (Control F Sim) ℕ
  houses_for island load_shed = do
    known ← gets λ c. get_for island c.load_per_house
    per_house ← or_raise known key_error
    quotient ←
        or_raise (if num.is_zero per_house then none else some (num.div load_shed per_house))
          overflow_error
    pure (num.int_round quotient)

  -- how many houses a shed load asks for; a battery that can give it up takes it from its setpoint
  unfoldable pub wanted_houses : Island → Dict F → F → Exec (Control F Sim) ℕ
  wanted_houses island results load_shed = do
    vb ← battery_of island
    if num.le (num.lit 0) (num.round (num.sub vb.setpoint load_shed))
        then (do
          put_battery island (record vb { setpoint = num.sub vb.setpoint load_shed })
          pure 0)
        else (do
          sh_all ← or_raise (get "sh_all" results) key_error
          if not (num.is_zero sh_all) && num.is_zero (num.round vb.setpoint)
              then count_houses island
              else houses_for island load_shed)
