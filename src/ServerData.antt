-- ===== src/ServerData.antt =====
-- The network as `get_islanding_data` (absorption.py) reads it for the optimisation server. A pandas
-- table is the list of its rows; a table that was made of no rows has no columns, so that reading one
-- is an AttributeError.
pub mod Buses
pub mod Tables
pub mod Numbering
pub mod Branches
mod Tests
use Prim.Native.String.{◌++◌ as str_append}
use grip_absorption_pipeline.Base.{
  ℕ, zero, suc, ◌+◌, String, Bool, true, false, not, Option, none, some, List, [], ◌∷◌, ◌++◌, map,
  ◌==◌, if◌then◌else◌,
}
use grip_absorption_pipeline.Base.Text.{split_first}
use grip_absorption_pipeline.Base.Decimal.{first_digits, int_of, decimal}
use grip_absorption_pipeline.Base.Dict.{Dict, get, put, listed}
use grip_absorption_pipeline.Base.Exec.{
  Exec, pure, raise, gets, or_raise, key_error, attribute_error, value_error, ◌>>=◌, ◌>>◌,
}
use grip_absorption_pipeline.Num.{Num}
use grip_absorption_pipeline.Gridlab.{Gridlab}
use grip_absorption_pipeline.Packetized.Units.{convert_power_units}
use grip_absorption_pipeline.Faults.{Area, value_of, find, supernodes_in}
use Buses.{busmap, renumber, mapback, sorted, set_of}

pub record BranchRow : Type 0 where
  pub t : String
  pub f : String
  pub status : ℕ
  pub kind : String

pub record GenRow (F : Type 0) : Type 0 where
  pub bus : String
  pub p_min : F
  pub p_max : F
  pub status : ℕ
  pub solar : ℕ

pub record BatRow (F : Type 0) : Type 0 where
  pub bus : String
  pub p_max : F
  pub soc : F
  pub e_max : F
  pub status : ℕ

pub record ShuntRow (F : Type 0) : Type 0 where
  pub bus : String
  pub p : F

-- `switchstat` and `genstat`
abbrev pub switch_status : Dict ℕ
switch_status = ("CLOSED", 1) ∷ ("OPEN", 0) ∷ []

abbrev pub gen_status : Dict ℕ
gen_status = ("OFFLINE", 0) ∷ ("ONLINE", 1) ∷ []

-- `" ".join(map(str, list))`, of the texts
abbrev pub convert : List String → String
convert [] = ""
convert (s ∷ []) = s
convert (s ∷ (t ∷ ts)) = str_append s (str_append " " (convert (t ∷ ts)))

module _ {Sim : Type 0} ⦃gld : Gridlab Sim⦄ where
  -- `re.search(r'\d+', s).group()`
  abbrev pub bus_in : String → Exec (Area Sim) String
  bus_in s = or_raise (first_digits s) attribute_error

  branch_row : String → String → Exec (Area Sim) BranchRow
  branch_row kind bid = do
    to ← value_of bid "to"
    t ← bus_in to
    from ← value_of bid "from"
    f ← bus_in from
    state ← value_of bid "status"
    status ← or_raise (get state switch_status) key_error
    pure (record { t = t; f = f; status = status; kind = kind })

  -- the loop over the branches of a class
  unfoldable pub branch_rows :
      String → Dict BranchRow → List String → Exec (Area Sim) (Dict BranchRow)
  unfolding branch_row
  branch_rows kind acc [] = pure acc
  branch_rows kind acc (bid ∷ bids) = do
    row ← branch_row kind bid
    branch_rows kind (put bid row acc) bids

  unfoldable pub branch_data : Exec (Area Sim) (Dict BranchRow)
  branch_data = do
    switches ← find "class=switch"
    acc1 ← branch_rows "switch" [] switches
    overhead ← find "class=overhead_line"
    acc2 ← branch_rows "fixed" acc1 overhead
    underground ← find "class=underground_line"
    branch_rows "fixed" acc2 underground

module _ {F : Type 0} ⦃num : Num F⦄ where
  -- a generator at a swing bus
  abbrev pub swing_row : String → GenRow F
  swing_row bus = record {
    bus = bus;
    p_min = num.lit 0;
    p_max = num.lit 1000;
    status = 1;
    solar = 0;
  }

  -- `{m:0 for m in meters}`
  abbrev pub no_loads : Dict F → List String → Dict F
  no_loads acc [] = acc
  no_loads acc (m ∷ ms) = no_loads (put m (num.lit 0) acc) ms

module _ {F Sim : Type 0} ⦃num : Num F⦄ ⦃gld : Gridlab Sim⦄ where
  -- `powerMW[snode] += Pval`
  unfoldable pub add_load : Dict F → String → F → Exec (Area Sim) (Dict F)
  add_load power snode p = do
    old ← or_raise (get snode power) key_error
    pure (put snode (num.add old p) power)

  unfoldable pub sum_loads : Dict F → List String → Exec (Area Sim) (Dict F)
  sum_loads power [] = pure power
  sum_loads power (t ∷ ts) = do
    measured ← value_of t "measured_real_power"
    p ← convert_power_units measured "W" "MW"
    snode ← value_of t "supernode_name"
    power' ← add_load power snode p
    sum_loads power' ts

  unfoldable pub shunt_rows : Dict F → Exec (Area Sim) (List (ShuntRow F))
  shunt_rows [] = pure []
  shunt_rows ((mid, p) ∷ rest) = do
    bus ← bus_in mid
    rows ← shunt_rows rest
    pure (record { bus = bus; p = p } ∷ rows)

  unfoldable pub shunt_data : Exec (Area Sim) (List (ShuntRow F))
  shunt_data = do
    meters ← find "class=meter"
    tmeters ← find "class=triplex_meter"
    power ← sum_loads (no_loads [] meters) tmeters
    shunt_rows power

  gen_row : String → Exec (Area Sim) (GenRow F)
  gen_row gid = do
    bus ← bus_in gid
    rated ← value_of gid "rated_power"
    p_max ← convert_power_units rated "W" "MW"
    state ← value_of gid "generator_status"
    status ← or_raise (get state gen_status) key_error
    pure (record { bus = bus; p_min = num.lit 0; p_max = p_max; status = status; solar = 1 })

  unfoldable pub gen_rows : Dict (GenRow F) → List String → Exec (Area Sim) (Dict (GenRow F))
  unfolding gen_row
  gen_rows acc [] = pure acc
  gen_rows acc (gid ∷ gids) = do row ← gen_row gid; gen_rows (put gid row acc) gids

  bat_row : String → Exec (Area Sim) (BatRow F)
  bat_row bid = do
    bus ← bus_in bid
    item ← gets λ a. gld.get_object a.sim bid
    inv ← or_raise (get "parent" item) key_error
    rate ← value_of inv "max_charge_rate"
    p_max ← convert_power_units rate "W" "MW"
    charge ← value_of bid "state_of_charge"
    soc ← or_raise (num.float (split_first " " charge)) value_error
    capacity ← value_of bid "battery_capacity"
    e_max ← convert_power_units capacity "Wh" "MWh"
    state ← value_of bid "generator_status"
    status ← or_raise (get state gen_status) key_error
    pure (record { bus = bus; p_max = p_max; soc = soc; e_max = e_max; status = status })

  unfoldable pub bat_rows : Dict (BatRow F) → List String → Exec (Area Sim) (Dict (BatRow F))
  unfolding bat_row split_first
  bat_rows acc [] = pure acc
  bat_rows acc (bid ∷ bids) = do row ← bat_row bid; bat_rows (put bid row acc) bids

  -- the loop over the supernodes, which adds a generator at a swing bus
  unfoldable pub swing_rows : Dict (GenRow F) → List String → Exec (Area Sim) (Dict (GenRow F))
  swing_rows acc [] = pure acc
  swing_rows acc (sn ∷ sns) = do
    kind ← value_of sn "bustype"
    acc' ←
        if kind == "SWING"
        then (do bus ← bus_in sn; pure (put (str_append "swing_" sn) (swing_row bus) acc))
        else pure acc
    swing_rows acc' sns
