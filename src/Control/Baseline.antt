-- ===== src/Control/Baseline.antt =====
-- `get_island_baseline_data` and `update_flexible_load` (absorption.py). The two baseline CSV files
-- are arguments, none where there is no file; all columns of a file have one length. An island has a
-- node, so that the number of its houses is not 0.
use Prim.Native.String.{◌++◌ as str_append}
use grip_absorption_pipeline.Base.{
  ◌*◌, nat_eq, ◌==◌, String, Option, none, some, List, [], ◌∷◌, ◌&&◌, if◌then◌else◌,
}
use grip_absorption_pipeline.Base.Lists.{length}
use grip_absorption_pipeline.Base.Text.{split_first, contains_text, strip}
use grip_absorption_pipeline.Base.Decimal.{int_of, three_digits}
use grip_absorption_pipeline.Base.Dict.{Dict, get, put, contains}
use grip_absorption_pipeline.Base.Exec.{
  Exec, pure, gets, or_raise, modify, type_error, value_error, key_error, file_not_found, ◌>>=◌,
  ◌>>◌,
}
use grip_absorption_pipeline.Num.{Num}
use grip_absorption_pipeline.Gridlab.{Gridlab}
use grip_absorption_pipeline.Faults.{NodeDevices, Area, value_of, assign, find}
use grip_absorption_pipeline.ServerData.{bus_in}
use grip_absorption_pipeline.Network.Sets.{mem}
use grip_absorption_pipeline.Control.{Island, Frame, Control, in_area, put_for}
use grip_absorption_pipeline.Control.Manage.{island_str}

-- `island_loads`
pub record Sums (F : Type 0) : Type 0 where
  pub f_baseline : List F
  pub nf_baseline : List F

-- `'hvac_load_{:03d}[kW]'.format(n)` and the two like it, for the digits of a node
abbrev pub load_column : String → String → String
load_column kind n = str_append kind (str_append "_load_" (str_append n "[kW]"))

-- `'load_baseline-{}.csv'.format(island_str)` and the one like it
abbrev pub table_of : String → Island → String
table_of kind island =
    str_append kind (str_append "_baseline-" (str_append (island_str island) ".csv"))

-- `c.split(':')[0].strip(' ')`
unfoldable pub generator_of : String → String
unfolding strip split_first
generator_of c = strip " " (split_first ":" c)

module _ {F : Type 0} ⦃num : Num F⦄ where
  abbrev pub add_each : List F → List F → List F
  add_each [] ys = []
  add_each (x ∷ xs) [] = []
  add_each (x ∷ xs) (y ∷ ys) = num.add x y ∷ add_each xs ys

  abbrev pub sub_each : List F → List F → List F
  sub_each [] ys = []
  sub_each (x ∷ xs) [] = []
  sub_each (x ∷ xs) (y ∷ ys) = num.sub x y ∷ sub_each xs ys

  abbrev pub zeros : List String → List F
  zeros [] = []
  zeros (t ∷ ts) = num.lit 0 ∷ zeros ts

  abbrev pub no_sums : List String → Sums F
  no_sums index = record { f_baseline = zeros index; nf_baseline = zeros index }

module _ {Sim : Type 0} ⦃gld : Gridlab Sim⦄ where
  -- the inverters of an island with a text in their name
  unfoldable pub inverters_of : String → Island → List String → Exec (Area Sim) (List String)
  inverters_of part island [] = pure []
  inverters_of part island (b ∷ bs) = do
    name ← value_of b "supernode_name"
    number ← bus_in name
    rest ← inverters_of part island bs
    pure (if mem (int_of number) island && contains_text part b then b ∷ rest else rest)

  unfoldable pub free_batteries : List String → Exec (Area Sim) (Unit {0})
  free_batteries [] = pure tt
  free_batteries (b ∷ bs) =
      assign b "four_quadrant_control_mode" "CONSTANT_PQ"
      >> assign b "soc_reserve" "0.0"
      >> free_batteries bs

  unfoldable pub free_solar : List String → Exec (Area Sim) (Unit {0})
  free_solar [] = pure tt
  free_solar (s ∷ ss) = assign s "four_quadrant_control_mode" "CONSTANT_PQ" >> free_solar ss

  -- the end of the loop body of `get_island_baseline_data`
  unfoldable pub free_inverters : Island → Exec (Area Sim) (Unit {0})
  free_inverters island = do
    all ← find "class=inverter"
    batteries ← inverters_of "battery" island all
    free_batteries batteries
    again ← find "class=inverter"
    solar ← inverters_of "solar" island again
    free_solar solar

module _ {F Sim : Type 0} ⦃num : Num F⦄ ⦃gld : Gridlab Sim⦄ where
  -- the sums of the loop over the nodes of an island
  unfoldable pub add_node_loads : Dict (List F) → String → Sums F → Exec (Control F Sim) (Sums F)
  add_node_loads columns n acc = do
    hvac ← or_raise (get (load_column "hvac" n) columns) key_error
    wh ← or_raise (get (load_column "wh" n) columns) key_error
    total ← or_raise (get (load_column "total" n) columns) key_error
    pure (record {
      f_baseline = add_each (add_each acc.f_baseline hvac) wh;
      nf_baseline = add_each acc.nf_baseline total;
    })

  unfoldable pub island_sums : Dict (List F) → Island → Sums F → Exec (Control F Sim) (Sums F)
  island_sums columns [] acc = pure acc
  island_sums columns (n ∷ ns) acc = do
    acc' ←
        if contains (load_column "hvac" (three_digits n)) columns
        then add_node_loads columns (three_digits n) acc
        else pure acc
    island_sums columns ns acc'

  -- the solar generators of an island that are online
  unfoldable pub island_gens : Island → Dict (List F) → Exec (Area Sim) (Dict (List F))
  island_gens island [] = pure []
  island_gens island ((c, xs) ∷ columns) = do
    number ← bus_in c
    status ← value_of (generator_of c) "generator_status"
    rest ← island_gens island columns
    pure (if mem (int_of number) island && status == "ONLINE" then (c, xs) ∷ rest else rest)

  -- what is written for an island
  unfoldable pub write_tables :
      Island → Frame F → Sums F → Dict (List F) → Exec (Control F Sim) (Unit {0})
  write_tables island loads sums gens = do
    let both = ("f_baseline", sums.f_baseline) ∷ ("nf_baseline", sums.nf_baseline) ∷ []
    modify λ c. record c {
      tables =
          put (table_of "solar" island) (record loads { columns = gens })
            (put (table_of "load" island) (record loads { columns = both }) c.tables);
    }

  -- `island_gens.index = baseline_loads.timestamp`
  unfoldable pub check_index : Frame F → Frame F → Exec (Control F Sim) (Unit {0})
  check_index loads solar =
      or_raise (if nat_eq (length solar.labels) (length loads.labels) then some tt else none)
        value_error

  -- the part of the loop body before the inverters
  unfoldable pub baseline_of :
      Option (Frame F) → Option (Frame F) → Island → Exec (Control F Sim) (Unit {0})
  baseline_of loads_file solar_file island = do
    loads ← or_raise loads_file file_not_found
    or_raise (if loads.index_name == "timestamp" then some tt else none) key_error
    sums ← island_sums loads.columns island (no_sums loads.labels)
    modify λ c. record c {
      load_per_house =
          put_for island (num.div (num.np_mean sums.nf_baseline) (num.lit (length island * 60)))
            c.load_per_house;
    }
    solar ← or_raise solar_file file_not_found
    gens ← in_area (island_gens island solar.columns)
    check_index loads solar
    write_tables island loads
        (record sums { nf_baseline = sub_each sums.nf_baseline sums.f_baseline }) gens

  -- `get_island_baseline_data(islands)`
  unfoldable pub get_island_baseline_data :
      Option (Frame F) → Option (Frame F) → List Island → Exec (Control F Sim) (Unit {0})
  get_island_baseline_data loads_file solar_file [] = pure tt
  get_island_baseline_data loads_file solar_file (island ∷ islands) = do
    baseline_of loads_file solar_file island
    in_area (free_inverters island)
    get_island_baseline_data loads_file solar_file islands

  unfoldable pub add_loads : String → F → List String → Exec (Area Sim) F
  add_loads property acc [] = pure acc
  add_loads property acc (d ∷ ds) = do
    text ← value_of d property
    kw ← or_raise (num.float (split_first " " text)) value_error
    add_loads property (num.add acc kw) ds

module _ (F : Type 0) {Sim : Type 0} ⦃num : Num F⦄ ⦃gld : Gridlab Sim⦄ where
  -- the body of `update_flexible_load`
  unfoldable pub flexible_load : String → NodeDevices → Exec (Area Sim) (Unit {0})
  flexible_load node here = do
    heating ← add_loads {F = F} "hvac_load" (num.lit 0) here.houses
    both ← add_loads "actual_load" heating here.waterheaters
    assign node "flexible_load" (num.fixed1 both)

  unfoldable pub flexible_loads : Dict NodeDevices → Exec (Area Sim) (Unit {0})
  flexible_loads [] = pure tt
  flexible_loads ((node, here) ∷ rest) = flexible_load node here >> flexible_loads rest

  -- `update_flexible_load()`
  unfoldable pub update_flexible_load : Exec (Area Sim) (Unit {0})
  update_flexible_load = do
    known ← gets λ a. a.device_map
    device_map ← or_raise known type_error
    flexible_loads device_map
