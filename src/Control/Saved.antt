-- ===== src/Control/Saved.antt =====
-- `save_VB_data` (absorption.py): a row of virtual_battery_timeseries.csv.
use grip_absorption_pipeline.Base.{String, Option, none, some, List, [], ◌∷◌, ◌++◌, if◌then◌else◌}
use grip_absorption_pipeline.Base.Text.{contains_text, strip}
use grip_absorption_pipeline.Base.Dict.{values}
use grip_absorption_pipeline.Base.Exec.{
  Exec, pure, gets, or_raise, modify, key_error, value_error, attribute_error, ◌>>=◌,
}
use grip_absorption_pipeline.Num.{Num}
use grip_absorption_pipeline.Gridlab.{Gridlab}
use grip_absorption_pipeline.Packetized.World.{
  World, GldDevice, water_heater, hvac, object_at, soc_of,
}
use grip_absorption_pipeline.Packetized.Units.{convert_power_units}
use grip_absorption_pipeline.Packetized.Device.{VbDevice}
use grip_absorption_pipeline.Faults.{Area, value_of}
use grip_absorption_pipeline.Control.{
  Island, Control, BalanceEntry, complete, load_only, in_area, in_world, battery_of,
}

-- the devices with a text in their id
abbrev pub ids_with : {F : Type 0} → String → List (VbDevice F) → List String
ids_with part [] = []
ids_with part (d ∷ ds) =
    let rest = ids_with part ds in
    if contains_text part d.device_id then d.device_id ∷ rest else rest

abbrev pub all_ids : {F : Type 0} → List (VbDevice F) → List String
all_ids [] = []
all_ids (d ∷ ds) = d.device_id ∷ all_ids ds

module _ {F : Type 0} where
  abbrev pub temperature_of : GldDevice F → F
  temperature_of (water_heater d) = d.temperature
  temperature_of (hvac d) = d.temperature

  -- a water heater has no attribute `outsideT`
  abbrev pub outside_of : GldDevice F → Option F
  outside_of (water_heater d) = none
  outside_of (hvac d) = some d.outside_t

  -- `powerbal['VBload']`
  abbrev pub load_of : BalanceEntry F → Option F
  load_of (complete p) = some p.vb_load
  load_of (load_only o) = o

  abbrev pub socs : List (GldDevice F) → List F
  socs [] = []
  socs (g ∷ gs) = soc_of g ∷ socs gs

  abbrev pub temperatures : List (GldDevice F) → List F
  temperatures [] = []
  temperatures (g ∷ gs) = temperature_of g ∷ temperatures gs

module _ {F : Type 0} ⦃num : Num F⦄ where
  -- `powerbal.get('nfload',0)`
  abbrev pub nfload_of : BalanceEntry F → F
  nfload_of (complete p) = p.nfload
  nfload_of (load_only o) = num.lit 0

module _ {F Sim : Type 0} ⦃num : Num F⦄ ⦃gld : Gridlab Sim⦄ where
  unfoldable pub objects_of : List String → Exec (World F Sim) (List (GldDevice F))
  objects_of [] = pure []
  objects_of (id ∷ ids) = do g ← object_at id; gs ← objects_of ids; pure (g ∷ gs)

  unfoldable pub outsides : List (GldDevice F) → Exec (World F Sim) (List F)
  outsides [] = pure []
  outsides (g ∷ gs) = do
    t ← or_raise (outside_of g) attribute_error
    ts ← outsides gs
    pure (t ∷ ts)

  unfoldable pub kws_of : String → List String → Exec (Area Sim) (List F)
  kws_of property [] = pure []
  kws_of property (d ∷ ds) = do
    text ← value_of d property
    kw ← convert_power_units text "kW" "kW"
    kws ← kws_of property ds
    pure (kw ∷ kws)

  unfoldable pub demands : List String → Exec (Area Sim) (List F)
  unfolding strip
  demands [] = pure []
  demands (d ∷ ds) = do
    text ← value_of d "water_demand"
    demand ← or_raise (num.float (strip " gmp" text)) value_error
    rest ← demands ds
    pure (demand ∷ rest)

  -- `save_VB_data(powerbal,island)`
  unfoldable pub save_vb_data : BalanceEntry F → Island → Exec (Control F Sim) (Unit {0})
  save_vb_data entry island = do
    vb ← battery_of island
    let devices = values vb.devices
    let houses = ids_with "house" devices
    let whs = ids_with "waterheater" devices
    wh_loads ← in_area (kws_of "actual_load" whs)
    hvac_loads ← in_area (kws_of "hvac_load" houses)
    wh_demands ← in_area (demands whs)
    clock ← gets λ c. gld.get_global c.world.sim "clock"
    every ← in_world (objects_of (all_ids devices))
    load ← or_raise (load_of entry) key_error
    rooms ← in_world (objects_of houses)
    tanks ← in_world (objects_of whs)
    outside ← in_world (outsides rooms)
    let numbers =
        vb.soc
        ∷ num.np_mean (socs every)
        ∷ load
        ∷ vb.setpoint
        ∷ num.np_mean (socs rooms)
        ∷ num.np_mean (socs tanks)
        ∷ num.np_mean (temperatures rooms)
        ∷ num.np_mean (temperatures tanks)
        ∷ num.np_mean outside
        ∷ num.np_sum hvac_loads
        ∷ num.np_sum wh_loads
        ∷ num.np_sum wh_demands
        ∷ num.round2 (nfload_of entry)
        ∷ []
    modify λ c. record c { vb_rows = c.vb_rows ++ (clock, numbers) ∷ [] }

  -- `if vb_data_out: save_VB_data(powerbal,island)`
  unfoldable pub save_if_asked : BalanceEntry F → Island → Exec (Control F Sim) (Unit {0})
  save_if_asked entry island = do
    asked ← gets λ c. c.vb_data_out
    if asked then save_vb_data entry island else pure tt
