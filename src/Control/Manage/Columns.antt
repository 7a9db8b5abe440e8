-- ===== src/Control/Manage/Columns.antt =====
-- The loops of `island_management` (absorption.py), over the islands and over the columns of the
-- server's answer. A column is a number; the server answers none where the call fails.
use grip_absorption_pipeline.Base.{
  ℕ, ◌-◌, String, Option, List, [], ◌∷◌, ◌++◌, reverse, nat_eq, if◌then◌else◌,
}
use grip_absorption_pipeline.Base.Text.{contains_text}
use grip_absorption_pipeline.Base.Dict.{Dict, get, keys}
use grip_absorption_pipeline.Base.Exec.{
  Exec, pure, gets, or_raise, modify, type_error, key_error, attribute_error, runtime_error, ◌>>=◌,
  ◌>>◌,
}
use grip_absorption_pipeline.Num.{Num}
use grip_absorption_pipeline.Gridlab.{Gridlab}
use grip_absorption_pipeline.Packetized.Device.{PowerRequest}
use grip_absorption_pipeline.Packetized.Island.{packetize_island}
use grip_absorption_pipeline.ServerData.Buses.{sorted}
use grip_absorption_pipeline.Balance.{PowerBalance, check_power_balance}
use grip_absorption_pipeline.Control.{
  Island, Control, complete, in_area, in_world, battery_of, put_battery, put_for,
}
use grip_absorption_pipeline.Control.Saved.{save_if_asked}
use grip_absorption_pipeline.Control.Manage.{get_island_management_data, take_solar, take_battery}
use grip_absorption_pipeline.Control.Manage.Shed.{take_shed}

-- what `random.shuffle` does to the requests of a round and to the batteries
pub record Shuffles (F : Type 0) : Type 0 where
  pub requests : List (PowerRequest F) → List (PowerRequest F)
  pub inverters : List String → List String

-- `Pbal` before the columns
abbrev pub opening : {F : Type 0} ⦃num : Num F⦄ → F → PowerBalance F
opening {F} ⦃num⦄ nfload = record {
  nfload = nfload;
  vb_load = num.lit 0;
  batt_p = [];
  solar_p = num.lit 0;
}

module _ {F Sim : Type 0} ⦃num : Num F⦄ ⦃gld : Gridlab Sim⦄ where
  -- `packetize_island(t,island)`: a round of the battery of the island
  unfoldable pub packetize : Shuffles F → ℕ → Island → Exec (Control F Sim) F
  packetize sh t island = do
    vb ← battery_of island
    start ← gets λ c. c.t_start
    (vb', load) ← in_world (packetize_island sh.requests vb (t - start))
    put_battery island vb'
    pure load

  unfoldable pub take_setpoint :
      Shuffles F → ℕ → Island → F → PowerBalance F → Exec (Control F Sim) (PowerBalance F)
  take_setpoint sh t island value p = do
    vb ← battery_of island
    put_battery island (record vb { setpoint = value })
    load ← packetize sh t island
    pure (record p { vb_load = load })

  -- one column
  unfoldable pub take_column :
      Shuffles F
      → ℕ
      → Island
      → Dict F
      → String
      → F
      → PowerBalance F
      → Exec (Control F Sim) (PowerBalance F)
  take_column sh t island results c value p =
      if contains_text "solar" c
      then take_solar c value p
      else if contains_text "shed" c
      then take_shed island t results value p
      else if contains_text "i_" c
      then take_setpoint sh t island value p
      else if contains_text "battery" c
      then take_battery c value p
      else pure p

  unfoldable pub take_columns :
      Shuffles F
      → ℕ
      → Island
      → Dict F
      → List String
      → PowerBalance F
      → Exec (Control F Sim) (PowerBalance F)
  take_columns sh t island results [] p = pure p
  take_columns sh t island results (c ∷ cs) p = do
    value ← or_raise (get c results) key_error
    p' ← take_column sh t island results c value p
    take_columns sh t island results cs p'

  -- the body of the loop over the islands
  unfoldable pub manage_island :
      (Dict String → Option (Dict F)) → Shuffles F → ℕ → Island → Exec (Control F Sim) (Unit {0})
  manage_island server sh t island = do
    island_data ← get_island_management_data island
    start ← gets λ c. c.t_start
    let test_out = if nat_eq t start then "1" else "0"
    results ← or_raise (server (island_data ++ ("test_out", test_out) ∷ [])) runtime_error
    nfload ← or_raise (get "nfload" results) attribute_error
    p ← take_columns sh t island results (reverse (sorted (keys results))) (opening nfload)
    p' ← in_area (check_power_balance sh.inverters p)
    modify λ c. record c { powerbal = put_for island (complete p') c.powerbal }
    save_if_asked (complete p') island

  unfoldable pub manage_islands :
      (Dict String → Option (Dict F))
      → Shuffles F
      → ℕ
      → List Island
      → Exec (Control F Sim) (Unit {0})
  manage_islands server sh t [] = pure tt
  manage_islands server sh t (island ∷ islands) =
      manage_island server sh t island >> manage_islands server sh t islands

  -- `island_management(t)`, whose result is the global that it is assigned to
  unfoldable pub island_management :
      (Dict String → Option (Dict F)) → Shuffles F → ℕ → Exec (Control F Sim) (Unit {0})
  island_management server sh t = do
    known ← gets λ c. c.islands
    islands ← or_raise known type_error
    manage_islands server sh t islands
