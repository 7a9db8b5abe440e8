-- ===== src/Control/Commit.antt =====
-- `on_commit` (absorption.py). No call has a time before t_start.
pub mod Stale
pub mod Idle
pub mod Rows
use Prim.Native.Nat.{◌%◌}
use grip_absorption_pipeline.Base.{
  ℕ, zero, suc, ◌-◌, ◌*◌, String, Bool, true, false, not, Option, none, some, List, [], ◌∷◌, ◌++◌,
  nat_eq, ltb, leb, ◌||◌, ◌&&◌, ◌==◌, if◌then◌else◌,
}
use grip_absorption_pipeline.Base.Lists.{length}
use grip_absorption_pipeline.Base.Text.{split_first, contains_text, drop_last}
use grip_absorption_pipeline.Base.Decimal.{int_of}
use grip_absorption_pipeline.Base.Dict.{Dict, keys, listed}
use grip_absorption_pipeline.Base.Exec.{
  Error, Exec, pure, raise, gets, or_raise, modify, type_error, key_error, value_error, index_error,
  attribute_error, ◌>>=◌, ◌>>◌,
}
use grip_absorption_pipeline.Num.{Num}
use grip_absorption_pipeline.Gridlab.{Gridlab}
use grip_absorption_pipeline.Faults.{
  NodeDevices, Area, value_of, assign, find, new_fault_detected, toggle_switches,
}
use grip_absorption_pipeline.Faults.Mapping.{temp_control_absorption}
use grip_absorption_pipeline.Faults.Downstream.{shutoff_noislanding}
use grip_absorption_pipeline.ServerData.{bus_in}
use grip_absorption_pipeline.Network.Sets.{mem}
use grip_absorption_pipeline.Balance.{PowerBalance, check_power_balance}
use grip_absorption_pipeline.Control.{
  Island, PerIsland, Frame, BalanceEntry, complete, load_only, Control, island_eq, in_area,
  battery_of, put_battery, get_for, put_for,
}
use grip_absorption_pipeline.Base.Nodes.{bus_number}
use grip_absorption_pipeline.Control.Saved.{save_vb_data, save_if_asked}
use grip_absorption_pipeline.Control.Houses.{initialize_devices, set_device_map, update_vb, or_none}
use grip_absorption_pipeline.Control.Baseline.{get_island_baseline_data, update_flexible_load}
use grip_absorption_pipeline.Control.Islands.{ServerRow, islanding, process_islands}
use grip_absorption_pipeline.Control.Manage.Columns.{Shuffles, packetize, island_management}
use grip_absorption_pipeline.Control.Rounds.{packetize_all, set_batteries}
use grip_absorption_pipeline.Control.Tracking.{
  begin_baseline, repeat_baseline, test_vb_setpoint_tracking,
}

-- `i != j`, of the lists of islands; before the first fault there is none
abbrev pub islands_eq : List Island → List Island → Bool
islands_eq [] [] = true
islands_eq [] (j ∷ js) = false
islands_eq (i ∷ is) [] = false
islands_eq (i ∷ is) (j ∷ js) = island_eq i j && islands_eq is js

abbrev pub are_new : List Island → Option (List Island) → Bool
are_new new none = true
are_new new (some old) = not (islands_eq new old)

-- what on_commit uses and this model does not describe
pub record Outside (F : Type 0) : Type 0 where
  -- the answers of the optimisation server
  pub switches : Dict String → Option (List ServerRow)
  pub managed : Dict String → Option (Dict F)
  pub shuffles : Shuffles F
  -- `set.pop` in the search for components
  pub pick : ℕ → List ℕ → ℕ
  -- Loads_baseline.csv and Ps_baseline.csv
  pub loads_file : Option (Frame F)
  pub solar_file : Option (Frame F)
  -- `pd.Timestamp(text).hour`
  pub hour : String → Option ℕ
  -- a bound on the walk of shutoff_noislanding
  pub fuel : ℕ

-- `not Virtual_Battery`
abbrev pub no_battery : {A : Type 0} → Option (PerIsland A) → Bool
no_battery none = true
no_battery (some []) = true
no_battery (some (b ∷ bs)) = false

abbrev pub has_devices : {F Sim : Type 0} → Control F Sim → Bool
has_devices c = ltb 0 (length c.islanded_devices) && c.islanded

module _ {Sim : Type 0} ⦃gld : Gridlab Sim⦄ where
  -- the switches around the faulted nodes
  unfoldable pub isolating : ℕ → List String → Exec (Area Sim) (List String)
  isolating fuel [] = pure []
  isolating fuel (n ∷ ns) = do
    switches ← shutoff_noislanding fuel n
    more ← isolating fuel ns
    pure (switches ++ more)

  -- the branch for a fault, without Absorption
  unfoldable pub isolate_faults : ℕ → Exec (Area Sim) (Unit {0})
  isolate_faults fuel = do
    faulted ← gets λ a. a.faulted_nodes
    switches ← isolating fuel faulted
    toggle_switches switches

  -- `clock` and a variable, without their last six characters
  abbrev pub clock_is : String → Sim → Bool
  clock_is variable sim =
      drop_last 6 (gld.get_global sim "clock") == drop_last 6 (gld.get_global sim variable)

module _ {F Sim : Type 0} ⦃num : Num F⦄ ⦃gld : Gridlab Sim⦄ where
  -- the houses that no island has
  unfoldable pub full_control : List String → Exec (Control F Sim) (Unit {0})
  full_control [] = pure tt
  full_control (h ∷ hs) = do
    mine ← gets λ c. listed h c.islanded_devices
    if mine then pure tt else in_area (temp_control_absorption h)
    full_control hs

  -- the branch of on_commit for a fault, with Absorption and Islanding
  unfoldable pub form_islands : Outside F → Exec (Control F Sim) (Unit {0})
  form_islands out = do
    faulted ← gets λ c. c.faulted_nodes
    results ← islanding out.switches faulted
    new_islands ← process_islands out.pick results
    modify λ c. record c {
      re_island = are_new new_islands c.islands;
      islands = some new_islands;
      islanded = true;
    }
    restarted ← gets λ c. no_battery c.batteries && c.re_island && c.packetizing
    if restarted then set_batteries new_islands else pure tt
    houses ← in_area (find "class=house")
    full_control houses

  -- the start of on_commit
  unfoldable pub at_start : ℕ → Exec (Control F Sim) (Unit {0})
  at_start t = do
    start ← gets λ c. c.t_start
    on ← gets λ c. c.packetizing && c.absorption_on
    if nat_eq (t - start) 0 then (if on then initialize_devices t else set_device_map) else pure tt

  -- what a new fault leads to
  unfoldable pub answer_fault : Outside F → Bool → Exec (Control F Sim) (Unit {0})
  answer_fault out false = pure tt
  answer_fault out true = do
    absorbing ← gets λ c. c.absorption_on
    islanding_set ← gets λ c. c.islanding_on
    if absorbing
        then (if islanding_set then form_islands out else pure tt)
        else in_area (isolate_faults out.fuel)

  unfoldable pub renew_batteries : Outside F → Exec (Control F Sim) (Unit {0})
  renew_batteries out = do
    again ← gets λ c. c.re_island
    if again
        then (do
          known ← gets λ c. c.islands
          islands ← or_raise known type_error
          set_batteries islands
          get_island_baseline_data out.loads_file out.solar_file islands
          modify λ c. record c { re_island = false })
        else pure tt

  unfoldable pub between : Outside F → ℕ → Exec (Control F Sim) (Unit {0})
  between out t = do
    known ← gets λ c. c.islands
    islands ← or_raise known type_error
    packetize_all out.shuffles t islands

  unfoldable pub run_baseline : Outside F → ℕ → Exec (Control F Sim) (Unit {0})
  run_baseline out t = do
    asked ← gets λ c. c.packetize_baseline
    first ← gets λ c. no_battery c.batteries
    if first && asked
        then begin_baseline out.shuffles t
        else if asked
        then repeat_baseline out.shuffles t
        else pure tt

  unfoldable pub manage : Outside F → ℕ → Exec (Control F Sim) (Unit {0})
  manage out t = do
    due ← gets λ c. nat_eq (((t - c.t_start) % 180)) 0
    active ← gets has_devices
    over ← gets λ c. clock_is "STOPTIME" c.world.sim
    if due && active && not over
        then island_management out.managed out.shuffles t
        else if active
        then between out t
        else run_baseline out t
    testing ← gets λ c. c.test_setpoint
    if testing then test_vb_setpoint_tracking out.shuffles out.hour t else pure tt

  -- the part of on_commit under `if Absorption`
  unfoldable pub absorb_islands : Outside F → ℕ → Exec (Control F Sim) (Unit {0})
  absorb_islands out t = do
    renew_batteries out
    on ← gets λ c. c.packetizing
    if on then manage out t else pure tt

  -- `on_commit(t)`
  unfoldable pub commit : Outside F → ℕ → Exec (Control F Sim) (Unit {0})
  commit out t = do
    at_start t
    faulty ← in_area new_fault_detected
    answer_fault out faulty
    absorbing ← gets λ c. c.absorption_on
    if absorbing then absorb_islands out t else pure tt
    over ← gets λ c. clock_is "stoptime" c.world.sim
    if over then in_area (update_flexible_load F) else pure tt
