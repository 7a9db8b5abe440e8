-- ===== src/Control/Commit/Rows.antt =====
-- The rows that `save_VB_data` (absorption.py) appends to virtual_battery_timeseries.csv over a call of
-- `on_commit`: as many numbers as the header in its comment names.
pub mod Whole
pub mod Table
use grip_absorption_pipeline.Base.{
  ℕ, String, Bool, true, false, Option, none, some, List, [], ◌∷◌, ◌++◌, ◌≡◌, refl,
}
use grip_absorption_pipeline.Base.Lists.{length, All, All-append}
use grip_absorption_pipeline.Base.Dict.{Dict, get}
use grip_absorption_pipeline.Base.Exec.{
  Error, Exec, modify, pure, gets, or_raise, type_error, key_error, ◌>>=◌, ◌>>◌,
}
use grip_absorption_pipeline.Base.Keeps.{
  Keeps, keeps_rules, modify-Keeps, bind-Keeps, pure-Keeps, gets-Keeps, or_raise-Keeps, if-Keeps,
}
use grip_absorption_pipeline.Num.{Num}
use grip_absorption_pipeline.Gridlab.{Gridlab}
use grip_absorption_pipeline.Packetized.World.{World}
use grip_absorption_pipeline.Packetized.Device.{VbDevice}
use grip_absorption_pipeline.Packetized.Battery.{VirtualBattery}
use grip_absorption_pipeline.Faults.{NodeDevices, Area}
use grip_absorption_pipeline.Balance.{PowerBalance}
use grip_absorption_pipeline.Base.Nodes.{bus_number}
use grip_absorption_pipeline.Control.{
  Island, PerIsland, Frame, BalanceEntry, VbRow, Control, in_area, in_world,
}
use grip_absorption_pipeline.Control.Houses
use grip_absorption_pipeline.Control.Saved.{save_vb_data, save_if_asked}
use grip_absorption_pipeline.Control.Manage.Columns.{Shuffles, packetize}
use grip_absorption_pipeline.Control.Rounds.{
  set_batteries, packetize_one, packetize_all, packetize_only, save_entry, save_entry_if_asked,
  set_setpoint,
}
use grip_absorption_pipeline.Control.Tracking.{
  node_names, begin_baseline, repeat_baseline, bus_numbers, track_setpoint,
  test_vb_setpoint_tracking,
}

-- thirteen numbers after the clock
abbrev pub IsRow : {F : Type 0} → VbRow F → Type 0
IsRow row = length row.1 ≡ 13

abbrev pub HasRows : {F Sim : Type 0} → Control F Sim → Type 0
HasRows c = All IsRow c.vb_rows

module _ {F Sim : Type 0} ⦃num : Num F⦄ ⦃gld : Gridlab Sim⦄ where
  abbrev Kept : {A : Type 0} → Exec (Control F Sim) A → Type 0
  Kept m = Keeps HasRows m

  pub in_area-Keeps : {A : Type 0} (m : Exec (Area Sim) A) → Kept (in_area m)
  in_area-Keeps m = record { at = λ s h. h }

  pub in_world-Keeps : {A : Type 0} (m : Exec (World F Sim) A) → Kept (in_world m)
  in_world-Keeps m = record { at = λ s h. h }

  row-Keeps :
      (clock : String) (x0 x1 x2 x3 x4 x5 x6 x7 x8 x9 x10 x11 x12 : F)
      → Kept (
          modify λ c. record c {
            vb_rows =
                c.vb_rows
                ++ (clock, x0 ∷ x1 ∷ x2 ∷ x3 ∷ x4 ∷ x5 ∷ x6 ∷ x7 ∷ x8 ∷ x9 ∷ x10 ∷ x11 ∷ x12 ∷ [])
                  ∷ [];
          })
  row-Keeps clock x0 x1 x2 x3 x4 x5 x6 x7 x8 x9 x10 x11 x12 =
      modify-Keeps _ λ c h. All-append IsRow c.vb_rows _ h (refl, tt)

  save_vb_data-Keeps : (p : BalanceEntry F) (island : Island) → Kept (save_vb_data p island)
  unfolding save_vb_data
  save_vb_data-Keeps p island =
      search (keeps_rules, in_area-Keeps, in_world-Keeps, row-Keeps) depth 60

  pub save_if_asked-Keeps : (p : BalanceEntry F) (island : Island) → Kept (save_if_asked p island)
  unfolding save_if_asked
  save_if_asked-Keeps p island = search (keeps_rules, save_vb_data-Keeps)

  pub packetize-Keeps : (sh : Shuffles F) (t : ℕ) (island : Island) → Kept (packetize sh t island)
  unfolding packetize
  packetize-Keeps sh t island = search (keeps_rules, in_world-Keeps) depth 20

  packetize_one-Keeps :
      (sh : Shuffles F) (t : ℕ) (island : Island) → Kept (packetize_one sh t island)
  unfolding packetize_one
  packetize_one-Keeps sh t island =
      search (keeps_rules, packetize-Keeps, in_area-Keeps, save_if_asked-Keeps) depth 40

  pub packetize_all-Keeps :
      (sh : Shuffles F) (t : ℕ) (islands : List Island) → Kept (packetize_all sh t islands)
  unfolding packetize_all
  packetize_all-Keeps sh t [] = pure-Keeps tt
  packetize_all-Keeps sh t (island ∷ islands) =
      bind-Keeps _ _ (packetize_one-Keeps sh t island) (λ u. packetize_all-Keeps sh t islands)

  packetize_only-Keeps :
      (sh : Shuffles F) (t : ℕ) (island : Island) → Kept (packetize_only sh t island)
  unfolding packetize_only
  packetize_only-Keeps sh t island = search (keeps_rules, packetize-Keeps) depth 20

  save_entry-Keeps : (island : Island) → Kept (save_entry {Sim = Sim} island)
  unfolding save_entry
  save_entry-Keeps island = search (keeps_rules, save_vb_data-Keeps) depth 20

  save_entry_if_asked-Keeps : (island : Island) → Kept (save_entry_if_asked {Sim = Sim} island)
  unfolding save_entry_if_asked
  save_entry_if_asked-Keeps island = search (keeps_rules, save_entry-Keeps)

  pub set_device_map-Keeps : Kept Houses.set_device_map
  unfolding Houses.set_device_map
  set_device_map-Keeps = search (keeps_rules, in_area-Keeps)

  pub devices_on-Keeps : (node : String) → Kept (Houses.devices_on node)
  unfolding Houses.devices_on
  devices_on-Keeps node = search keeps_rules depth 20

  gather-Keeps : (island : Island) (acc : NodeDevices) → Kept (Houses.gather acc island)
  unfolding Houses.gather
  gather-Keeps [] acc = pure-Keeps acc
  gather-Keeps (node ∷ nodes) acc =
      bind-Keeps _ _ (devices_on-Keeps _) (λ here. gather-Keeps nodes _)

  known_devices-Keeps : (ids : List String) → Kept (Houses.known_devices ids)
  unfolding Houses.known_devices
  known_devices-Keeps [] = pure-Keeps []
  known_devices-Keeps (id ∷ ids) = bind-Keeps (gets (λ c. c.all_devices)) _ (gets-Keeps _) (λ known.
      bind-Keeps (or_raise known type_error) _ (or_raise-Keeps _ _) (λ all.
        bind-Keeps (or_raise (get id all) key_error) _ (or_raise-Keeps _ _) (λ d.
          bind-Keeps (Houses.known_devices ids) _ (known_devices-Keeps ids)
            (λ ds. pure-Keeps (d ∷ ds)))))

  island_batteries-Keeps :
      (islands : List Island) (acc : PerIsland (VirtualBattery F))
      → Kept (Houses.island_batteries acc islands)
  unfolding Houses.island_batteries
  island_batteries-Keeps [] acc = pure-Keeps acc
  island_batteries-Keeps (island ∷ islands) acc =
      let rest : (acc : PerIsland (VirtualBattery F)) → Kept (Houses.island_batteries acc islands) =
        island_batteries-Keeps islands in
      search (keeps_rules, gather-Keeps, known_devices-Keeps, in_world-Keeps, rest) depth 40

  update_vb-Keeps : (islands : List Island) → Kept (Houses.update_vb islands)
  unfolding Houses.update_vb
  update_vb-Keeps islands =
      search (keeps_rules, set_device_map-Keeps, island_batteries-Keeps) depth 20

  pub set_batteries-Keeps :
      (islands : List Island) → Kept (set_batteries {F = F} {Sim = Sim} islands)
  set_batteries-Keeps islands = search (keeps_rules, update_vb-Keeps) depth 20

  node_names-Keeps : (e : Error) → Kept (node_names {F = F} {Sim = Sim} e)
  unfolding node_names
  node_names-Keeps e = search keeps_rules depth 20

  bus_number-Keeps : (n : String) → Kept (bus_number n)
  unfolding bus_number
  bus_number-Keeps n = search keeps_rules depth 20

  bus_numbers-Keeps : (ns : List String) → Kept (bus_numbers {F = F} {Sim = Sim} ns)
  unfolding bus_numbers
  bus_numbers-Keeps [] = pure-Keeps []
  bus_numbers-Keeps (n ∷ ns) = bind-Keeps (bus_number n) _ (bus_number-Keeps n) (λ number.
      bind-Keeps (bus_numbers ns) _ (bus_numbers-Keeps ns)
        (λ numbers. pure-Keeps (number ∷ numbers)))

  pub begin_baseline-Keeps : (sh : Shuffles F) (t : ℕ) → Kept (begin_baseline sh t)
  unfolding begin_baseline
  begin_baseline-Keeps sh t =
      search
        (
          keeps_rules, node_names-Keeps, in_area-Keeps, set_batteries-Keeps, packetize_only-Keeps,
          save_entry_if_asked-Keeps,
        )
        depth 40

  set_setpoint-Keeps : (island : Island) (x : F) → Kept (set_setpoint {F = F} {Sim = Sim} island x)
  set_setpoint-Keeps island x = search keeps_rules depth 40

  pub repeat_baseline-Keeps : (sh : Shuffles F) (t : ℕ) → Kept (repeat_baseline sh t)
  unfolding repeat_baseline
  repeat_baseline-Keeps sh t =
      search (keeps_rules, set_setpoint-Keeps, packetize_only-Keeps, save_entry_if_asked-Keeps)
        depth 40

  track_setpoint-Keeps :
      (sh : Shuffles F) (hour : String → Option ℕ) (t : ℕ) (island : Island)
      → Kept (track_setpoint sh hour t island)
  unfolding track_setpoint
  track_setpoint-Keeps sh hour t island =
      search (keeps_rules, set_setpoint-Keeps, packetize_only-Keeps) depth 40

  pub test_vb_setpoint_tracking-Keeps :
      (sh : Shuffles F) (hour : String → Option ℕ) (t : ℕ)
      → Kept (test_vb_setpoint_tracking sh hour t)
  unfolding test_vb_setpoint_tracking
  test_vb_setpoint_tracking-Keeps sh hour t =
      search
        (
          keeps_rules, node_names-Keeps, bus_numbers-Keeps, set_batteries-Keeps, set_setpoint-Keeps,
          track_setpoint-Keeps, save_entry-Keeps,
        )
        depth 60
