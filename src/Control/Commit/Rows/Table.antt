-- ===== src/Control/Commit/Rows/Table.antt =====
-- The rows of virtual_battery_timeseries.csv over the baseline data and the whole of `on_commit`
-- (absorption.py).
use grip_absorption_pipeline.Base.{ℕ, String, Bool, true, false, Option, List, [], ◌∷◌}
use grip_absorption_pipeline.Base.Lists.{All}
use grip_absorption_pipeline.Base.Decimal.{first_digits, three_digits, int_of}
use grip_absorption_pipeline.Network.Sets.{mem}
use grip_absorption_pipeline.Faults.{assign}
use grip_absorption_pipeline.Faults.Mapping.{temp_control_absorption}
use grip_absorption_pipeline.Base.Dict.{Dict, listed}
use grip_absorption_pipeline.Base.Exec.{Exec, Result, gets, lift, or_raise, attribute_error}
use grip_absorption_pipeline.Base.Keeps.{
  Keeps, keeps_rules, bind-Keeps, pure-Keeps, gets-Keeps, or_raise-Keeps, if-Keeps,
}
use grip_absorption_pipeline.Num.{Num}
use grip_absorption_pipeline.Gridlab.{Gridlab}
use grip_absorption_pipeline.Control.{Island, Frame, Control, in_area}
use grip_absorption_pipeline.Control.Houses
use grip_absorption_pipeline.Control.Islands
use grip_absorption_pipeline.Control.Islands.{ServerRow}
use grip_absorption_pipeline.Control.Baseline
use grip_absorption_pipeline.Control.Baseline.{Sums}
use grip_absorption_pipeline.Control.Commit.{
  Outside, full_control, form_islands, at_start, answer_fault, renew_batteries, between,
  run_baseline, manage, absorb_islands, commit,
}
use grip_absorption_pipeline.Control.Commit.Rows.{
  IsRow, HasRows, in_area-Keeps, in_world-Keeps, packetize_all-Keeps, set_device_map-Keeps,
  set_batteries-Keeps, begin_baseline-Keeps, repeat_baseline-Keeps, test_vb_setpoint_tracking-Keeps,
}
use grip_absorption_pipeline.Control.Commit.Rows.Whole.{island_management-Keeps}

module _ {F Sim : Type 0} ⦃num : Num F⦄ ⦃gld : Gridlab Sim⦄ where
  abbrev Kept : {A : Type 0} → Exec (Control F Sim) A → Type 0
  Kept m = Keeps HasRows m

  lift-Keeps : {A : Type 0} (r : Result A) → Kept (lift r)
  lift-Keeps r = record { at = λ s h. h }

  add_node_loads-Keeps :
      (columns : Dict (List F)) (n : String) (acc : Sums F)
      → Kept (Baseline.add_node_loads columns n acc)
  unfolding Baseline.add_node_loads
  add_node_loads-Keeps columns n acc = search keeps_rules depth 20

  island_sums-Keeps :
      (columns : Dict (List F)) (island : Island) (acc : Sums F)
      → Kept (Baseline.island_sums columns island acc)
  unfolding Baseline.island_sums
  island_sums-Keeps columns [] acc = pure-Keeps acc
  island_sums-Keeps columns (n ∷ ns) acc =
      bind-Keeps _ _
        (if-Keeps _ _ _ (add_node_loads-Keeps columns (three_digits n) acc) (pure-Keeps acc))
        (λ acc'. island_sums-Keeps columns ns acc')

  baseline_of-Keeps :
      (loads solar : Option (Frame F)) (island : Island)
      → Kept (Baseline.baseline_of loads solar island)
  unfolding Baseline.baseline_of Baseline.check_index Baseline.write_tables
  baseline_of-Keeps loads solar island =
      search (keeps_rules, island_sums-Keeps, in_area-Keeps) depth 60

  get_island_baseline_data-Keeps :
      (loads solar : Option (Frame F)) (islands : List Island)
      → Kept (Baseline.get_island_baseline_data loads solar islands)
  unfolding Baseline.get_island_baseline_data
  get_island_baseline_data-Keeps loads solar [] = pure-Keeps tt
  get_island_baseline_data-Keeps loads solar (island ∷ islands) =
      bind-Keeps _ _ (baseline_of-Keeps loads solar island) (λ u.
        bind-Keeps (in_area (Baseline.free_inverters island)) _
          (in_area-Keeps (Baseline.free_inverters island))
          (λ v. get_island_baseline_data-Keeps loads solar islands))

  islanding-Keeps :
      (server : Dict String → Option (List ServerRow)) (faulted : List String)
      → Kept (Islands.islanding server faulted)
  unfolding Islands.islanding
  islanding-Keeps server faulted = search (keeps_rules, in_area-Keeps) depth 40

  mark_inverters-Keeps :
      (island : Island) (is : List String) → Kept (Islands.mark_inverters island is)
  unfolding Islands.mark_inverters
  mark_inverters-Keeps island [] = pure-Keeps tt
  mark_inverters-Keeps island (i ∷ is) =
      bind-Keeps (or_raise (first_digits i) attribute_error) _ (or_raise-Keeps _ _) (λ number.
        bind-Keeps _ _
          (if-Keeps (mem (int_of number) island) _ _
            (in_area-Keeps (assign i "islanded_state" "TRUE")) (pure-Keeps tt))
          (λ u. mark_inverters-Keeps island is))

  mark_islands-Keeps :
      (inverters : List String) (islands : List Island)
      → Kept (Islands.mark_islands inverters islands)
  unfolding Islands.mark_islands
  mark_islands-Keeps inverters [] = pure-Keeps tt
  mark_islands-Keeps inverters (island ∷ islands) =
      bind-Keeps (gets (λ c. c.swing_sn)) _ (gets-Keeps _) (λ swing_sn.
        bind-Keeps _ _ (if-Keeps _ _ _ (pure-Keeps tt) (mark_inverters-Keeps island inverters))
          (λ u. mark_islands-Keeps inverters islands))

  process_islands-Keeps :
      (pick : ℕ → List ℕ → ℕ) (rows : List ServerRow) → Kept (Islands.process_islands pick rows)
  unfolding Islands.process_islands
  process_islands-Keeps pick rows =
      search (keeps_rules, in_area-Keeps, lift-Keeps, mark_islands-Keeps) depth 40

  full_control-Keeps : (hs : List String) → Kept (full_control hs)
  unfolding full_control
  full_control-Keeps [] = pure-Keeps tt
  full_control-Keeps (h ∷ hs) =
      bind-Keeps (gets (λ c. listed h c.islanded_devices)) _ (gets-Keeps _) (λ mine.
        bind-Keeps _ _
          (if-Keeps mine _ _ (pure-Keeps tt) (in_area-Keeps (temp_control_absorption h)))
          (λ u. full_control-Keeps hs))

  form_islands-Keeps : (out : Outside F) → Kept (form_islands out)
  unfolding form_islands
  form_islands-Keeps out =
      search
        (
          keeps_rules, islanding-Keeps, process_islands-Keeps, set_batteries-Keeps, in_area-Keeps,
          full_control-Keeps,
        )
        depth 40

  initialize_devices-Keeps : (t : ℕ) → Kept (Houses.initialize_devices t)
  unfolding Houses.initialize_devices
  initialize_devices-Keeps t =
      search (keeps_rules, in_area-Keeps, in_world-Keeps, set_device_map-Keeps) depth 20

  at_start-Keeps : (t : ℕ) → Kept (at_start t)
  unfolding at_start
  at_start-Keeps t = search (keeps_rules, initialize_devices-Keeps, set_device_map-Keeps) depth 20

  answer_fault-Keeps : (out : Outside F) (b : Bool) → Kept (answer_fault out b)
  unfolding answer_fault
  answer_fault-Keeps out true = search (keeps_rules, form_islands-Keeps, in_area-Keeps) depth 20
  answer_fault-Keeps out false = pure-Keeps tt

  renew_batteries-Keeps : (out : Outside F) → Kept (renew_batteries out)
  unfolding renew_batteries
  renew_batteries-Keeps out =
      search (keeps_rules, set_batteries-Keeps, get_island_baseline_data-Keeps) depth 40

  between-Keeps : (out : Outside F) (t : ℕ) → Kept (between out t)
  unfolding between
  between-Keeps out t = search (keeps_rules, packetize_all-Keeps) depth 20

  run_baseline-Keeps : (out : Outside F) (t : ℕ) → Kept (run_baseline out t)
  unfolding run_baseline
  run_baseline-Keeps out t =
      search (keeps_rules, begin_baseline-Keeps, repeat_baseline-Keeps) depth 20

  manage-Keeps : (out : Outside F) (t : ℕ) → Kept (manage out t)
  unfolding manage
  manage-Keeps out t =
      search
        (
          keeps_rules, island_management-Keeps, between-Keeps, run_baseline-Keeps,
          test_vb_setpoint_tracking-Keeps,
        )
        depth 40

  absorb_islands-Keeps : (out : Outside F) (t : ℕ) → Kept (absorb_islands out t)
  unfolding absorb_islands
  absorb_islands-Keeps out t = search (keeps_rules, renew_batteries-Keeps, manage-Keeps) depth 20

  commit-Keeps : (out : Outside F) (t : ℕ) → Kept (commit out t)
  unfolding commit
  commit-Keeps out t =
      search (keeps_rules, at_start-Keeps, in_area-Keeps, answer_fault-Keeps, absorb_islands-Keeps)
        depth 40

-- Where every row of virtual_battery_timeseries.csv has thirteen numbers after the clock, this holds
-- after a call of `on_commit` too, at any time, with any settings, and by any way it ends.
pub commit-HasRows :
    {F Sim : Type 0} ⦃num : Num F⦄ ⦃gld : Gridlab Sim⦄ (out : Outside F) (t : ℕ) (c : Control F Sim)
    → All IsRow c.vb_rows
    → All IsRow (commit out t c).1.vb_rows
commit-HasRows out t c h = (commit-Keeps out t).at c h
