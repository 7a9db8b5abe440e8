-- ===== src/Control/Tracking.antt =====
-- `test_VB_setpoint_tracking` and the branches of `on_commit` for packetize_baseline (absorption.py).
-- `pd.Timestamp(text).hour` is an argument.
use grip_absorption_pipeline.Base.{
  ℕ, ◌-◌, String, Bool, Option, none, some, List, [], ◌∷◌, ◌++◌, nat_eq, leb, ◌||◌, ◌&&◌, ◌==◌,
  if◌then◌else◌,
}
use grip_absorption_pipeline.Base.Decimal.{int_of}
use grip_absorption_pipeline.Base.Dict.{keys}
use grip_absorption_pipeline.Base.Exec.{
  Error, Exec, pure, gets, or_raise, modify, type_error, value_error, index_error, attribute_error,
  ◌>>=◌, ◌>>◌,
}
use grip_absorption_pipeline.Num.{Num}
use grip_absorption_pipeline.Gridlab.{Gridlab}
use grip_absorption_pipeline.Faults.{Area, value_of}
use grip_absorption_pipeline.ServerData.{bus_in}
use grip_absorption_pipeline.Control.{Island, load_only, Control, in_area}
use grip_absorption_pipeline.Base.Nodes.{bus_number}
use grip_absorption_pipeline.Control.Manage.Columns.{Shuffles}
use grip_absorption_pipeline.Control.Rounds.{
  note_balance, packetize_only, save_entry, save_entry_if_asked, set_setpoint, set_batteries,
}

abbrev pub first_island : List Island → Option Island
first_island [] = none
first_island (i ∷ is) = some i

-- `(6 <= hour <= 9) or (20 <= hour <= 22)`
abbrev pub is_peak : ℕ → Bool
is_peak h = (leb 6 h && leb h 9) || (leb 20 h && leb h 22)

module _ {Sim : Type 0} ⦃gld : Gridlab Sim⦄ where
  -- the nodes that are not the swing bus
  unfoldable pub other_nodes : List String → Exec (Area Sim) Island
  other_nodes [] = pure []
  other_nodes (n ∷ ns) = do
    kind ← value_of n "bustype"
    here ← if kind == "SWING" then pure [] else (bus_in n >>= λ d. pure (int_of d ∷ []))
    more ← other_nodes ns
    pure (here ++ more)

module _ {F Sim : Type 0} ⦃num : Num F⦄ ⦃gld : Gridlab Sim⦄ where
  unfoldable pub node_names : Error → Exec (Control F Sim) (List String)
  node_names e = do
    known ← gets λ c. c.device_map
    device_map ← or_raise known e
    pure (keys device_map)

  -- the two branches for packetize_baseline
  unfoldable pub begin_baseline : Shuffles F → ℕ → Exec (Control F Sim) (Unit {0})
  begin_baseline sh t = do
    names ← node_names type_error
    island ← in_area (other_nodes names)
    modify λ c. record c { islands = some (island ∷ []) }
    note_balance island (load_only none)
    set_batteries (island ∷ [])
    packetize_only sh t island
    save_entry_if_asked island

  unfoldable pub repeat_baseline : Shuffles F → ℕ → Exec (Control F Sim) (Unit {0})
  repeat_baseline sh t = do
    known ← gets λ c. c.islands
    islands ← or_raise known type_error
    island ← or_raise (first_island islands) index_error
    set_setpoint island (num.lit 5000)
    packetize_only sh t island
    save_entry_if_asked island

  unfoldable pub bus_numbers : List String → Exec (Control F Sim) Island
  bus_numbers [] = pure []
  bus_numbers (n ∷ ns) = do number ← bus_number n; numbers ← bus_numbers ns; pure (number ∷ numbers)

  unfoldable pub track_setpoint :
      Shuffles F → (String → Option ℕ) → ℕ → Island → Exec (Control F Sim) (Unit {0})
  track_setpoint sh hour_of t island = do
    clock ← gets λ c. gld.get_global c.world.sim "clock"
    hour ← or_raise (hour_of clock) value_error
    setpoint ← gets λ c. c.setpoint
    set_setpoint island (if is_peak hour then num.lit 0 else setpoint)
    packetize_only sh t island

  -- `test_VB_setpoint_tracking(t)`
  unfoldable pub test_vb_setpoint_tracking :
      Shuffles F → (String → Option ℕ) → ℕ → Exec (Control F Sim) (Unit {0})
  test_vb_setpoint_tracking sh hour_of t = do
    names ← node_names attribute_error
    island ← bus_numbers names
    note_balance island (load_only none)
    start ← gets λ c. c.t_start
    setpoint ← gets λ c. c.setpoint
    if nat_eq (t - start) 0
        then (set_batteries (island ∷ []) >> set_setpoint island setpoint)
        else pure tt
    testing ← gets λ c. c.test_setpoint
    if testing
        then track_setpoint sh hour_of t island
        else note_balance island (load_only (some num.nan))
    save_entry island
