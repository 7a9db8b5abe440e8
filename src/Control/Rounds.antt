-- ===== src/Control/Rounds.antt =====
-- A round of packets for an island, as `on_commit` (absorption.py) runs it, and the entry of the
-- island in `powerbal`. Where an exception ends check_power_balance, the entry keeps its outputs.
use grip_absorption_pipeline.Base.{ℕ, some, List, [], ◌∷◌, if◌then◌else◌}
use grip_absorption_pipeline.Base.Exec.{
  Exec, pure, raise, gets, or_raise, modify, key_error, ◌>>=◌, ◌>>◌,
}
use grip_absorption_pipeline.Num.{Num}
use grip_absorption_pipeline.Gridlab.{Gridlab}
use grip_absorption_pipeline.Faults.{Area}
use grip_absorption_pipeline.Balance.{PowerBalance, check_power_balance}
use grip_absorption_pipeline.Control.{
  Island, BalanceEntry, complete, load_only, Control, in_area, battery_of, put_battery, get_for,
  put_for,
}
use grip_absorption_pipeline.Control.Saved.{save_vb_data, save_if_asked}
use grip_absorption_pipeline.Control.Houses.{update_vb}
use grip_absorption_pipeline.Control.Manage.Columns.{Shuffles, packetize}

-- `entry['VBload'] = load`
abbrev pub with_load : {F : Type 0} → F → BalanceEntry F → BalanceEntry F
with_load load (complete p) = complete (record p { vb_load = load })
with_load load (load_only o) = load_only (some load)

module _ {F Sim : Type 0} ⦃num : Num F⦄ ⦃gld : Gridlab Sim⦄ where
  abbrev pub set_batteries : List Island → Exec (Control F Sim) (Unit {0})
  set_batteries islands = do
    batteries ← update_vb islands
    modify λ c. record c { batteries = batteries }

  -- `powerbal[tuple(island)] = entry`
  abbrev pub note_balance : Island → BalanceEntry F → Exec (Control F Sim) (Unit {0})
  note_balance island entry = modify λ c. record c { powerbal = put_for island entry c.powerbal }

  abbrev pub entry_of : Island → Exec (Control F Sim) (BalanceEntry F)
  entry_of island = gets (λ c. get_for island c.powerbal) >>= λ known. or_raise known key_error

  -- `check_power_balance` needs the key `nfload`
  abbrev pub whole_of : BalanceEntry F → Exec (Area Sim) (PowerBalance F)
  whole_of (complete p) = pure p
  whole_of (load_only o) = raise key_error

  -- what follows the load of an island
  abbrev pub balance_again : Shuffles F → Island → BalanceEntry F → Exec (Control F Sim) (Unit {0})
  balance_again sh island entry = do
    note_balance island entry
    p ← in_area (whole_of entry >>= check_power_balance sh.inverters)
    note_balance island (complete p)
    save_if_asked (complete p) island

  -- the loop body between the times of the optimisation
  unfoldable pub packetize_one : Shuffles F → ℕ → Island → Exec (Control F Sim) (Unit {0})
  packetize_one sh t island = do
    load ← packetize sh t island
    entry ← entry_of island
    balance_again sh island (with_load load entry)

  unfoldable pub packetize_all : Shuffles F → ℕ → List Island → Exec (Control F Sim) (Unit {0})
  packetize_all sh t [] = pure tt
  packetize_all sh t (island ∷ islands) = packetize_one sh t island >> packetize_all sh t islands

  -- a round for the baseline: `powerbal[tuple(island)]['VBload'] = packetize_island(t,island)`
  unfoldable pub packetize_only : Shuffles F → ℕ → Island → Exec (Control F Sim) (Unit {0})
  packetize_only sh t island = do
    load ← packetize sh t island
    entry ← entry_of island
    note_balance island (with_load load entry)

  unfoldable pub save_entry : Island → Exec (Control F Sim) (Unit {0})
  save_entry island = entry_of island >>= λ entry. save_vb_data entry island

  unfoldable pub save_entry_if_asked : Island → Exec (Control F Sim) (Unit {0})
  save_entry_if_asked island = do
    asked ← gets λ c. c.vb_data_out
    if asked then save_entry island else pure tt

  abbrev pub set_setpoint : Island → F → Exec (Control F Sim) (Unit {0})
  set_setpoint island value = do
    vb ← battery_of island
    put_battery island (record vb { setpoint = value })
