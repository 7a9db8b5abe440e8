-- ===== src/Control/Keeps.antt =====
-- Assertions on the global variables that the parts of absorption.py about devices leave alone.
use grip_absorption_pipeline.Base.{ℕ, String, List}
use grip_absorption_pipeline.Base.Exec.{Exec}
use grip_absorption_pipeline.Base.Keeps.{Keeps, keeps_rules}
use grip_absorption_pipeline.Num.{Num}
use grip_absorption_pipeline.Gridlab.{Gridlab}
use grip_absorption_pipeline.Packetized.World.{World}
use grip_absorption_pipeline.Faults.{Area}
use grip_absorption_pipeline.Control.{Island, Control, in_area, in_world}
use grip_absorption_pipeline.Control.Houses

-- an assertion on the list of the houses that are off
abbrev pub OnHousesOff : {F Sim : Type 0} → (List String → Type 0) → Control F Sim → Type 0
OnHousesOff P c = P c.houses_off

module _ {F Sim : Type 0} ⦃num : Num F⦄ ⦃gld : Gridlab Sim⦄ (P : List String → Type 0) where
  abbrev Kept : {A : Type 0} → Exec (Control F Sim) A → Type 0
  Kept = Keeps (OnHousesOff P)

  pub in_area-Keeps : {A : Type 0} (m : Exec (Area Sim) A) → Kept (in_area m)
  in_area-Keeps m = record { at = λ s h. h }

  pub in_world-Keeps : {A : Type 0} (m : Exec (World F Sim) A) → Kept (in_world m)
  in_world-Keeps m = record { at = λ s h. h }

  drop_device-Keeps : (island : Island) (id : String) → Kept (Houses.drop_device island id)
  unfolding Houses.drop_device
  drop_device-Keeps island id = search (keeps_rules, in_world-Keeps) depth 20

  interrupt-Keeps : (h value : String) → Kept (Houses.interrupt h value)
  unfolding Houses.interrupt
  interrupt-Keeps h value = search (keeps_rules, in_area-Keeps)

  pub turn_off_house-Keeps : (island : Island) (h : String) → Kept (Houses.turn_off_house island h)
  unfolding Houses.turn_off_house
  turn_off_house-Keeps island h = search (keeps_rules, drop_device-Keeps, interrupt-Keeps)

  restart_timer-Keeps : (id : String) (ends : ℕ) → Kept (Houses.restart_timer id ends)
  unfolding Houses.restart_timer
  restart_timer-Keeps id ends = search keeps_rules

  add_known-Keeps : (island : Island) (id : String) → Kept (Houses.add_known island id)
  unfolding Houses.add_known
  add_known-Keeps island id = search keeps_rules depth 20

  pub turn_on_house-Keeps :
      (island : Island) (h : String) (t : ℕ) → Kept (Houses.turn_on_house island h t)
  unfolding Houses.turn_on_house
  turn_on_house-Keeps island h t =
      search (keeps_rules, restart_timer-Keeps, add_known-Keeps, interrupt-Keeps) depth 20
