-- ===== src/Control/Commit/Idle.antt =====
-- `on_commit` (absorption.py) where Absorption is off.
use grip_absorption_pipeline.Base.{
  ℕ, String, Bool, true, false, Option, List, ◌≡◌, refl, subst, sym,
}
use grip_absorption_pipeline.Base.Exec.{Exec, gets, ◌>>=◌}
use grip_absorption_pipeline.Base.Keeps.{Keeps, keeps_rules}
use grip_absorption_pipeline.Num.{Num}
use grip_absorption_pipeline.Gridlab.{Gridlab}
use grip_absorption_pipeline.Packetized.World.{World}
use grip_absorption_pipeline.Packetized.Battery.{VirtualBattery}
use grip_absorption_pipeline.Faults.{Area}
use grip_absorption_pipeline.Base.Dict.{Dict}
use grip_absorption_pipeline.Control.{
  Island, PerIsland, Frame, BalanceEntry, VbRow, Control, in_area, in_world,
}
use grip_absorption_pipeline.Control.Houses.{set_device_map, initialize_devices}
use grip_absorption_pipeline.Control.Commit.{Outside, at_start, answer_fault, commit}

-- what absorption.py remembers of the islands
pub record Memory (F : Type 0) : Type 0 where
  pub islanded_devices : List String
  pub islanded : Bool
  pub re_island : Bool
  pub islands : Option (List Island)
  pub batteries : Option (PerIsland (VirtualBattery F))
  pub houses_off : List String
  pub powerbal : PerIsland (BalanceEntry F)
  pub tables : Dict (Frame F)
  pub vb_rows : List (VbRow F)
  pub load_per_house : PerIsland F

module _ {F Sim : Type 0} where
  abbrev pub memory : Control F Sim → Memory F
  memory c = record {
    islanded_devices = c.islanded_devices;
    islanded = c.islanded;
    re_island = c.re_island;
    islands = c.islands;
    batteries = c.batteries;
    houses_off = c.houses_off;
    powerbal = c.powerbal;
    tables = c.tables;
    vb_rows = c.vb_rows;
    load_per_house = c.load_per_house;
  }

module _ {F Sim : Type 0} ⦃num : Num F⦄ ⦃gld : Gridlab Sim⦄ (m : Memory F) where
  abbrev Idle : Control F Sim → Type 0
  Idle c = (c.absorption_on ≡ false) × (memory c ≡ m)

  in_area-Keeps : {A : Type 0} (k : Exec (Area Sim) A) → Keeps Idle (in_area k)
  in_area-Keeps k = record { at = λ s h. h }

  in_world-Keeps : {A : Type 0} (k : Exec (World F Sim) A) → Keeps Idle (in_world k)
  in_world-Keeps k = record { at = λ s h. h }

  -- a test of the setting
  when_off-Keeps :
      {A : Type 0} (f : Bool → Exec (Control F Sim) A)
      → Keeps Idle (f false)
      → Keeps Idle (gets (λ c. c.absorption_on) >>= f)
  when_off-Keeps f k = record { at = λ s h. subst (λ b. Idle (f b s).1) (sym h.0) (k.at s h) }

  set_device_map-Keeps : Keeps Idle (set_device_map {F = F} {Sim = Sim})
  unfolding set_device_map
  set_device_map-Keeps = search (keeps_rules, in_area-Keeps)

  initialize_devices-Keeps : (t : ℕ) → Keeps Idle (initialize_devices t)
  unfolding initialize_devices
  initialize_devices-Keeps t =
      search (keeps_rules, in_area-Keeps, in_world-Keeps, set_device_map-Keeps) depth 20

  at_start-Keeps : (t : ℕ) → Keeps Idle (at_start t)
  unfolding at_start
  at_start-Keeps t = search (keeps_rules, initialize_devices-Keeps, set_device_map-Keeps) depth 20

  answer_fault-Keeps : (out : Outside F) (b : Bool) → Keeps Idle (answer_fault out b)
  unfolding answer_fault
  answer_fault-Keeps out true = search (when_off-Keeps, keeps_rules, in_area-Keeps) depth 20
  answer_fault-Keeps out false = search keeps_rules

  commit-Keeps : (out : Outside F) (t : ℕ) → Keeps Idle (commit out t)
  unfolding commit
  commit-Keeps out t =
      search (when_off-Keeps, at_start-Keeps, answer_fault-Keeps, in_area-Keeps, keeps_rules) depth
        20

-- While Absorption is off, `on_commit` leaves the islands, their batteries and power balances and the
-- lists of their devices and of the houses that are off as they are, also where an exception ends
-- it.
pub commit-Preserves :
    {F Sim : Type 0} ⦃num : Num F⦄ ⦃gld : Gridlab Sim⦄ (out : Outside F) (t : ℕ) (c : Control F Sim)
    → c.absorption_on ≡ false
    → memory (commit out t c).1 ≡ memory c
commit-Preserves out t c e = ((commit-Keeps (memory c) out t).at c (e, refl)).1
