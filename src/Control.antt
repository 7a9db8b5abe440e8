-- ===== src/Control.antt =====
-- The state of absorption.py: the simulation, the objects of the package packetized/, and the
-- global variables of the module.
pub mod Tests
pub mod Houses
pub mod Saved
pub mod Islands
pub mod Dropped
pub mod Keeps
pub mod Manage
pub mod Baseline
pub mod Rounds
pub mod Tracking
pub mod Commit
use grip_absorption_pipeline.Base.{
  ℕ, suc, String, Bool, true, false, Option, none, some, List, [], ◌∷◌, ◌&&◌, nat_eq, if◌then◌else◌,
}
use grip_absorption_pipeline.Base.Dict.{Dict}
use grip_absorption_pipeline.Base.Exec.{
  Exec, pure, gets, or_raise, modify, zoom, key_error, type_error, ◌>>=◌, ◌>>◌,
}
use grip_absorption_pipeline.Packetized.World.{World}
use grip_absorption_pipeline.Packetized.Device.{VbDevice}
use grip_absorption_pipeline.Packetized.Battery.{VirtualBattery}
use grip_absorption_pipeline.Faults.{NodeDevices, Area}
use grip_absorption_pipeline.Balance.{PowerBalance}

-- the tuple of the supernodes of an island
abbrev pub Island : Type 0
Island = List ℕ

abbrev pub island_eq : Island → Island → Bool
island_eq [] [] = true
island_eq [] (n ∷ j) = false
island_eq (m ∷ i) [] = false
island_eq (m ∷ i) (n ∷ j) = nat_eq m n && island_eq i j

-- a dict with islands as keys
abbrev pub PerIsland : Type 0 → Type 0
PerIsland V = List (Island × V)

module _ {V : Type 0} where
  abbrev pub get_for : Island → PerIsland V → Option V
  get_for i [] = none
  get_for i ((j, v) ∷ d) = if island_eq j i then some v else get_for i d

  abbrev pub put_for : Island → V → PerIsland V → PerIsland V
  put_for i v [] = (i, v) ∷ []
  put_for i v ((j, w) ∷ d) = if island_eq j i then (j, v) ∷ d else (j, w) ∷ put_for i v d

-- a CSV file as pandas reads it: its first column, with its name, and the other columns
pub record Frame (F : Type 0) : Type 0 where
  pub index_name : String
  pub labels : List String
  pub columns : Dict (List F)

-- a dict of `powerbal`: a complete one, or one with no more than its `VBload`
pub data BalanceEntry (F : Type 0) : Type 0 where
  complete : PowerBalance F → BalanceEntry F
  load_only : Option F → BalanceEntry F

-- a row of virtual_battery_timeseries.csv: the clock, and the numbers after it
abbrev pub VbRow : Type 0 → Type 0
VbRow F = String × List F

pub record Control (F Sim : Type 0) : Type 0 where
  -- the simulation, the heap of device objects, the random numbers of `random`
  pub world : World F Sim
  pub faulted_nodes : List String
  pub device_map : Option (Dict NodeDevices)
  pub lines : List (String × String)
  -- the settings: `Islanding`, `Packetizing`, `Absorption`, and those of the module
  pub islanding_on : Bool
  pub packetizing : Bool
  pub absorption_on : Bool
  pub vb_data_out : Bool
  pub packetize_baseline : Bool
  pub test_setpoint : Bool
  pub setpoint : F
  pub t_start : ℕ
  pub swing_sn : ℕ
  -- None where it is not initialized
  pub all_devices : Option (Dict (VbDevice F))
  pub islanded_devices : List String
  pub islanded : Bool
  pub re_island : Bool
  pub islands : Option (List Island)
  pub batteries : Option (PerIsland (VirtualBattery F))
  pub houses_off : List String
  pub powerbal : PerIsland (BalanceEntry F)
  pub load_per_house : PerIsland F
  -- the tables that are written, by file, and the rows that are appended for the batteries
  pub tables : Dict (Frame F)
  pub vb_rows : List (VbRow F)
  -- the numbers behind `np.random.choice`, call by call, and the number of calls so far
  pub choices : ℕ → ℕ
  pub chosen : ℕ

module _ {F : Type 0} where
  -- the battery of an island, if there is one
  abbrev pub battery_at : Island → Option (PerIsland (VirtualBattery F)) → Option (VirtualBattery F)
  battery_at i none = none
  battery_at i (some d) = get_for i d

module _ {F Sim : Type 0} where
  abbrev pub area_of : Control F Sim → Area Sim
  area_of c = record {
    sim = c.world.sim;
    faulted_nodes = c.faulted_nodes;
    device_map = c.device_map;
    lines = c.lines;
  }

  abbrev pub with_area : Area Sim → Control F Sim → Control F Sim
  with_area a c = record c {
    world = record c.world { sim = a.sim };
    faulted_nodes = a.faulted_nodes;
    device_map = a.device_map;
    lines = a.lines;
  }

  -- the functions about faults and devices, on this state
  abbrev pub in_area : {A : Type 0} → Exec (Area Sim) A → Exec (Control F Sim) A
  in_area m = zoom area_of with_area m

  -- the methods of the package packetized/, on this state
  abbrev pub in_world : {A : Type 0} → Exec (World F Sim) A → Exec (Control F Sim) A
  in_world m = zoom (λ c. c.world) (λ w c. record c { world = w }) m

  -- `Virtual_Battery[tuple(island)]`
  abbrev pub battery_of : Island → Exec (Control F Sim) (VirtualBattery F)
  battery_of i = do
    batteries ← gets λ c. c.batteries
    d ← or_raise batteries type_error
    or_raise (get_for i d) key_error

  -- a method of a battery leaves it like this
  abbrev pub put_battery : Island → VirtualBattery F → Exec (Control F Sim) (Unit {0})
  put_battery i vb = do
    batteries ← gets λ c. c.batteries
    d ← or_raise batteries type_error
    modify λ c. record c { batteries = some (put_for i vb d) }
