-- ===== src/Packetized/World.antt =====
-- The state of the packetized module: the simulation, the objects of the classes `gldWaterHeater` and
-- `gldHVAC`, and the random numbers. Every `vb_device` made from a device shares its object, so
-- the objects stand in a heap; `initialize_devices` (absorption.py) makes one for each id, so the
-- id is the address.
use grip_absorption_pipeline.Base.{ℕ, suc, String, ◌==◌, if◌then◌else◌}
use grip_absorption_pipeline.Base.Exec.{Exec, ok, modify}
use grip_absorption_pipeline.Gridlab.{Gridlab}

-- class gldWaterHeater
pub record WaterHeater (F : Type 0) : Type 0 where
  pub setpoint : F
  pub pem_range : F
  pub upper_temp : F
  pub lower_temp : F
  pub temperature : F
  pub kw : F
  pub soc : F

-- class gldHVAC
pub record Hvac (F : Type 0) : Type 0 where
  pub setpoint_upp : F
  pub setpoint_low : F
  pub pem_range : F
  pub temperature : F
  pub kw : F
  pub outside_t : F
  pub soc : F

pub data GldDevice (F : Type 0) : Type 0 where
  water_heater : WaterHeater F → GldDevice F
  hvac : Hvac F → GldDevice F

pub record World (F Sim : Type 0) : Type 0 where
  pub sim : Sim
  pub heap : String → GldDevice F
  -- what `random.random()` returns, call by call, and the number of calls so far
  pub rolls : ℕ → F
  pub drawn : ℕ

module _ {F : Type 0} where
  abbrev pub kw_of : GldDevice F → F
  kw_of (water_heater d) = d.kw
  kw_of (hvac d) = d.kw

  abbrev pub soc_of : GldDevice F → F
  soc_of (water_heater d) = d.soc
  soc_of (hvac d) = d.soc

module _ {F Sim : Type 0} where
  -- the object at an address, and a write of all its fields
  abbrev pub object_at : String → Exec (World F Sim) (GldDevice F)
  object_at id w = (ok (w.heap id), w)

  abbrev pub write_object : String → GldDevice F → Exec (World F Sim) (Unit {0})
  write_object id d = modify λ w. record w { heap = λ j. if id == j then d else w.heap j }

  -- `r_random()`
  abbrev pub r_random : Exec (World F Sim) F
  r_random w = (ok (w.rolls w.drawn), record w { drawn = suc w.drawn })

  abbrev pub get_value : ⦃g : Gridlab Sim⦄ → String → String → Exec (World F Sim) String
  get_value ⦃g⦄ id prop w = (ok (g.get_value w.sim id prop), w)

  abbrev pub set_value :
      ⦃g : Gridlab Sim⦄ → String → String → String → Exec (World F Sim) (Unit {0})
  set_value ⦃g⦄ id prop v = modify λ w. record w { sim = g.set_value w.sim id prop v }
