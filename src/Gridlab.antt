-- ===== src/Gridlab.antt =====
-- The module `gridlabd`, the simulator, which is not code of the repository: the simulation as a
-- value that `set_value` replaces, the calls that read it, and the laws that relate them.
use grip_absorption_pipeline.Base.{String, ◌≡◌, ◌≢◌, ◌⊎◌, List}
use grip_absorption_pipeline.Base.Dict.{Dict, contains}

pub record Gridlab (Sim : Type 0) : Type 0 where
  -- `gridlabd.get("objects")`
  pub objects : Sim → List String
  -- `gridlabd.get_object(name)`: the properties of an object
  pub get_object : Sim → String → Dict String
  pub get_value : Sim → String → String → String
  pub set_value : Sim → String → String → String → Sim
  pub get_global : Sim → String → String

-- Setting a property leaves the other properties, and makes no property. What it
-- reads as afterwards is not said: the simulator writes a value in its own units.
pub record GridlabLaws (Sim : Type 0) ⦃g : Gridlab Sim⦄ : Type 0 where
  pub get-set :
      (s : Sim) (o p v o' p' : String)
      → (o ≢ o') ⊎ (p ≢ p')
      → g.get_value (g.set_value s o p v) o' p' ≡ g.get_value s o' p'
  pub contains-set :
      (s : Sim) (o p v o' k : String)
      → contains k (g.get_object (g.set_value s o p v) o') ≡ contains k (g.get_object s o')
