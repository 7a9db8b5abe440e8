-- ===== src/Faults/Detect.antt =====
-- `new_fault_detected` (absorption.py): the list of the faulted supernodes follows the simulation.
use grip_absorption_pipeline.Base.{String, ◌≡◌, ◌≢◌, Bool, true, false, List, if◌then◌else◌}
use grip_absorption_pipeline.Base.Dict.{Dict, listed}
use grip_absorption_pipeline.Gridlab.{Gridlab}

-- The list of the faulted supernodes before and after, for the supernodes `sns`.
pub record IsSynced (want : String → Bool) (sns before after : List String) (changed : Bool)
    : Type 0 where
  pub exact : (x : String) → listed x after ≡ (if listed x sns then want x else listed x before)
  pub silent : changed ≡ false → after ≡ before
  pub told : changed ≡ true → (x : String) × (listed x after ≢ listed x before)
