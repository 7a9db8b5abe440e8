-- ===== src/Balance/Covers.antt =====
-- `check_power_balance` (absorption.py): at most one battery changes, and stays within its rate.
use grip_absorption_pipeline.Base.{String, ◌≡◌, true, false, List}
use grip_absorption_pipeline.Base.Dict.{Dict}
use grip_absorption_pipeline.Num.{Num}
use grip_absorption_pipeline.Gridlab.{Gridlab}
use grip_absorption_pipeline.Faults.{Area}
use grip_absorption_pipeline.Balance.{load, power}
use grip_absorption_pipeline.Balance.Takes.{Shared}

-- What becomes of the batteries of an island and of the simulation, by the load and the supply at
-- first: they agree to 15 kW, there is too little, there is too much, or they cannot be compared.
pub data IsBalanced {F Sim : Type 0} ⦃num : Num F⦄ ⦃gld : Gridlab Sim⦄ (names : List String)
    (totload supply : F) (before after : Dict F) (a b : Area Sim) : Type 0 where
  even :
      num.le (num.sub totload (num.lit 15)) supply ≡ true
      → num.le supply (num.add totload (num.lit 15)) ≡ true
      → after ≡ before
      → b ≡ a
      → IsBalanced names totload supply before after a b
  too_little :
      num.lt supply (num.sub totload (num.lit 15)) ≡ true
      → Shared names load (num.sub totload supply) before after a b
      → IsBalanced names totload supply before after a b
  too_much :
      num.lt (num.sub totload (num.lit 15)) supply ≡ true
      → Shared names power (num.sub supply totload) before after a b
      → IsBalanced names totload supply before after a b
  unordered :
      num.lt supply (num.sub totload (num.lit 15)) ≡ false
      → num.lt (num.sub totload (num.lit 15)) supply ≡ false
      → after ≡ before
      → b ≡ a
      → IsBalanced names totload supply before after a b
