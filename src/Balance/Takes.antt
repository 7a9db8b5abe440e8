-- ===== src/Balance/Takes.antt =====
-- What one battery may take in `check_power_balance` (absorption.py), by its rate.
use Prim.Native.String.{◌++◌ as str_append}
use grip_absorption_pipeline.Base.{
  String, ◌≡◌, refl, ◌⊎◌, inl, inr, Bool, true, false, not, ◌&&◌, List, [], ◌∷◌, ◌++◌, some, arith,
}
use grip_absorption_pipeline.Base.Dict.{Dict, get, put}
use grip_absorption_pipeline.Base.Lists.{All}
use grip_absorption_pipeline.Base.Exec.{ok}
use grip_absorption_pipeline.Num.{Num}
use grip_absorption_pipeline.Gridlab.{Gridlab}
use grip_absorption_pipeline.Packetized.Units.{convert_power_units}
use grip_absorption_pipeline.Faults.{Area}
use grip_absorption_pipeline.Balance.{Excess, load, power, rate_property, within, new_kw}

-- Every pair is an entry of the dict.
abbrev pub AreEntries {ℓ} : {V : Type ℓ} → Dict V → List (String × V) → Type ℓ
AreEntries d [] = Unit
AreEntries d ((k, v) ∷ kvs) = (get k d ≡ some v) × AreEntries d kvs

abbrev pub names_of : {V : Type 0} → List (String × V) → List String
names_of [] = []
names_of ((k, v) ∷ kvs) = k ∷ names_of kvs

and_not : (x z : Bool) → (x && not z) ≡ false → (x ≡ false) ⊎ (z ≡ true)
and_not true true e = inr refl
and_not true false e = ground (arith, e)
and_not false z e = inl refl

module _ {F : Type 0} ⦃num : Num F⦄ where
  -- A battery of a rate goes from one power to another by the whole difference, within the rate.
  abbrev pub Covers : Excess → F → F → F → F → Type 0
  Covers load kw rate diff new = (num.le kw (num.sub rate diff) ≡ true) × (new ≡ num.add kw diff)
  Covers power kw rate diff new =
      (num.le (num.add (num.neg rate) diff) kw ≡ true) × (new ≡ num.sub kw diff)

  abbrev pub Exceeds : Excess → F → F → F → Type 0
  Exceeds load kw rate diff = num.le kw (num.sub rate diff) ≡ false
  Exceeds power kw rate diff = num.le (num.add (num.neg rate) diff) kw ≡ false

  pub within-Covers :
      (excess : Excess) (kw rate diff : F)
      → within excess kw rate diff ≡ true
      → Covers excess kw rate diff (new_kw excess kw diff)
  within-Covers load kw rate diff e = (e, refl)
  within-Covers power kw rate diff e = (e, refl)

  pub refused_by :
      (excess : Excess) (kw rate diff : F)
      → (within excess kw rate diff && not (num.is_zero diff)) ≡ false
      → Exceeds excess kw rate diff ⊎ (num.is_zero diff ≡ true)
  refused_by load kw rate diff e = and_not (num.le kw (num.sub rate diff)) (num.is_zero diff) e
  refused_by power kw rate diff e =
      and_not (num.le (num.add (num.neg rate) diff) kw) (num.is_zero diff) e

module _ {F Sim : Type 0} ⦃num : Num F⦄ ⦃gld : Gridlab Sim⦄ where
  -- The rate of a battery, as the simulation shows it, for the way that is wanted.
  abbrev pub ShowsRate : Excess → String → Area Sim → F → Type 0
  ShowsRate load b a rate =
      (convert_power_units (gld.get_value a.sim b "max_discharge_rate") "W" "kW" a).0 ≡ ok rate
  ShowsRate power b a rate =
      (convert_power_units (gld.get_value a.sim b "max_charge_rate") "W" "kW" a).0 ≡ ok rate

  -- the state after P_Out is set and the number is noted in the file of the battery
  abbrev pub outputs_set : String → F → Area Sim → Area Sim
  outputs_set b new a =
      let sim' = gld.set_value a.sim b "P_Out" (str_append (num.fixed2 new) " kW") in
      record a {
        sim = sim';
        lines =
            a.lines
            ++ (
              str_append b "-P_Out.csv",
              str_append (gld.get_global sim' "clock") (str_append ", " (num.str new)),
            )
              ∷ [];
      }

  -- One battery takes up the whole difference, within its rate, in the dict and in the simulation.
  pub record Takes (excess : Excess) (diff : F) (before after : Dict F) (a b : Area Sim)
      : Type 0 where
    pub battery : String
    pub kw : F
    pub rate : F
    pub new : F
    pub entry : get battery before ≡ some kw
    pub shown : ShowsRate excess battery a rate
    pub covers : Covers excess kw rate diff new
    pub written : after ≡ put battery new before
    pub set : b ≡ outputs_set battery new a

  -- A battery whose rate does not allow it, unless there is no difference.
  pub record Declines (excess : Excess) (diff : F) (before : Dict F) (a : Area Sim)
      (battery : String) : Type 0 where
    pub kw : F
    pub rate : F
    pub entry : get battery before ≡ some kw
    pub shown : ShowsRate excess battery a rate
    pub refused : Exceeds excess kw rate diff ⊎ (num.is_zero diff ≡ true)

  -- what the loop may do: nothing, if no battery can, or one takes the difference
  pub data Shared (names : List String) (excess : Excess) (diff : F) (before after : Dict F)
      (a b : Area Sim) : Type 0 where
    nobody :
        All (Declines excess diff before a) names
        → after ≡ before
        → b ≡ a
        → Shared names excess diff before after a b
    one_battery : Takes excess diff before after a b → Shared names excess diff before after a b

  pub rate-shown :
      (excess : Excess) (b : String) (a : Area Sim) (rate : F)
      → (convert_power_units (gld.get_value a.sim b (rate_property excess)) "W" "kW" a).0 ≡ ok rate
      → ShowsRate excess b a rate
  rate-shown load b a rate e = e
  rate-shown power b a rate e = e
