-- ===== src/Balance.antt =====
-- `check_power_balance` (absorption.py): one battery of an island takes up the difference between
-- the power and the load. `random.shuffle` is an argument: any function on lists.
pub mod Neutral
pub mod Takes
pub mod Shares
pub mod Covers
mod Tests
use Prim.Native.String.{◌++◌ as str_append}
use grip_absorption_pipeline.Base.{
  String, Bool, true, false, not, List, [], ◌∷◌, ◌&&◌, if◌then◌else◌,
}
use grip_absorption_pipeline.Base.Dict.{Dict, get, put, keys, values}
use grip_absorption_pipeline.Base.Exec.{Exec, pure, or_raise, key_error, ◌>>=◌, ◌>>◌}
use grip_absorption_pipeline.Num.{Num}
use grip_absorption_pipeline.Gridlab.{Gridlab}
use grip_absorption_pipeline.Packetized.Units.{convert_power_units}
use grip_absorption_pipeline.Faults.{Area, value_of, assign, log_power}

-- the keys of the dict `powerbal` that the function uses
pub record PowerBalance (F : Type 0) : Type 0 where
  pub nfload : F
  pub vb_load : F
  pub batt_p : Dict F
  pub solar_p : F

-- `powerbal['battP']` and `diff`
pub record Share (F : Type 0) : Type 0 where
  pub batt_p : Dict F
  pub diff : F

-- the two branches: too much load, too much power
pub data Excess : Type 0 where
  load power : Excess

abbrev pub rate_property : Excess → String
rate_property load = "max_discharge_rate"
rate_property power = "max_charge_rate"

module _ {F : Type 0} ⦃num : Num F⦄ where
  -- the first condition on a battery, which leaves it within its rate
  abbrev pub within : Excess → F → F → F → Bool
  within load kw rate diff = num.le kw (num.sub rate diff)
  within power kw rate diff = num.le (num.add (num.neg rate) diff) kw

  abbrev pub new_kw : Excess → F → F → F
  new_kw load kw diff = num.add kw diff
  new_kw power kw diff = num.sub kw diff

module _ {F Sim : Type 0} ⦃num : Num F⦄ ⦃gld : Gridlab Sim⦄ where
  -- `[powerbal['battP'][b] for b in batts]`, with the names, as `zip` pairs them
  unfoldable pub zipped : Dict F → List String → Exec (Area Sim) (List (String × F))
  zipped batt_p [] = pure []
  zipped batt_p (b ∷ bs) = do
    kw ← or_raise (get b batt_p) key_error
    rest ← zipped batt_p bs
    pure ((b, kw) ∷ rest)

  unfoldable pub set_battery : Excess → String → F → Share F → Exec (Area Sim) (Share F)
  set_battery excess b kw s = do
    let newkw = new_kw excess kw s.diff
    assign b "P_Out" (str_append (num.fixed2 newkw) " kW")
    log_power b (num.str newkw)
    pure (record { batt_p = put b newkw s.batt_p; diff = num.lit 0 })

  -- one round of the loop over the batteries
  unfoldable pub offer : Excess → String → F → Share F → Exec (Area Sim) (Share F)
  offer excess b kw s = do
    text ← value_of b (rate_property excess)
    rate ← convert_power_units text "W" "kW"
    if within excess kw rate s.diff && not (num.is_zero s.diff)
        then set_battery excess b kw s
        else pure s

  unfoldable pub offer_all : Excess → List (String × F) → Share F → Exec (Area Sim) (Share F)
  offer_all excess [] s = pure s
  offer_all excess ((b, kw) ∷ rest) s = do s' ← offer excess b kw s; offer_all excess rest s'

  unfoldable pub share_out :
      (List String → List String) → Excess → F → Dict F → Exec (Area Sim) (Dict F)
  share_out shuffle excess diff batt_p = do
    batts ← zipped batt_p (shuffle (keys batt_p))
    s ← offer_all excess batts (record { batt_p = batt_p; diff = diff })
    pure s.batt_p

  -- the three branches, with `err` 15
  unfoldable pub balance : (List String → List String) → F → F → Dict F → Exec (Area Sim) (Dict F)
  balance shuffle totload supply batt_p =
      if num.le (num.sub totload (num.lit 15)) supply
        && num.le supply (num.add totload (num.lit 15))
      then pure batt_p
      else if num.lt supply (num.sub totload (num.lit 15))
      then share_out shuffle load (num.sub totload supply) batt_p
      else if num.lt (num.sub totload (num.lit 15)) supply
      then share_out shuffle power (num.sub supply totload) batt_p
      else pure batt_p

  -- The sum at the end is only printed, but reading it may raise.
  unfoldable pub read_outputs : List String → Exec (Area Sim) (List F)
  read_outputs [] = pure []
  read_outputs (b ∷ bs) = do
    text ← value_of b "P_Out"
    kw ← convert_power_units text "VA" "kW"
    kws ← read_outputs bs
    pure (kw ∷ kws)

  unfoldable pub check_power_balance :
      (List String → List String) → PowerBalance F → Exec (Area Sim) (PowerBalance F)
  check_power_balance shuffle p = do
    let totload = num.add p.nfload p.vb_load
    let batpwr = num.np_sum (values p.batt_p)
    batt_p ← balance shuffle totload (num.add p.solar_p batpwr) p.batt_p
    outputs ← read_outputs (keys batt_p)
    pure (record p { batt_p = batt_p })
