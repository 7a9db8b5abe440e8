-- ===== src/Balance/Neutral.antt =====
-- `convert_power_units` only computes: the state stays.
use Prim.Native.String.{◌++◌ as str_append}
use grip_absorption_pipeline.Base.Dict.{get}
use grip_absorption_pipeline.Base.{ℕ, String, refl, Bool, true, false, ◌||◌}
use grip_absorption_pipeline.Base.Text.{has_char, split_second, strip}
use grip_absorption_pipeline.Base.Exec.{pure, or_raise, index_error, key_error, value_error, ◌>>=◌}
use grip_absorption_pipeline.Base.Neutral.{
  IsNeutral, or_raise-IsNeutral, bind-IsNeutral, if-IsNeutral,
}
use grip_absorption_pipeline.Num.{Num, guarded, divide}
use grip_absorption_pipeline.Packetized.Units.{cnvrt, imaginary_part, convert_power_units}

module _ {S : Type 0} where
  imaginary_part-IsNeutral : (t : String) → IsNeutral {S = S} (imaginary_part t)
  unfolding imaginary_part
  imaginary_part-IsNeutral t =
      if-IsNeutral (has_char "j" t || has_char "i" t) (or_raise (split_second "+" t) index_error)
        (pure t) (or_raise-IsNeutral (split_second "+" t) index_error) (λ s. refl)

  guarded-IsNeutral :
      {F : Type 0} ⦃num : Num F⦄ (b : Bool) (q : F) → IsNeutral {S = S} (guarded b q)
  guarded-IsNeutral true q s = refl
  guarded-IsNeutral false q s = refl

  pub convert_power_units-IsNeutral :
      (F : Type 0) ⦃num : Num F⦄ (t i o : String)
      → IsNeutral {S = S} {A = F} (convert_power_units t i o)
  unfolding convert_power_units
  convert_power_units-IsNeutral F ⦃num⦄ t i o =
      let last = λ (val : F) (per_out : ℕ) (per_in : ℕ).
        divide {S = S} (num.mul val (num.lit per_out)) (num.lit per_in) in
      let scale = λ (val : F). or_raise {S = S} (get o cnvrt) key_error >>= λ per_out.
      or_raise (get i cnvrt) key_error >>= last val per_out in
      let value = λ (part : String).
        or_raise {S = S} (num.float (strip (str_append " " i) part)) value_error >>= scale in
      bind-IsNeutral (imaginary_part t) value (imaginary_part-IsNeutral t) (λ part.
        bind-IsNeutral (or_raise (num.float (strip (str_append " " i) part)) value_error) scale
          (or_raise-IsNeutral (num.float (strip (str_append " " i) part)) value_error)
          (λ val.
            bind-IsNeutral (or_raise (get o cnvrt) key_error)
              (λ per_out. or_raise (get i cnvrt) key_error >>= last val per_out)
              (or_raise-IsNeutral (get o cnvrt) key_error)
              (λ per_out.
                bind-IsNeutral (or_raise (get i cnvrt) key_error) (last val per_out)
                  (or_raise-IsNeutral (get i cnvrt) key_error)
                  (λ per_in.
                    guarded-IsNeutral (num.is_zero (num.lit per_in))
                      (num.div (num.mul val (num.lit per_out)) (num.lit per_in))))))
