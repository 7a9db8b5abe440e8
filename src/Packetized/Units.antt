-- ===== src/Packetized/Units.antt =====
-- `convert_power_units` (packetized/vb_device.py; absorption.py has the same text).
use Prim.Native.String.{◌++◌ as str_append}
use grip_absorption_pipeline.Base.{ℕ, String, ◌||◌, [], ◌∷◌, if◌then◌else◌}
use grip_absorption_pipeline.Base.Text.{has_char, split_second, strip}
use grip_absorption_pipeline.Base.Dict.{Dict, get}
use grip_absorption_pipeline.Base.Exec.{
  Exec, pure, or_raise, value_error, key_error, index_error, ◌>>=◌,
}
use grip_absorption_pipeline.Num.{Num, divide}

-- the dict `cnvrt`: how many of a unit make a MW
abbrev pub cnvrt : Dict ℕ
cnvrt =
    ("kW", 1000)
    ∷ ("W", 1_000_000)
    ∷ ("VA", 1_000_000)
    ∷ ("MW", 1)
    ∷ ("Wh", 1_000_000)
    ∷ ("MWh", 1)
    ∷ []

-- a complex value is cut at its `+`
unfoldable pub imaginary_part : {S : Type 0} → String → Exec S String
unfolding split_second
imaginary_part s =
    if has_char "j" s || has_char "i" s then or_raise (split_second "+" s) index_error else pure s

module _ {F : Type 0} ⦃num : Num F⦄ where
  unfoldable pub convert_power_units : {S : Type 0} → String → String → String → Exec S F
  unfolding imaginary_part strip
  convert_power_units str_val in_unit out_unit = do
    part ← imaginary_part str_val
    val ← or_raise (num.float (strip (str_append " " in_unit) part)) value_error
    per_out ← or_raise (get out_unit cnvrt) key_error
    per_in ← or_raise (get in_unit cnvrt) key_error
    divide (num.mul val (num.lit per_out)) (num.lit per_in)
