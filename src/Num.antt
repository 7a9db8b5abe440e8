-- ===== src/Num.antt =====
-- Python's `float`, which is not code of the repository: a type, the operations that the program
-- makes of it (some are NumPy's), and the few facts about them that the theorems rely on. The
-- facts hold of the IEEE floats away from NaN; none of them says that arithmetic is exact.
use grip_absorption_pipeline.Base.{ℕ, suc, String, ◌≡◌, Bool, true, false, Option, List}
use grip_absorption_pipeline.Base.Exec.{Exec, pure, raise, zero_division_error}

pub record Num (F : Type 0) : Type 0 where
  -- the literal n, and the literal n / 10
  pub lit : ℕ → F
  pub tenths : ℕ → F
  pub neg : F → F
  pub abs : F → F
  pub add : F → F → F
  pub sub : F → F → F
  pub mul : F → F → F
  -- `x / y` where `y` is not zero
  pub div : F → F → F
  pub lt : F → F → Bool
  pub le : F → F → Bool
  -- `not x`
  pub is_zero : F → Bool
  -- `round(x)`: the whole number, compared with floats
  pub round : F → F
  -- `np.exp` and `np.sum`
  pub exp : F → F
  pub np_sum : List F → F
  -- `np.mean`, `np.nan`, and `round(x, 2)`
  pub np_mean : List F → F
  pub nan : F
  pub round2 : F → F
  -- `float(s)`, with `none` for the ValueError, and `str(x)`
  pub float : String → Option F
  pub str : F → String
  -- `'{:.02f}'.format(x)` and `'{:0.1f}'.format(x)`
  pub fixed2 : F → String
  pub fixed1 : F → String
  -- `int(round(x))` of a number that is not negative
  pub int_round : F → ℕ

-- What the theorems take from the comparisons.
pub record NumOrder (F : Type 0) ⦃n : Num F⦄ : Type 0 where
  pub le_refl : (x : F) → n.le x x ≡ true
  pub le_trans : (x y z : F) → n.le x y ≡ true → n.le y z ≡ true → n.le x z ≡ true

-- Zero is zero.
pub record NumNought (F : Type 0) ⦃n : Num F⦄ : Type 0 where
  pub zero_zero : n.is_zero (n.lit 0) ≡ true

-- What they take about dividing by a number that the code has tested.
pub record NumZero (F : Type 0) ⦃n : Num F⦄ : Type 0 where
  -- numerals above zero are not zero
  pub lit_nonzero : (k : ℕ) → n.is_zero (n.lit (suc k)) ≡ false
  -- a number that is not `<= 0.0` is not zero when `0` is taken from it
  pub sub_nonzero : (x : F) → n.le x (n.lit 0) ≡ false → n.is_zero (n.sub x (n.lit 0)) ≡ false

module _ {F : Type 0} ⦃n : Num F⦄ where
  -- `x / y`
  abbrev pub guarded : {S : Type 0} → Bool → F → Exec S F
  guarded true q = raise zero_division_error
  guarded false q = pure q

  abbrev pub divide : {S : Type 0} → F → F → Exec S F
  divide x y = guarded (n.is_zero y) (n.div x y)
