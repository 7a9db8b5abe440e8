-- ===== src/Sample.antt =====
-- Concrete numbers and a concrete simulator, at which the theorems are applied: whole numbers for
-- floats, and a board of properties for GridLAB-D.
use Prim.Native.Char.{Char, code}
use Prim.Native.Nat.{◌/◌}
use grip_absorption_pipeline.Base.{
  ℕ, suc, ◌+◌, ◌-◌, ◌*◌, String, Bool, ◌&&◌, Option, none, some, List, [], ◌∷◌, arith, refl, ltb,
  leb, nat_eq, ◌==◌, if◌then◌else◌,
}
use grip_absorption_pipeline.Base.Dict.{Dict}
use grip_absorption_pipeline.Num.{Num, NumOrder, NumZero, NumNought}
use grip_absorption_pipeline.Gridlab.{Gridlab}

-- `negsuc n` is -(n + 1).
pub data ℤ : Type 0 where
  pos : ℕ → ℤ
  negsuc : ℕ → ℤ

abbrev pos_part : ℤ → ℕ
pos_part (pos n) = n
pos_part (negsuc n) = 0

abbrev neg_part : ℤ → ℕ
neg_part (pos n) = 0
neg_part (negsuc n) = suc n

abbrev pub sub_ℕ : ℕ → ℕ → ℤ
sub_ℕ a b = if leb b a then pos (a - b) else negsuc (b - a - 1)

abbrev neg : ℤ → ℤ
neg a = sub_ℕ (neg_part a) (pos_part a)

abbrev abs : ℤ → ℤ
abs a = pos (pos_part a + neg_part a)

abbrev add : ℤ → ℤ → ℤ
add a b = sub_ℕ (pos_part a + pos_part b) (neg_part a + neg_part b)

abbrev sub : ℤ → ℤ → ℤ
sub a b = sub_ℕ (pos_part a + neg_part b) (neg_part a + pos_part b)

abbrev mul : ℤ → ℤ → ℤ
mul a b =
    sub_ℕ (pos_part a * pos_part b + neg_part a * neg_part b)
      (pos_part a * neg_part b + neg_part a * pos_part b)

-- towards zero
abbrev div : ℤ → ℤ → ℤ
div a b =
    sub_ℕ (pos_part a / pos_part b + neg_part a / neg_part b)
      (pos_part a / neg_part b + neg_part a / pos_part b)

abbrev lt : ℤ → ℤ → Bool
lt a b = ltb (pos_part a + neg_part b) (pos_part b + neg_part a)

abbrev le : ℤ → ℤ → Bool
le a b = leb (pos_part a + neg_part b) (pos_part b + neg_part a)

abbrev sum : List ℤ → ℤ
sum [] = pos 0
sum (x ∷ xs) = add x (sum xs)

abbrev is_digit : Char → Bool
is_digit c = leb b'0' (code c) && leb (code c) b'9'

-- the value of a text of digits
abbrev digits : ℕ → String → Option ℤ
digits acc String.[] = some (pos acc)
digits acc (String.◌∷◌ c s) =
    let rest = digits (acc * 10 + (code c - b'0')) s in if is_digit c then rest else none

instance abbrev pub whole : Num ℤ
whole = record {
  lit = λ n. pos n;
  tenths = λ n. pos (n / 10);
  neg = neg;
  abs = abs;
  add = add;
  sub = sub;
  mul = mul;
  div = div;
  lt = lt;
  le = le;
  is_zero = λ x. nat_eq (pos_part x + neg_part x) 0;
  round = λ x. x;
  exp = λ x. pos (suc (pos_part x));
  np_sum = sum;
  np_mean = sum;
  nan = pos 0;
  round2 = λ x. x;
  float = digits 0;
  str = λ x. "0";
  fixed2 = λ x. "0.00";
  fixed1 = λ x. "0.0";
  int_round = λ x. pos_part x;
}

pub whole_order : NumOrder ℤ
whole_order = record { le_refl = λ x. ground arith; le_trans = λ x y z p q. ground arith }

pub whole_zero : NumZero ℤ
whole_zero = record { lit_nonzero = λ k. ground arith; sub_nonzero = λ x h. ground arith }

pub whole_nought : NumNought ℤ
whole_nought = record { zero_zero = refl }

pub record Board : Type 0 where
  pub names : List String
  pub properties : String → Dict String
  pub value : String → String → String

-- The simulator shows output power in units of its own: this board shows none.
abbrev shown : String → String → String
shown p v = if p == "P_Out" then "0 VA" else v

instance abbrev pub board : Gridlab Board
board = record {
  objects = λ s. s.names;
  get_object = λ s o. s.properties o;
  get_value = λ s o p. shown p (s.value o p);
  set_value =
      λ s o p v. record s { value = λ o' p'. if o == o' && p == p' then v else s.value o' p' };
  get_global = λ s k. "0";
}
