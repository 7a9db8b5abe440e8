-- ===== src/Base/Decimal.antt =====
-- Whole numbers in texts: `re.search(r'\d+', s).group()`, `int(s)` of such a group, `str(n)`, and
-- `'{:03d}'.format(n)`.
use Prim.Native.Nat.{ℕ, zero, suc, ◌+◌, ◌-◌, ◌*◌, ◌/◌, ◌%◌, compare, Ordering}
use Prim.Native.Char.{Char, code}
use Prim.Native.String.{String}
use Prim.Native.String.{◌++◌ as str_append}
use mathlib.Core.Path.{◌≡◌, refl}
use mathlib.Core.Bool.{Bool, true, false}
use mathlib.Core.Option.{Option, none, some}

abbrev below : ℕ → ℕ → Bool
below a b = elim (compare a b) [ Ordering.lt ↦ true | _ ↦ false ]

abbrev choose {ℓ} : {A : Type ℓ} → Bool → A → A → A
choose true x y = x
choose false x y = y

is_digit : Char → Bool
is_digit c = elim (below (code c) b'0') [ true ↦ false | false ↦ below (code c) (suc b'9') ]

-- the digits that a text begins with
leading_digits : String → String
unfolding is_digit
leading_digits String.[] = ""
leading_digits (String.◌∷◌ c s) =
    let rest = leading_digits s in choose (is_digit c) (String.◌∷◌ c rest) ""

-- `re.search(r'\d+', s)`: the first group of digits
unfoldable pub first_digits : String → Option String
unfolding leading_digits
first_digits String.[] = none
first_digits (String.◌∷◌ c s) =
    let rest = first_digits s in choose (is_digit c) (some (String.◌∷◌ c (leading_digits s))) rest

digits_from : ℕ → String → ℕ
digits_from acc String.[] = acc
digits_from acc (String.◌∷◌ c s) = digits_from (acc * 10 + (code c - b'0')) s

-- `int(s)` of digits
unfoldable pub int_of : String → ℕ
unfolding digits_from
int_of s = digits_from 0 s

digit : ℕ → String
digit n = choose (below n 1) "0" (
    choose (below n 2) "1" (
      choose (below n 3) "2" (
        choose (below n 4) "3" (
          choose (below n 5) "4" (
            choose (below n 6) "5"
              (choose (below n 7) "6" (choose (below n 8) "7" (choose (below n 9) "8" ("9")))))))))

-- A number has at most as many digits as its value, and one.
decimal_from : ℕ → ℕ → String
unfolding digit
decimal_from zero n = digit n
decimal_from (suc fuel) n = elim (below n 10) [
  | true ↦ digit n
  | false ↦ str_append (decimal_from fuel (n / 10)) (digit (n % 10))
]

-- `str(n)`
unfoldable pub decimal : ℕ → String
unfolding decimal_from
decimal n = decimal_from n n

-- `'{:03d}'.format(n)`
unfoldable pub three_digits : ℕ → String
three_digits n =
    choose (below n 10) (str_append "00" (decimal n))
      (choose (below n 100) (str_append "0" (decimal n)) (decimal n))

decimal_test : decimal 1203 ≡ "1203"
unfolding decimal
decimal_test = refl

three_digits_test : three_digits 7 ≡ "007"
unfolding three_digits decimal
three_digits_test = refl

int_of_test : int_of "0120" ≡ 120
unfolding int_of
int_of_test = refl

first_digits_test : first_digits "supernode_101_x2" ≡ some "101"
unfolding first_digits
first_digits_test = refl
