-- ===== src/ServerData/Buses.antt =====
-- The numbers 1, 2, … that `get_islanding_data` (absorption.py) gives to the buses, and the map back.
use Prim.Native.Nat.{Ordering}
use Prim.Native.String.{compare}
use grip_absorption_pipeline.Base.{
  ℕ, ◌+◌, String, Bool, true, false, Option, none, some, List, [], ◌∷◌, if◌then◌else◌,
}
use grip_absorption_pipeline.Base.Decimal.{int_of}
use grip_absorption_pipeline.Base.Dict.{listed}
use grip_absorption_pipeline.Base.Numbered.{get_at, put_at}

-- `s < t`
abbrev pub text_before : String → String → Bool
text_before s t = elim (compare s t) [ Ordering.lt ↦ true | _ ↦ false ]

abbrev pub insert : String → List String → List String
insert s [] = s ∷ []
insert s (t ∷ ts) = let rest = insert s ts in if text_before t s then t ∷ rest else s ∷ t ∷ ts

abbrev pub sorted : List String → List String
sorted [] = []
sorted (s ∷ ss) = insert s (sorted ss)

-- `set(ss)`
abbrev pub set_of : List String → List String
set_of [] = []
set_of (s ∷ ss) = let rest = set_of ss in if listed s ss then rest else s ∷ rest

-- `{int(b):i for i,b in zip(range(i, …), buses)}`, into a dict that begins as `acc`
abbrev pub number_from : ℕ → List (ℕ × ℕ) → List String → List (ℕ × ℕ)
number_from i acc [] = acc
number_from i acc (b ∷ bs) = number_from (i + 1) (put_at (int_of b) i acc) bs

unfoldable pub busmap : List String → List (ℕ × ℕ)
busmap buses = number_from 1 [] (sorted buses)

-- `{busmap[b]:b for b in busmap}`
abbrev pub invert : List (ℕ × ℕ) → List (ℕ × ℕ) → List (ℕ × ℕ)
invert acc [] = acc
invert acc ((b, i) ∷ rest) = invert (put_at i b acc) rest

unfoldable pub mapback : List (ℕ × ℕ) → List (ℕ × ℕ)
mapback numbers = invert [] numbers

-- `[busmap[int(b)] for b in column]`
abbrev pub add_number : Option ℕ → Option (List ℕ) → Option (List ℕ)
add_number none rest = none
add_number (some i) none = none
add_number (some i) (some is) = some (i ∷ is)

abbrev pub renumber : List (ℕ × ℕ) → List String → Option (List ℕ)
renumber numbers [] = some []
renumber numbers (b ∷ bs) = add_number (get_at (int_of b) numbers) (renumber numbers bs)

-- `[busmap[t] for t in column]` of `islanding`, where `busmap` is the map back
abbrev pub name_back : List (ℕ × ℕ) → List ℕ → Option (List ℕ)
name_back back [] = some []
name_back back (i ∷ is) = add_number (get_at i back) (name_back back is)

abbrev pub ints : List String → List ℕ
ints [] = []
ints (b ∷ bs) = int_of b ∷ ints bs
