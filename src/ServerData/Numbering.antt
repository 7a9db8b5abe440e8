-- ===== src/ServerData/Numbering.antt =====
-- The numbers of the buses (`get_islanding_data`, absorption.py) and the map back agree.
use grip_absorption_pipeline.Base.{
  ℕ, ◌+◌, ◌<◌, ◌≤◌, ◌≡◌, ◌≢◌, ◌⊎◌, refl, ap, subst, ◌∙◌, inl, inr, String, Bool, true, false, none,
  some, List, [], ◌∷◌, if◌then◌else◌, arith, nat_eq, Bool-cases, Option-cases, eq_iff, ◌==◌,
}
use grip_absorption_pipeline.Base.Decimal.{int_of}
use grip_absorption_pipeline.Base.Dict.{listed}
use grip_absorption_pipeline.Base.Lists.{length, All}
use grip_absorption_pipeline.Base.Numbered.{get_at, put_at, get_at-put_at}
use grip_absorption_pipeline.ServerData.Buses.{
  insert, sorted, number_from, busmap, invert, mapback, renumber, name_back, ints,
}

-- No entry has this number.
abbrev no_value : ℕ → List (ℕ × ℕ) → Bool
no_value i [] = true
no_value i ((b, j) ∷ d) = if nat_eq j i then false else no_value i d

-- No key and no number stands twice.
abbrev IsDistinct : List (ℕ × ℕ) → Type 0
IsDistinct [] = Unit
IsDistinct ((b, i) ∷ d) = (no_value i d ≡ true) × (get_at b d ≡ none) × IsDistinct d

-- All numbers are at least 1, and below this one.
abbrev Below : ℕ → List (ℕ × ℕ) → Type 0
Below n [] = Unit
Below n ((b, i) ∷ d) = (0 < i) × (i < n) × Below n d

Below-no_value : (n : ℕ) (d : List (ℕ × ℕ)) → Below n d → no_value n d ≡ true
Below-no_value n [] h = refl
Below-no_value n ((b, i) ∷ d) h = ground (arith, h.0, h.1, Below-no_value n d h.2)

Below-suc : (n : ℕ) (d : List (ℕ × ℕ)) → Below n d → Below (n + 1) d
Below-suc n [] h = tt
Below-suc n ((b, i) ∷ d) h = (h.0, omega (arith, h.1), Below-suc n d h.2)

put_at-Below : (k n : ℕ) (d : List (ℕ × ℕ)) → 0 < n → Below n d → Below (n + 1) (put_at k n d)
put_at-Below k n [] pos h = (pos, omega arith, tt)
put_at-Below k n ((b, i) ∷ d) pos h = elim (Bool-cases (nat_eq b k)) [
  | inl same ↦ rw same (pos, omega arith, Below-suc n d h.2)
  | inr other ↦ rw other (h.0, omega (arith, h.1), put_at-Below k n d pos h.2)
]

no_value-put_at :
    (k n j : ℕ) (d : List (ℕ × ℕ))
    → nat_eq n j ≡ false
    → no_value j d ≡ true
    → no_value j (put_at k n d) ≡ true
no_value-put_at k n j [] ne h = ground arith
no_value-put_at k n j ((b, i) ∷ d) ne h = ground (arith, no_value-put_at k n j d ne)

put_at-IsDistinct :
    (k n : ℕ) (d : List (ℕ × ℕ)) → Below n d → IsDistinct d → IsDistinct (put_at k n d)
put_at-IsDistinct k n [] b h = (refl, refl, tt)
put_at-IsDistinct k n ((j, i) ∷ d) b h = elim (Bool-cases (nat_eq j k)) [
  | inl same ↦ rw same (Below-no_value n d b.2, h.1, h.2)
  | inr other ↦ rw other (
    no_value-put_at k n i d (ground (arith, b.1)) h.0,
    get_at-put_at k j n d ∙ ground (arith, other, h.1),
    put_at-IsDistinct k n d b.2 h.2,
  )
]

number_from-IsDistinct :
    (i : ℕ) (acc : List (ℕ × ℕ)) (bs : List String)
    → 0 < i
    → Below i acc
    → IsDistinct acc
    → IsDistinct (number_from i acc bs) × Below (i + length bs) (number_from i acc bs)
number_from-IsDistinct i acc [] pos b h = (h, subst (λ n. Below n acc) (omega arith) b)
number_from-IsDistinct i acc (s ∷ bs) pos b h =
    let (d, low) =
      number_from-IsDistinct (i + 1) (put_at (int_of s) i acc) bs (omega arith)
        (put_at-Below (int_of s) i acc pos b) (put_at-IsDistinct (int_of s) i acc b h) in
    (d, subst (λ n. Below n (number_from (i + 1) (put_at (int_of s) i acc) bs)) (omega arith) low)

get_at-invert_keep :
    (i : ℕ) (acc d : List (ℕ × ℕ)) → no_value i d ≡ true → get_at i (invert acc d) ≡ get_at i acc
get_at-invert_keep i acc [] h = refl
get_at-invert_keep i acc ((b, j) ∷ d) h =
    ground (arith, get_at-invert_keep i (put_at j b acc) d, get_at-put_at j i b acc)

get_at-invert :
    (b i : ℕ) (acc d : List (ℕ × ℕ))
    → IsDistinct d
    → get_at b d ≡ some i
    → get_at i (invert acc d) ≡ some b
get_at-invert b i acc [] h e = ground arith
get_at-invert b i acc ((k, j) ∷ d) h e = elim (Bool-cases (nat_eq k b)) [
  | inl same ↦
      ground (arith, same, e, h.0, get_at-invert_keep i (put_at j k acc) d, get_at-put_at j i k acc)
  | inr other ↦ get_at-invert b i (put_at j k acc) d h.2 (rw other at e)
]

-- A key that is there stays there.
number_from_keeps :
    (i k : ℕ) (acc : List (ℕ × ℕ)) (bs : List String)
    → (get_at k acc ≢ none) ⊎ (b : String) × (listed b bs ≡ true) × (int_of b ≡ k)
    → get_at k (number_from i acc bs) ≢ none
number_from_keeps i k acc [] (inl h) = h
number_from_keeps i k acc [] (inr (b, m, e)) = λ z. ground (arith, m)
number_from_keeps i k acc (s ∷ bs) h =
    number_from_keeps (i + 1) k (put_at (int_of s) i acc) bs (elim h [
      | inl there ↦ inl (λ z. there (ground (arith, z, get_at-put_at (int_of s) k i acc)))
      | inr (b, m, e) ↦ elim (Bool-cases (s == b)) [
        | inl eq ↦
            let at : int_of s ≡ k = ap int_of ((eq_iff s b).0 eq) ∙ e in
            inl (λ z. ground (arith, z, at, get_at-put_at (int_of s) k i acc))
        | inr other ↦ inr (b, ground (arith, m, other), e)
      ]
    ])

listed-insert :
    (b s : String) (ss : List String)
    → listed b (insert s ss) ≡ (if s == b then true else listed b ss)
listed-insert b s [] = ground arith
listed-insert b s (t ∷ ts) = ground (arith, listed-insert b s ts)

listed-sorted : (b : String) (ss : List String) → listed b (sorted ss) ≡ listed b ss
listed-sorted b [] = refl
listed-sorted b (s ∷ ss) = ground (arith, listed-insert b s (sorted ss), listed-sorted b ss)

length-insert : (s : String) (ss : List String) → length (insert s ss) ≡ length ss + 1
length-insert s [] = omega arith
length-insert s (t ∷ ts) = ground (arith, length-insert s ts)

length-sorted : (ss : List String) → length (sorted ss) ≡ length ss
length-sorted [] = refl
length-sorted (s ∷ ss) = omega (arith, length-insert s (sorted ss), length-sorted ss)

Below-of_get_at :
    (n k i : ℕ) (d : List (ℕ × ℕ)) → Below n d → get_at k d ≡ some i → (0 < i) × (i < n)
Below-of_get_at n k i [] h e = ground arith
Below-of_get_at n k i ((b, j) ∷ d) h e = ground (arith, Below-of_get_at n k i d h.2, h.0, h.1)

-- Every bus of a set has a number, from 1 to the size of the set, and the map back has the bus there.
number_of_bus :
    (buses : List String) (b : String)
    → listed b buses ≡ true
    → (i : ℕ) × (get_at (int_of b) (busmap buses) ≡ some i)
      × (get_at i (mapback (busmap buses)) ≡ some (int_of b))
      × (0 < i)
      × (i ≤ length buses)
unfolding busmap mapback
number_of_bus buses b m =
    let (distinct, low) = number_from-IsDistinct 1 [] (sorted buses) (omega arith) tt tt in
    let there =
      number_from_keeps 1 (int_of b) [] (sorted buses) (inr (b, listed-sorted b buses ∙ m, refl)) in
    elim (Option-cases (get_at (int_of b) (number_from 1 [] (sorted buses)))) [
      | inl missing ↦ absurd (there missing)
      | inr (i, e) ↦
          let (pos, lt) =
            Below-of_get_at (1 + length (sorted buses)) (int_of b) i
              (number_from 1 [] (sorted buses)) low e in
          (
            i,
            e,
            get_at-invert (int_of b) i [] (number_from 1 [] (sorted buses)) distinct e,
            pos,
            omega (arith, lt, length-sorted buses),
          )
    ]

-- A column of buses of the set is numbered without a KeyError, by numbers from 1 to the size of the
-- set, and the map back makes of the numbers the column again, as whole numbers.
pub name_back-renumber :
    (buses column : List String)
    → All (λ b. listed b buses ≡ true) column
    → (numbers : List ℕ) × (renumber (busmap buses) column ≡ some numbers)
      × (name_back (mapback (busmap buses)) numbers ≡ some (ints column))
      × All (λ i. (0 < i) × (i ≤ length buses)) numbers
name_back-renumber buses [] h = ([], refl, refl, tt)
name_back-renumber buses (b ∷ bs) h =
    let (i, e, back, pos, le) = number_of_bus buses b h.0 in
    let (is, es, backs, all) = name_back-renumber buses bs h.1 in
    (i ∷ is, rw (e, es) refl, rw (back, backs) refl, ((pos, le), all))
