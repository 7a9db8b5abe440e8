-- ===== src/Network/Sets.antt =====
-- Python's sets of node numbers, as lists that are only asked for members.
use grip_absorption_pipeline.Base.{
  ℕ, suc, ◌≡◌, refl, Bool, true, false, not, ◌&&◌, ◌||◌, List, [], ◌∷◌, ◌++◌, arith, nat_eq,
  if◌then◌else◌, nat_eq_iff, Bool-cases, ◌⊎◌, inl, inr, ◌<◌, ◌≤◌,
}

abbrev pub mem : ℕ → List ℕ → Bool
mem x [] = false
mem x (y ∷ ys) = nat_eq y x || mem x ys

-- `ys - seen`
abbrev pub diff : List ℕ → List ℕ → List ℕ
diff [] seen = []
diff (y ∷ ys) seen = let rest = diff ys seen in if mem y seen then rest else y ∷ rest

-- `xs.update(ys)`
abbrev pub union : List ℕ → List ℕ → List ℕ
union xs ys = xs ++ diff ys xs

abbrev pub remove : ℕ → List ℕ → List ℕ
remove u ys = diff ys (u ∷ [])

pub mem-diff : (x : ℕ) (ys seen : List ℕ) → mem x (diff ys seen) ≡ (mem x ys && not (mem x seen))
mem-diff x [] seen = refl
mem-diff x (y ∷ ys) seen = elim (Bool-cases (nat_eq y x)) [
  | inl same ↦ rw (same, (nat_eq_iff y x).0 same) (ground (arith, mem-diff x ys seen))
  | inr other ↦ rw other (ground (arith, mem-diff x ys seen, other))
]

pub mem-append : (x : ℕ) (xs ys : List ℕ) → mem x (xs ++ ys) ≡ (mem x xs || mem x ys)
mem-append x [] ys = refl
mem-append x (y ∷ xs) ys = ground (arith, mem-append x xs ys)

pub mem-union : (x : ℕ) (xs ys : List ℕ) → mem x (union xs ys) ≡ (mem x xs || mem x ys)
mem-union x xs ys = ground (arith, mem-append x xs (diff ys xs), mem-diff x ys xs)

pub mem-remove : (x u : ℕ) (ys : List ℕ) → mem x (remove u ys) ≡ (mem x ys && not (nat_eq u x))
mem-remove x u ys = ground (arith, mem-diff x ys (u ∷ []))

-- How many of the listed nodes are not in the set.
abbrev pub unseen : List ℕ → List ℕ → ℕ
unseen [] seen = 0
unseen (k ∷ ks) seen = if mem k seen then unseen ks seen else suc (unseen ks seen)

pub unseen-le : (ks seen : List ℕ) (u : ℕ) → unseen ks (u ∷ seen) ≤ unseen ks seen
unseen-le [] seen u = omega arith
unseen-le (k ∷ ks) seen u = ground (arith, unseen-le ks seen u)

-- A node that is seen for the first time leaves one fewer.
pub unseen-lt :
    (ks seen : List ℕ) (u : ℕ)
    → mem u ks ≡ true
    → mem u seen ≡ false
    → unseen ks (u ∷ seen) < unseen ks seen
unseen-lt [] seen u h new = cc
unseen-lt (k ∷ ks) seen u h new = elim (Bool-cases (nat_eq k u)) [
  | inl same ↦ rw ((nat_eq_iff k u).0 same) (ground (arith, unseen-le ks seen u))
  | inr other ↦ ground (arith, unseen-lt ks seen u, other)
]

pub mem_head : (n : ℕ) (ns : List ℕ) → mem n (n ∷ ns) ≡ true
mem_head n ns = ground arith

pub mem_tail : (n v : ℕ) (ns : List ℕ) → mem v ns ≡ true → mem v (n ∷ ns) ≡ true
mem_tail n v ns m = ground arith

pub split_cons : (n v : ℕ) (ns : List ℕ) → mem v (n ∷ ns) ≡ true → (n ≡ v) ⊎ (mem v ns ≡ true)
split_cons n v ns m = ground arith
