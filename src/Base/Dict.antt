-- ===== src/Base/Dict.antt =====
-- Python's `dict` with text keys, in insertion order.
use Prim.Native.String.{String}
use mathlib.Core.Path.{◌≡◌, refl, ◌∙◌, subst}
use mathlib.Core.Logic.{◌⊎◌, inl, inr}
use mathlib.Core.Bool.{Bool, true, false}
use mathlib.Core.Option.{Option, none, some}
use mathlib.Core.List.{List, [], ◌∷◌}
use native.Mathlib.Omega.{arith}
use text.Mathlib.Text.{◌==◌}
use text.Mathlib.TextEquality.{eq_iff}

abbrev pub Dict {ℓ} : Type ℓ → Type ℓ
Dict V = List (String × V)

-- the conditional of this file
abbrev choose {ℓ} : {A : Type ℓ} → Bool → A → A → A
choose true x y = x
choose false x y = y

-- `k in ks`
abbrev pub listed : String → List String → Bool
listed k [] = false
listed k (j ∷ js) = choose (j == k) true (listed k js)

Bool-cases : (b : Bool) → (b ≡ true) ⊎ (b ≡ false)
Bool-cases true = inl refl
Bool-cases false = inr refl

module _ {ℓ} {V : Type ℓ} where
  -- `d.get(k)`
  abbrev pub get : String → Dict V → Option V
  get k [] = none
  get k ((j, v) ∷ d) = choose (j == k) (some v) (get k d)

  -- `d[k] = v`: in place if the key is there, else at the end
  abbrev pub put : String → V → Dict V → Dict V
  put k v [] = (k, v) ∷ []
  put k v ((j, w) ∷ d) = choose (j == k) ((j, v) ∷ d) ((j, w) ∷ put k v d)

  -- `d.pop(k)`, of a key that is there
  abbrev pub pop : String → Dict V → Dict V
  pop k [] = []
  pop k ((j, w) ∷ d) = choose (j == k) d ((j, w) ∷ pop k d)

  abbrev pub keys : Dict V → List String
  keys [] = []
  keys ((j, w) ∷ d) = j ∷ keys d

  -- `d.values()`
  abbrev pub values : Dict V → List V
  values [] = []
  values ((j, w) ∷ d) = w ∷ values d

  pub get-put :
      (k j : String) (v : V) (d : Dict V) → get j (put k v d) ≡ choose (k == j) (some v) (get j d)
  get-put k j v [] = refl
  get-put k j v ((i, w) ∷ d) = ground (arith, eq_iff k j, eq_iff i k, eq_iff i j, get-put k j v d)

  -- Writing a key that is there changes no key.
  pub keys-put :
      (k : String) (v : V) {old : V} (d : Dict V) → get k d ≡ some old → keys (put k v d) ≡ keys d
  keys-put k v [] h = ground arith
  keys-put k v {old} ((j, w) ∷ d) h = ground (arith, keys-put k v {old = old} d)

  -- `k in d`
  abbrev pub contains : String → Dict V → Bool
  contains k d = listed k (keys d)

  pub contains_of_get : (k : String) {v : V} (d : Dict V) → get k d ≡ some v → contains k d ≡ true
  contains_of_get k [] h = ground arith
  contains_of_get k {v} ((j, w) ∷ d) h = ground (arith, contains_of_get k {v = v} d)

  pub get_of_contains :
      (k : String) (d : Dict V) → contains k d ≡ true → (v : V) × (get k d ≡ some v)
  get_of_contains k [] h = ground arith
  get_of_contains k ((j, w) ∷ d) h = elim (Bool-cases (j == k)) [
    | inl same ↦ (w, rw same refl)
    | inr other ↦ rw other (get_of_contains k d (ground (arith, other)))
  ]

  -- no key stands twice
  abbrev pub IsDict : Dict V → Type 0
  IsDict [] = Unit
  IsDict ((j, w) ∷ d) = (contains j d ≡ false) × IsDict d

  get_of_not_contains : (k : String) (d : Dict V) → contains k d ≡ false → get k d ≡ none
  get_of_not_contains k [] h = refl
  get_of_not_contains k ((j, w) ∷ d) h = ground (arith, get_of_not_contains k d)

  pub get-pop :
      (k j : String) (d : Dict V) → IsDict d → get j (pop k d) ≡ choose (k == j) none (get j d)
  get-pop k j [] h = ground arith
  get-pop k j ((i, w) ∷ d) h = elim (Bool-cases (i == k)) [
    | inl same ↦ elim (Bool-cases (k == j)) [
      | inl here ↦
          let gone : get j d ≡ none =
            get_of_not_contains j d
              (subst (λ z. contains z d ≡ false) ((eq_iff i k).0 same ∙ (eq_iff k j).0 here) h.0) in
          ground (arith, same, here, gone)
      | inr there ↦ ground (arith, same, there, eq_iff i k, eq_iff i j, eq_iff k j)
    ]
    | inr other ↦ ground (arith, other, get-pop k j d h.1, eq_iff i k, eq_iff i j, eq_iff k j)
  ]

  not_contains-pop :
      (j k : String) (d : Dict V) → contains j d ≡ false → contains j (pop k d) ≡ false
  not_contains-pop j k [] h = h
  not_contains-pop j k ((i, w) ∷ d) h = ground (arith, not_contains-pop j k d)

  pub pop-IsDict : (k : String) (d : Dict V) → IsDict d → IsDict (pop k d)
  pop-IsDict k [] h = tt
  pop-IsDict k ((i, w) ∷ d) h = elim (Bool-cases (i == k)) [
    | inl same ↦ rw same h.1
    | inr other ↦ rw other (not_contains-pop i k d h.0, pop-IsDict k d h.1)
  ]
