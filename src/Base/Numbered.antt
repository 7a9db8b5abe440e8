-- ===== src/Base/Numbered.antt =====
-- Python's `dict` with whole numbers as keys.
use grip_absorption_pipeline.Base.{
  ℕ, ◌≡◌, refl, Option, none, some, List, [], ◌∷◌, nat_eq, if◌then◌else◌, arith,
}

module _ {ℓ} {V : Type ℓ} where
  abbrev pub get_at : ℕ → List (ℕ × V) → Option V
  get_at k [] = none
  get_at k ((j, v) ∷ d) = if nat_eq j k then some v else get_at k d

  abbrev pub put_at : ℕ → V → List (ℕ × V) → List (ℕ × V)
  put_at k v [] = (k, v) ∷ []
  put_at k v ((j, w) ∷ d) = if nat_eq j k then (j, v) ∷ d else (j, w) ∷ put_at k v d

  pub get_at-put_at :
      (k j : ℕ) (v : V) (d : List (ℕ × V))
      → get_at j (put_at k v d) ≡ (if nat_eq k j then some v else get_at j d)
  get_at-put_at k j v [] = refl
  get_at-put_at k j v ((i, w) ∷ d) = ground (arith, get_at-put_at k j v d)
