-- ===== src/Base/Neutral.antt =====
-- Statements that only read the state.
use grip_absorption_pipeline.Base.{
  ◌≡◌, refl, ◌∙◌, Bool, true, false, Option, none, some, if◌then◌else◌,
}
use grip_absorption_pipeline.Base.Exec.{
  Error, Exec, Result, ok, err, or_raise, continue, ◌>>=◌, Ensures,
}

module _ {S : Type 0} where
  abbrev pub IsNeutral : {A : Type 0} → Exec S A → Type 0
  IsNeutral k = (s : S) → (k s).1 ≡ s

  pub or_raise-IsNeutral : {A : Type 0} (o : Option A) (e : Error) → IsNeutral (or_raise o e)
  or_raise-IsNeutral none e s = refl
  or_raise-IsNeutral (some x) e s = refl

  continue-IsNeutral :
      {A B : Type 0} (f : A → Exec S B)
      → ((x : A) → IsNeutral (f x))
      → (r : Result A) (s : S) → (continue f r s).1 ≡ s
  continue-IsNeutral f h (ok x) s = h x s
  continue-IsNeutral f h (err e) s = refl

  pub bind-IsNeutral :
      {A B : Type 0} (k : Exec S A) (f : A → Exec S B)
      → IsNeutral k
      → ((x : A) → IsNeutral (f x))
      → IsNeutral (k >>= f)
  bind-IsNeutral k f h h' s = continue-IsNeutral f h' (k s).0 (k s).1 ∙ h s

  pub if-IsNeutral :
      {A : Type 0} (b : Bool) (k l : Exec S A)
      → IsNeutral k
      → IsNeutral l
      → IsNeutral (if b then k else l)
  if-IsNeutral true k l h h' s = h s
  if-IsNeutral false k l h h' s = h' s

  -- What a neutral statement returns is what it returns.
  pub neutral-Ensures :
      {A : Type 0} (k : Exec S A) (s : S)
      → IsNeutral k
      → Ensures (λ x b. (b ≡ s) × ((k s).0 ≡ ok x)) (k s)
  neutral-Ensures k s h = shown (k s).0 (k s).1 s (h s)
    where
      shown :
          {A : Type 0} (r : Result A) (b s : S)
          → b ≡ s
          → Ensures (λ x b'. (b' ≡ s) × (r ≡ ok x)) (r, b)
      shown (ok x) b s e = (e, refl)
      shown (err x) b s e = tt
