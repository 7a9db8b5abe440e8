-- ===== src/Base/Preserves.antt =====
-- Statements that preserve an invariant of the state: one rule for each form.
use grip_absorption_pipeline.Base.{sym, subst, Bool, true, false, Option, none, some, if◌then◌else◌}
use grip_absorption_pipeline.Base.Exec.{
  Error, Exec, Result, ok, err, pure, or_raise, modify, zoom, attempt, swallowed, continue, ◌>>=◌,
  ◌>>◌, Ensures,
}
use grip_absorption_pipeline.Base.Neutral.{IsNeutral}

module _ {S : Type 0} (Inv : S → Type 0) where
  -- If the statement returns, or raises, the invariant holds afterwards.
  abbrev pub Preserves : {A : Type 0} → Exec S A → Type 0
  Preserves m = (s : S) → Inv s → Inv (m s).1

  pub pure-Preserves : {A : Type 0} (a : A) → Preserves (pure {S = S} a)
  pure-Preserves a s h = h

  pub or_raise-Preserves : {A : Type 0} (o : Option A) (e : Error) → Preserves (or_raise o e)
  or_raise-Preserves none e s h = h
  or_raise-Preserves (some a) e s h = h

  pub neutral-Preserves : {A : Type 0} (m : Exec S A) → IsNeutral m → Preserves m
  neutral-Preserves m n s h = subst Inv (sym (n s)) h

  pub bind-Preserves :
      {A B : Type 0} (m : Exec S A) (f : A → Exec S B)
      → Preserves m
      → ((a : A) → Preserves (f a))
      → Preserves (m >>= f)
  bind-Preserves {A} m f h k s i = go (m s).0 (m s).1 (h s i)
    where
      go : (r : Result A) (t : S) → Inv t → Inv ((continue f r t).1)
      go (ok a) t j = k a t j
      go (err e) t j = j

  pub then-Preserves :
      {A B : Type 0} (m : Exec S A) (n : Exec S B) → Preserves m → Preserves n → Preserves (m >> n)
  then-Preserves m n h k = bind-Preserves m (λ _. n) h (λ _. k)

  pub if-Preserves :
      {A : Type 0} (b : Bool) (m n : Exec S A)
      → Preserves m
      → Preserves n
      → Preserves (if b then m else n)
  if-Preserves true m n h k s i = h s i
  if-Preserves false m n h k s i = k s i

  pub attempt-Preserves : (m : Exec S (Unit {0})) → Preserves m → Preserves (attempt m)
  attempt-Preserves m h s i = go (m s).0 (m s).1 (h s i)
    where
      go : (r : Result (Unit {0})) (t : S) → Inv t → Inv (swallowed (r, t)).1
      go (ok a) t j = j
      go (err e) t j = j

  pub Preserves-Ensures :
      {A : Type 0} (m : Exec S A) (s : S) → Preserves m → Inv s → Ensures (λ _ t. Inv t) (m s)
  Preserves-Ensures {A} m s h i = go (m s).0 (m s).1 (h s i)
    where
      go : (r : Result A) (t : S) → Inv t → Ensures (λ _ t'. Inv t') (r, t)
      go (ok a) t j = j
      go (err e) t j = tt

  pub modify-Preserves : (f : S → S) → ((s : S) → Inv s → Inv (f s)) → Preserves (modify f)
  modify-Preserves f h s i = h s i

  -- a statement on a part of the state that the invariant does not read
  pub zoom-Preserves :
      {T A : Type 0} (read : S → T) (write : T → S → S)
      → ((t : T) (s : S) → Inv s → Inv (write t s))
      → (m : Exec T A) → Preserves (zoom read write m)
  zoom-Preserves read write h m s i = h (m (read s)).1 s i
