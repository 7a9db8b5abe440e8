-- ===== src/Base/Outcomes.antt =====
-- What holds after a statement, by how it ends: with a value or with an exception.
use grip_absorption_pipeline.Base.Exec.{Exec, Result, ok, err, continue, ◌>>=◌}
use grip_absorption_pipeline.Base.Keeps.{Keeps}

abbrev pub Outcome : {S A : Type 0} → (A → S → Type 0) → (S → Type 0) → Result A × S → Type 0
Outcome P E (ok a, s) = P a s
Outcome P E (err e, s) = E s

-- The statement ends with an exception.
abbrev pub Raises : {S A : Type 0} → Result A × S → Type 0
Raises r = Outcome (λ _ _. ⊥) (λ _. Unit) r

module _ {S : Type 0} (E : S → Type 0) where
  -- From `Pre`, the statement ends in `Post`, or with an exception in `E`.
  abbrev pub Leads : {A : Type 0} → (S → Type 0) → (A → S → Type 0) → Exec S A → Type 0
  Leads Pre Post m = (s : S) → Pre s → Outcome Post E (m s)

  pub bind-Leads :
      {A B : Type 0} (Pre : S → Type 0) (Mid : A → S → Type 0) (Post : B → S → Type 0)
      (m : Exec S A) (f : A → Exec S B)
      → Leads Pre Mid m
      → ((a : A) → Leads (Mid a) Post (f a))
      → Leads Pre Post (m >>= f)
  bind-Leads {A} {B} Pre Mid Post m f h k s i = go (m s).0 (m s).1 (h s i)
    where
      go : (r : Result A) (t : S) → Outcome Mid E (r, t) → Outcome Post E (continue f r t)
      go (ok a) t j = k a t j
      go (err e) t j = j

  -- A statement that leaves an assertion as it is.
  pub Keeps-Leads :
      {A : Type 0} (Pre : S → Type 0) (m : Exec S A)
      → Keeps Pre m
      → ((s : S) → Pre s → E s)
      → Leads Pre (λ _. Pre) m
  Keeps-Leads {A} Pre m h k s i = go (m s).0 (m s).1 (h.at s i)
    where
      go : (r : Result A) (t : S) → Pre t → Outcome (λ _. Pre) E (r, t)
      go (ok a) t j = j
      go (err e) t j = k t j

pub Outcome-map :
    {S A : Type 0} {P Q : A → S → Type 0} {E E' : S → Type 0} (r : Result A × S)
    → Outcome P E r
    → ((a : A) (s : S) → P a s → Q a s)
    → ((s : S) → E s → E' s)
    → Outcome Q E' r
Outcome-map (ok a, s) h k l = k a s h
Outcome-map (err e, s) h k l = l s h
