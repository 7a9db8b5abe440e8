-- ===== src/Base/Keeps.antt =====
-- The rules of Base.Preserves, for `search`: a record stands for the function.
use grip_absorption_pipeline.Base.{Option, Bool, if◌then◌else◌}
use grip_absorption_pipeline.Base.Exec.{
  Error, Exec, pure, raise, gets, or_raise, modify, attempt, ◌>>=◌,
}
use grip_absorption_pipeline.Base.Preserves.{
  Preserves, or_raise-Preserves, bind-Preserves, if-Preserves, attempt-Preserves,
}

pub record Keeps {S A : Type 0} (Inv : S → Type 0) (m : Exec S A) : Type 0 where
  pub at : Preserves Inv m

module _ {S : Type 0} {Inv : S → Type 0} where
  pub pure-Keeps : {A : Type 0} (a : A) → Keeps Inv (pure a)
  pure-Keeps a = record { at = λ s h. h }

  pub gets-Keeps : {A : Type 0} (f : S → A) → Keeps Inv (gets f)
  gets-Keeps f = record { at = λ s h. h }

  pub raise-Keeps : {A : Type 0} (e : Error) → Keeps Inv (raise {A = A} e)
  raise-Keeps e = record { at = λ s h. h }

  pub or_raise-Keeps : {A : Type 0} (o : Option A) (e : Error) → Keeps Inv (or_raise o e)
  or_raise-Keeps o e = record { at = or_raise-Preserves Inv o e }

  pub bind-Keeps :
      {A B : Type 0} (m : Exec S A) (f : A → Exec S B)
      → Keeps Inv m
      → ((a : A) → Keeps Inv (f a))
      → Keeps Inv (m >>= f)
  bind-Keeps m f h k = record { at = bind-Preserves Inv m f h.at λ a. (k a).at }

  pub if-Keeps :
      {A : Type 0} (b : Bool) (m n : Exec S A)
      → Keeps Inv m
      → Keeps Inv n
      → Keeps Inv (if b then m else n)
  if-Keeps b m n h k = record { at = if-Preserves Inv b m n h.at k.at }

  pub modify-Keeps : (f : S → S) → ((s : S) → Inv s → Inv (f s)) → Keeps Inv (modify f)
  modify-Keeps f h = record { at = h }

  pub attempt-Keeps : (m : Exec S (Unit {0})) → Keeps Inv m → Keeps Inv (attempt m)
  attempt-Keeps m h = record { at = attempt-Preserves Inv m h.at }

pub ruleset keeps_rules = (
  pure-Keeps, gets-Keeps, raise-Keeps, or_raise-Keeps, bind-Keeps, if-Keeps, modify-Keeps,
  attempt-Keeps,
)
