-- ===== src/Base/Exec.antt =====
-- Python's statements: a state, and an exception that keeps what was written before it.
use Prim.Native.Nat.{ℕ}
use mathlib.Core.Path.{◌≡◌, ap, sym, subst}
use mathlib.Core.Option.{Option, none, some}

pub data Error : Type 0 where
  value_error zero_division_error key_error index_error type_error syntax_error attribute_error :
      Error
  assertion_error file_not_found overflow_error runtime_error name_error other_exception : Error
  -- `sys.exit(n)`
  system_exit : ℕ → Error
  -- no Python exception: the model's bound on recursion
  out_of_fuel : Error

pub data Result (A : Type 0) : Type 0 where
  ok : A → Result A
  err : Error → Result A

abbrev pub Exec : Type 0 → Type 0 → Type 0
Exec S A = S → Result A × S

module _ {S A : Type 0} where
  abbrev pub pure : A → Exec S A
  pure a s = (ok a, s)

  abbrev pub raise : Error → Exec S A
  raise e s = (err e, s)

  abbrev pub gets : (S → A) → Exec S A
  gets f s = (ok (f s), s)

  abbrev pub or_raise : Option A → Error → Exec S A
  or_raise none e s = (err e, s)
  or_raise (some a) e s = (ok a, s)

  abbrev pub lift : Result A → Exec S A
  lift r s = (r, s)

abbrev pub modify : {S : Type 0} → (S → S) → Exec S (Unit {0})
modify f s = (ok tt, f s)

abbrev pub continue : {S A B : Type 0} → (A → Exec S B) → Result A → Exec S B
continue f (ok a) s = f a s
continue f (err e) s = (err e, s)

infixl 5 ◌>>=◌ ◌>>◌
abbrev pub ◌>>=◌ : {S A B : Type 0} → Exec S A → (A → Exec S B) → Exec S B
◌>>=◌ m f s = continue f (m s).0 (m s).1

abbrev pub ◌>>◌ : {S A B : Type 0} → Exec S A → Exec S B → Exec S B
m >> k = m >>= λ _. k

-- `try: … except: …`, whose handler only prints
abbrev pub swallowed : {S : Type 0} → Result (Unit {0}) × S → Result (Unit {0}) × S
swallowed (ok a, s) = (ok a, s)
swallowed (err e, s) = (ok tt, s)

abbrev pub attempt : {S : Type 0} → Exec S (Unit {0}) → Exec S (Unit {0})
attempt m s = swallowed (m s)

-- A statement on a part of the state.
abbrev pub zoom : {S T A : Type 0} → (T → S) → (S → T → T) → Exec S A → Exec T A
zoom read write m t = let r = m (read t) in (r.0, write r.1 t)

-- How a statement goes on after a first part that is known.
pub >>=-ok :
    {S A B : Type 0} (m : Exec S A) (f : A → Exec S B) (s : S) {a : A} {s' : S}
    → m s ≡ (ok a, s')
    → (m >>= f) s ≡ f a s'
>>=-ok m f s e = ap (λ r. continue f r.0 r.1) e

pub >>=-err :
    {S A B : Type 0} (m : Exec S A) (f : A → Exec S B) (s : S) {x : Error} {s' : S}
    → m s ≡ (err x, s')
    → (m >>= f) s ≡ (err x, s')
>>=-err m f s e = ap (λ r. continue f r.0 r.1) e

-- What holds of the value and of the state, if the statement ends without an exception.
abbrev pub Ensures : {S A : Type 0} → (A → S → Type 0) → Result A × S → Type 0
Ensures P (ok a, s) = P a s
Ensures P (err e, s) = Unit

-- The statement ends without an exception, and then this holds.
abbrev pub Returns : {S A : Type 0} → (A → S → Type 0) → Result A × S → Type 0
Returns P (ok a, s) = P a s
Returns P (err e, s) = ⊥

module _ {S A B : Type 0} (P : A → S → Type 0) (Q : B → S → Type 0) (f : A → Exec S B) where
  continue-Ensures :
      (r : Result A) (s : S)
      → Ensures P (r, s)
      → ((a : A) (s' : S) → P a s' → Ensures Q (f a s'))
      → Ensures Q (continue f r s)
  continue-Ensures (ok a) s h k = k a s h
  continue-Ensures (err e) s h k = tt

  pub >>=-Ensures :
      (m : Exec S A) (s : S)
      → Ensures P (m s)
      → ((a : A) (s' : S) → P a s' → Ensures Q (f a s'))
      → Ensures Q ((m >>= f) s)
  >>=-Ensures m s h k = continue-Ensures (m s).0 (m s).1 h k

  continue-Returns :
      (r : Result A) (s : S)
      → Returns P (r, s)
      → ((a : A) (s' : S) → P a s' → Returns Q (f a s'))
      → Returns Q (continue f r s)
  continue-Returns (ok a) s h k = k a s h
  continue-Returns (err e) s h k = absurd h

  pub >>=-Returns :
      (m : Exec S A) (s : S)
      → Returns P (m s)
      → ((a : A) (s' : S) → P a s' → Returns Q (f a s'))
      → Returns Q ((m >>= f) s)
  >>=-Returns m s h k = continue-Returns (m s).0 (m s).1 h k

module _ {S A B : Type 0} (Q : B → S → Type 0) (f : A → Exec S B) where
  continue-Ensures_any :
      (r : Result A) (s : S) → ((a : A) (s' : S) → Ensures Q (f a s')) → Ensures Q (continue f r s)
  continue-Ensures_any (ok a) s k = k a s
  continue-Ensures_any (err e) s k = tt

  -- Where nothing is known of the first part.
  pub >>=-Ensures_any :
      (m : Exec S A) (s : S) → ((a : A) (s' : S) → Ensures Q (f a s')) → Ensures Q ((m >>= f) s)
  >>=-Ensures_any m s k = continue-Ensures_any (m s).0 (m s).1 k

pub Ensures-map :
    {S A : Type 0} {P Q : A → S → Type 0} (r : Result A × S)
    → Ensures P r
    → ((a : A) (s : S) → P a s → Q a s)
    → Ensures Q r
Ensures-map (ok a, s) h k = k a s h
Ensures-map (err e, s) h k = tt

-- A first part that is known to return.
pub >>=-Returns_eq :
    {S A B : Type 0} (Q : B → S → Type 0) (f : A → Exec S B) (m : Exec S A) (s : S) {a : A} {s' : S}
    → m s ≡ (ok a, s')
    → Returns Q (f a s')
    → Returns Q ((m >>= f) s)
>>=-Returns_eq Q f m s e h = subst (λ r. Returns Q (continue f r.0 r.1)) (sym e) h

pub Returns-map :
    {S A : Type 0} {P Q : A → S → Type 0} (r : Result A × S)
    → Returns P r
    → ((a : A) (s : S) → P a s → Q a s)
    → Returns Q r
Returns-map (ok a, s) h k = k a s h
Returns-map (err e, s) h k = absurd h

-- What holds if it returns, and that it returns.
pub Ensures-Returns :
    {S A : Type 0} (P Q : A → S → Type 0) (r : Result A × S)
    → Ensures P r
    → Returns Q r
    → Returns (λ a s. P a s × Q a s) r
Ensures-Returns P Q (ok a, s) h k = (h, k)
Ensures-Returns P Q (err e, s) h k = absurd k
