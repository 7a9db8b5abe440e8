-- ===== src/Faults/Downstream/Links.antt =====
-- What one round of the loop of `shutoff_noislanding` (absorption.py) finds: the nodes at the other
-- ends of the closed links.
use grip_absorption_pipeline.Base.{
  String, ◌≡◌, refl, sym, ap, ◌∙◌, ◌⊎◌, inl, inr, Bool, true, false, ◌&&◌, ◌||◌, Option, some, List,
  [], ◌∷◌, ◌++◌, ◌==◌, arith, eq_iff, Bool-cases,
}
use grip_absorption_pipeline.Base.Dict.{get, listed}
use grip_absorption_pipeline.Base.Exec.{ok, pure, or_raise, key_error, ◌>>=◌}
use grip_absorption_pipeline.Gridlab.{Gridlab}
use grip_absorption_pipeline.Faults.{Area, value_of}
use grip_absorption_pipeline.Faults.Downstream.{switchstat, links_from, if_closed, follow, advance}

pub or_true : (a b : Bool) → (a || b) ≡ true → (a ≡ true) ⊎ (b ≡ true)
or_true true b h = inl refl
or_true false b h = inr h

pub listed-append :
    (x : String) (xs ys : List String) → listed x (xs ++ ys) ≡ (listed x xs || listed x ys)
listed-append x [] ys = refl
listed-append x (n ∷ xs) ys = ground (arith, listed-append x xs ys)

listed-if_closed :
    (v n : String) (c : Bool) → listed v (if_closed c n) ≡ true → (c ≡ true) × (n ≡ v)
listed-if_closed v n true h = (refl, ground (arith, h, eq_iff n v))
listed-if_closed v n false h = ground arith

pub listed_head : (x : String) (xs : List String) → listed x (x ∷ xs) ≡ true
listed_head x xs = ground (arith, eq_iff x x)

pub listed_tail : (n x : String) (xs : List String) → listed x xs ≡ true → listed x (n ∷ xs) ≡ true
listed_tail n x xs h = ground arith

pub listed_cons :
    (n x : String) (xs : List String) → listed x (n ∷ xs) ≡ true → (n ≡ x) ⊎ (listed x xs ≡ true)
listed_cons n x xs h = ground (arith, eq_iff n x)

module _ {Sim : Type 0} ⦃gld : Gridlab Sim⦄ (a : Area Sim) (closed : String → Bool) where
  abbrev from_of : String → String
  from_of l = gld.get_value a.sim l "from"

  abbrev to_of : String → String
  to_of l = gld.get_value a.sim l "to"

  -- The status of every branch in the list reads as CLOSED or OPEN.
  abbrev pub ReadsStatus : List String → Type 0
  ReadsStatus branches =
      (l : String)
      → listed l branches ≡ true
      → get (gld.get_value a.sim l "status") switchstat ≡ some (closed l)

  abbrev goals : List String → List String
  goals [] = []
  goals (l ∷ ls) = if_closed (closed l) (to_of l) ++ goals ls

  listed-goals :
      (v : String) (ls : List String)
      → listed v (goals ls) ≡ true
      → (l : String) × (listed l ls ≡ true) × (closed l ≡ true) × (to_of l ≡ v)
  listed-goals v [] h = ground arith
  listed-goals v (l ∷ ls) h =
      elim (or_true (listed v (if_closed (closed l) (to_of l))) (listed v (goals ls))
        (sym (listed-append v (if_closed (closed l) (to_of l)) (goals ls)) ∙ h)) [
          | inl now ↦
              let (c, e) = listed-if_closed v (to_of l) (closed l) now in
              (l, listed_head l ls, c, e)
          | inr later ↦
              let (k, m, c, e) = listed-goals v ls later in (k, listed_tail l k ls m, c, e)
        ]

  goals-listed :
      (v l : String) (ls : List String)
      → listed l ls ≡ true
      → closed l ≡ true
      → to_of l ≡ v
      → listed v (goals ls) ≡ true
  goals-listed v l [] m c e = ground arith
  goals-listed v l (k ∷ ls) m c e =
      listed-append v (if_closed (closed k) (to_of k)) (goals ls) ∙ elim (listed_cons k l ls m) [
        | inl eq ↦
            let ck : closed k ≡ true = ap closed eq ∙ c in
            let ek : to_of k ≡ v = ap to_of eq ∙ e in rw ck (ground (arith, eq_iff (to_of k) v, ek))
        | inr later ↦ ground (arith, goals-listed v l ls later c e)
      ]

  follow-goals : (ls : List String) → ReadsStatus ls → follow ls a ≡ (ok (goals ls), a)
  unfolding follow
  follow-goals [] reads = refl
  follow-goals (l ∷ ls) reads =
      follow_one (get (gld.get_value a.sim l "status") switchstat) (closed l)
        (reads l (listed_head l ls)) (follow-goals ls (λ k m. reads k (listed_tail l k ls m)))
    where
      follow_one :
          (o : Option Bool) (c : Bool)
          → o ≡ some c
          → follow ls a ≡ (ok (goals ls), a)
          → (or_raise o key_error >>= λ c'.
                value_of l "to" >>= λ node. follow ls >>= λ more. pure (if_closed c' node ++ more))
              a
            ≡ (ok (if_closed c (to_of l) ++ goals ls), a)
      follow_one o c e rest = rw (e, rest) refl

  module _ (branches : List String) where
    abbrev pub nexts : List String → List String
    nexts [] = []
    nexts (n ∷ ns) = goals (links_from a.sim n branches) ++ nexts ns

    listed-links_from :
        (l u : String) (ls : List String)
        → listed l (links_from a.sim u ls) ≡ (listed l ls && (from_of l == u))
    listed-links_from l u [] = ground arith
    listed-links_from l u (k ∷ ls) = elim (Bool-cases (k == l)) [
      | inl eq ↦ rw ((eq_iff k l).0 eq) (ground (arith, listed-links_from l u ls, eq_iff l l))
      | inr other ↦ ground (arith, listed-links_from l u ls, other)
    ]

    links_from-ReadsStatus :
        ReadsStatus branches → (n : String) → ReadsStatus (links_from a.sim n branches)
    links_from-ReadsStatus reads n l m =
        reads l
          (both (listed l branches) (from_of l == n) (sym (listed-links_from l n branches) ∙ m))
      where
        both : (x y : Bool) → (x && y) ≡ true → x ≡ true
        both true y e = refl
        both false y e = e

    pub advance-nexts :
        ReadsStatus branches → (ns : List String) → advance branches ns a ≡ (ok (nexts ns), a)
    unfolding advance
    advance-nexts reads [] = refl
    advance-nexts reads (n ∷ ns) =
        rw
          (
            follow-goals (links_from a.sim n branches) (links_from-ReadsStatus reads n),
            advance-nexts reads ns,
          )
          refl

    -- a closed link from u to v
    pub record Link (u v : String) : Type 0 where
      pub branch : String
      pub member : listed branch branches ≡ true
      pub start : from_of branch ≡ u
      pub is_closed : closed branch ≡ true
      pub stop : to_of branch ≡ v

    pub nexts-Link :
        (v : String) (ns : List String)
        → listed v (nexts ns) ≡ true
        → (u : String) × (listed u ns ≡ true) × Link u v
    nexts-Link v [] h = ground arith
    nexts-Link v (n ∷ ns) h =
        elim (or_true (listed v (goals (links_from a.sim n branches))) (listed v (nexts ns))
          (sym (listed-append v (goals (links_from a.sim n branches)) (nexts ns)) ∙ h)) [
            | inl now ↦
                let (l, m, c, e) = listed-goals v (links_from a.sim n branches) now in
                let both = sym (listed-links_from l n branches) ∙ m in
                (
                  n,
                  listed_head n ns,
                  record {
                    branch = l;
                    member = ground (arith, both);
                    start = (eq_iff (from_of l) n).0 (ground (arith, both));
                    is_closed = c;
                    stop = e;
                  },
                )
            | inr later ↦ let (u, m, k) = nexts-Link v ns later in (u, listed_tail n u ns m, k)
          ]

    pub Link-nexts :
        (u v : String) (ns : List String)
        → listed u ns ≡ true
        → Link u v
        → listed v (nexts ns) ≡ true
    Link-nexts u v [] m k = ground arith
    Link-nexts u v (n ∷ ns) m k =
        listed-append v (goals (links_from a.sim n branches)) (nexts ns)
        ∙ elim (listed_cons n u ns m) [
          | inl eq ↦
              let first =
                goals-listed v k.branch (links_from a.sim n branches)
                  (listed-links_from k.branch n branches
                    ∙ (ground (arith, k.member, eq_iff (from_of k.branch) n, k.start ∙ sym eq)))
                  k.is_closed k.stop in
              ground (arith, first)
          | inr later ↦ ground (arith, Link-nexts u v ns later k)
        ]
