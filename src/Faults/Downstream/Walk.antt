-- ===== src/Faults/Downstream/Walk.antt =====
-- The loop of `shutoff_noislanding` (absorption.py): it ends on a network without cycles, at
-- exactly the nodes behind the faulted one.
use grip_absorption_pipeline.Base.{
  ℕ, zero, suc, ◌<◌, String, ◌≡◌, refl, sym, subst, ◌∙◌, ◌↔◌, ◌⊎◌, inl, inr, Bool, true, List, [],
  ◌∷◌, ◌++◌, arith, eq_iff,
}
use grip_absorption_pipeline.Base.Dict.{listed}
use grip_absorption_pipeline.Base.Exec.{Returns, Returns-map, >>=-Returns_eq}
use grip_absorption_pipeline.Gridlab.{Gridlab}
use grip_absorption_pipeline.Faults.{Area}
use grip_absorption_pipeline.Faults.Downstream.{advance, walk}
use grip_absorption_pipeline.Faults.Downstream.Links.{
  or_true, listed-append, listed_head, ReadsStatus, nexts, Link, nexts-Link, Link-nexts,
  advance-nexts,
}

nothing_below : (k : ℕ) → k < 0 → ⊥
nothing_below k h = omega arith

module _ {Sim : Type 0} ⦃gld : Gridlab Sim⦄ (a : Area Sim) (closed : String → Bool)
    (branches : List String) where
  -- v is u, or behind it.
  pub data Behind (v : String) : String → Type 0 where
    same : Behind v v
    further : {u w : String} → Link a closed branches u w → Behind v w → Behind v u

  -- behind one of the nodes, and not only the node itself
  abbrev After : List String → String → Type 0
  After ns v =
      (u : String) × (w : String) × (listed u ns ≡ true) × Link a closed branches u w × Behind v w

  After-back :
      (ns : List String) (v : String)
      → (listed v (nexts a closed branches ns) ≡ true) ⊎ After (nexts a closed branches ns) v
      → After ns v
  After-back ns v (inl m) =
      let (u, mu, k) = nexts-Link a closed branches v ns m in (u, v, mu, k, same)
  After-back ns v (inr (w, x, mw, k', b)) =
      let (u, mu, k) = nexts-Link a closed branches w ns mw in (u, w, mu, k, further k' b)

  After-on :
      (ns : List String) (v u w : String)
      → listed u ns ≡ true
      → Link a closed branches u w
      → Behind v w
      → (listed v (nexts a closed branches ns) ≡ true) ⊎ After (nexts a closed branches ns) v
  After-on ns v u _ m k same = inl (Link-nexts a closed branches u v ns m k)
  After-on ns v u w m k (further {w = x} k' b) =
      inr (w, x, Link-nexts a closed branches u w ns m k, k', b)

  -- what a walk comes to, from the nodes that it has and those that are next
  abbrev Walked : List String → List String → List String → Area Sim → Type 0
  Walked turnoff next found b =
      (b ≡ a)
      × ((v : String) → (listed v found ≡ true) ↔ ((listed v turnoff ≡ true) ⊎ After next v))

  widen :
      (turnoff ns : List String) (v : String)
      → (listed v (nexts a closed branches ns) ≡ true) ⊎ After (nexts a closed branches ns) v
      → (listed v (turnoff ++ nexts a closed branches ns) ≡ true)
        ⊎ After (nexts a closed branches ns) v
  widen turnoff ns v (inl m) =
      inl (ground (arith, listed-append v turnoff (nexts a closed branches ns), m))
  widen turnoff ns v (inr k) = inr k

  Walked-back :
      (turnoff ns found : List String) (b : Area Sim)
      → Walked (turnoff ++ nexts a closed branches ns) (nexts a closed branches ns) found b
      → Walked turnoff ns found b
  Walked-back turnoff ns found b h = (
    h.0,
    λ v. (
      λ m. elim ((h.1 v).0 m) [
        | inl t ↦
            elim (or_true (listed v turnoff) (listed v (nexts a closed branches ns))
              (sym (listed-append v turnoff (nexts a closed branches ns)) ∙ t)) [
                | inl x ↦ inl x
                | inr y ↦ inr (After-back ns v (inl y))
              ]
        | inr k ↦ inr (After-back ns v (inr k))
      ],
      λ o. (h.1 v).1 (elim o [
        | inl t ↦ inl (ground (arith, listed-append v turnoff (nexts a closed branches ns), t))
        | inr (u, w, m, k, b') ↦ widen turnoff ns v (After-on ns v u w m k b')
      ]),
    ),
  )

  only : (u node : String) → listed u (node ∷ []) ≡ true → node ≡ u
  only u node m = ground (arith, eq_iff node u)

  One-Behind :
      (node v : String) → (listed v (node ∷ []) ≡ true) ⊎ After (node ∷ []) v → Behind v node
  One-Behind node v (inl m) = subst (Behind v) (sym (only v node m)) same
  One-Behind node v (inr (u, w, m, k, b)) = subst (Behind v) (sym (only u node m)) (further k b)

  Behind-One :
      (node v : String) → Behind v node → (listed v (node ∷ []) ≡ true) ⊎ After (node ∷ []) v
  Behind-One node _ same = inl (listed_head node [])
  Behind-One node v (further {w = w} k b) = inr (node, w, listed_head node [], k, b)

  module _ (reads : ReadsStatus a closed branches) (depth : String → ℕ)
      (falls : (u v : String) → Link a closed branches u v → depth v < depth u) where
    walk-Walked :
        (fuel : ℕ) (turnoff next : List String)
        → ((u : String) → listed u next ≡ true → depth u < fuel)
        → Returns (Walked turnoff next) (walk fuel branches turnoff next a)
    unfolding walk
    walk-Walked fuel turnoff [] low = (
      refl,
      λ v. (λ m. inl m, λ o. elim o [ inl m ↦ m | inr (u, w, m, _, _) ↦ ground (arith, m) ]),
    )
    walk-Walked zero turnoff (n ∷ ns) low =
        absurd (nothing_below (depth n) (low n (listed_head n ns)))
    walk-Walked (suc fuel) turnoff (n ∷ ns) low =
        >>=-Returns_eq _ (λ new_next. walk fuel branches (turnoff ++ new_next) new_next)
          (advance branches (n ∷ ns)) a (advance-nexts a closed branches reads (n ∷ ns))
          (Returns-map
            (walk fuel branches (turnoff ++ nexts a closed branches (n ∷ ns))
              (nexts a closed branches (n ∷ ns)) a)
            (walk-Walked fuel (turnoff ++ nexts a closed branches (n ∷ ns))
              (nexts a closed branches (n ∷ ns))
              (λ v m.
                let (u, mu, k) = nexts-Link a closed branches v (n ∷ ns) m in
                omega (arith, falls u v k, low u mu)))
            (Walked-back turnoff (n ∷ ns)))

    -- From one node, where the status of every branch in the list reads as CLOSED or OPEN and the
    -- closed ones lead to ever smaller depths, the loop returns with any fuel above the depth of the node, writes nothing,
    -- and gives exactly the node and what is behind it along closed links.
    pub walk-Behind :
        (fuel : ℕ) (node : String)
        → depth node < fuel
        → Returns
            (λ found b. (b ≡ a) × ((v : String) → (listed v found ≡ true) ↔ Behind v node))
            (walk fuel branches (node ∷ []) (node ∷ []) a)
    walk-Behind fuel node low =
        Returns-map (walk fuel branches (node ∷ []) (node ∷ []) a)
          (walk-Walked fuel (node ∷ []) (node ∷ [])
            (λ u m. subst (λ z. depth z < fuel) (only u node m) low))
          (λ found b h. (
            h.0,
            λ v. (λ m. One-Behind node v ((h.1 v).0 m), λ k. (h.1 v).1 (Behind-One node v k)),
          ))
