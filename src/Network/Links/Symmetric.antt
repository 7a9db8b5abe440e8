-- ===== src/Network/Links/Symmetric.antt =====
-- The graph of the closed branches (`process_islands`, absorption.py) is made, and its edges are
-- the closed links, both ways.
use mathlib.Core.Option.{some-injective}
use grip_absorption_pipeline.Base.{
  ℕ, ◌≡◌, refl, sym, ap, ◌∙◌, inl, inr, ◌↔◌, Bool, true, false, ◌||◌, ◌&&◌, some, List, [], ◌∷◌,
  ◌++◌, nat_eq, nat_eq_iff, if◌then◌else◌, arith, Bool-cases,
}
use grip_absorption_pipeline.Base.Lists.{All}
use grip_absorption_pipeline.Base.Exec.{ok}
use grip_absorption_pipeline.Network.Sets.{mem, mem-union, mem-append}
use grip_absorption_pipeline.Network.Components.{
  Graph, Edge, Reach, here, step, neighbours, nodes_of,
}
use grip_absorption_pipeline.Network.Components.Group.{IsPick, IsUndirected}
use grip_absorption_pipeline.Network.Components.Partition.{
  group_count, IsComponent, get_components_partition,
}
use grip_absorption_pipeline.Network.Links.{
  Branch, ends_t, ends_f, supernodes, links, linked_to, net_of, components_of, new_islands,
}

-- No branch leads from a bus to the same bus.
abbrev pub AreProper : List (ℕ × ℕ) → Type 0
AreProper [] = Unit
AreProper ((t, f) ∷ ls) = (nat_eq t f ≡ false) × AreProper ls

-- one of the links joins u and v, in this order or the other
abbrev pub joins : ℕ → ℕ → List (ℕ × ℕ) → Bool
joins u v [] = false
joins u v ((t, f) ∷ ls) = (nat_eq t u && nat_eq f v) || ((nat_eq f u && nat_eq t v) || joins u v ls)

linked_to-ok :
    (n : ℕ) (ls : List (ℕ × ℕ))
    → AreProper ls
    → (ms : List ℕ) × (linked_to n ls ≡ ok ms) × ((v : ℕ) → mem v ms ≡ joins n v ls)
linked_to-ok n [] h = ([], refl, λ v. refl)
linked_to-ok n ((t, f) ∷ ls) h =
    let (ms, e, m) = linked_to-ok n ls h.1 in
    elim (Bool-cases (nat_eq t n)) [
      | inl at_t ↦ (f ∷ ms, ground (arith, e, h.0), λ v. ground (arith, m v, h.0))
      | inr not_t ↦ elim (Bool-cases (nat_eq f n)) [
        | inl at_f ↦ (t ∷ ms, ground (arith, e, h.0), λ v. ground (arith, m v, h.0))
        | inr not_f ↦ (ms, ground (arith, e, h.0), λ v. ground (arith, m v, h.0))
      ]
    ]

joins_sym : (u v : ℕ) (ls : List (ℕ × ℕ)) → joins u v ls ≡ joins v u ls
joins_sym u v [] = refl
joins_sym u v ((t, f) ∷ ls) = ground (arith, joins_sym u v ls)

net_of-ok :
    (ls : List (ℕ × ℕ)) (ns : List ℕ)
    → AreProper ls
    → (g : Graph) × (net_of ls ns ≡ ok g)
      × ((v : ℕ) → mem v (nodes_of g) ≡ mem v ns)
      × ((u : ℕ)
          → mem u ns ≡ true
          → (ms : List ℕ) × (neighbours u g ≡ some ms) × ((v : ℕ) → mem v ms ≡ joins u v ls))
      × ((u : ℕ) (ms : List ℕ) → neighbours u g ≡ some ms → mem u ns ≡ true)
net_of-ok ls [] h = ([], refl, (λ v. refl), (λ u m. ground arith), λ u ms e. ground arith)
net_of-ok ls (n ∷ ns) h =
    let (ms, e, m) = linked_to-ok n ls h in
    let (g, eg, same, reads, known) = net_of-ok ls ns h in
    (
      (n, ms) ∷ g,
      rw (e, eg) refl,
      (λ v. ground (arith, same v)),
      (λ u mu. elim (Bool-cases (nat_eq n u)) [
        | inl eq ↦ (ms, rw eq refl, λ v. m v ∙ ap (λ z. joins z v ls) ((nat_eq_iff n u).0 eq))
        | inr ne ↦ let (ks, ek, mk) = reads u (ground (arith, mu, ne)) in (ks, rw ne ek, mk)
      ]),
      λ u ks ek. elim (Bool-cases (nat_eq n u)) [
        | inl eq ↦ ground (arith, eq)
        | inr ne ↦ ground (arith, known u ks (rw ne at ek))
      ],
    )

joins_ends :
    (u v : ℕ) (rs : List Branch)
    → joins u v (links rs) ≡ true
    → (mem v (ends_t rs) || mem v (ends_f rs)) ≡ true
joins_ends u v [] h = ground arith
joins_ends u v (r ∷ rs) h = elim (Bool-cases r.st1) [
  | inl closed ↦ ground (arith, joins_ends u v rs, rw closed at h)
  | inr opened ↦ ground (arith, joins_ends u v rs (rw opened at h))
]

joins_inside :
    (u v : ℕ) (rs : List Branch) → joins u v (links rs) ≡ true → mem v (supernodes rs) ≡ true
joins_inside u v rs h =
    mem-union v [] (ends_t rs ++ ends_f rs)
    ∙ (mem-append v (ends_t rs) (ends_f rs) ∙ joins_ends u v rs h)

-- There is a way from u to v over closed branches.
pub data Connected (rs : List Branch) (u : ℕ) : ℕ → Type 0 where
  none_needed : Connected rs u u
  one_more : {v w : ℕ} → Connected rs u v → joins v w (links rs) ≡ true → Connected rs u w

-- The nodes that are connected with one of them.
abbrev pub IsIsland : List Branch → List ℕ → Type 0
IsIsland rs island =
    (root : ℕ) × (mem root (supernodes rs) ≡ true)
    × ((v : ℕ) → (mem v island ≡ true) ↔ Connected rs root v)

module _ (rs : List Branch) (g : Graph)
    (nodes : (v : ℕ) → mem v (nodes_of g) ≡ mem v (supernodes rs))
    (reads : (u : ℕ)
      → mem u (supernodes rs) ≡ true
      → (ms : List ℕ) × (neighbours u g ≡ some ms) × ((v : ℕ) → mem v ms ≡ joins u v (links rs)))
    (known : (u : ℕ) (ms : List ℕ) → neighbours u g ≡ some ms → mem u (supernodes rs) ≡ true) where
  Edge-joins : (u v : ℕ) → Edge g u v → joins u v (links rs) ≡ true
  Edge-joins u v (ms, e, m) =
      let (ks, ek, mk) = reads u (known u ms e) in
      sym (mk v) ∙ (ap (mem v) (some-injective _ _ (sym ek ∙ e)) ∙ m)

  joins-Edge : (u v : ℕ) → joins u v (links rs) ≡ true → Edge g u v
  joins-Edge u v j =
      let (ks, ek, mk) = reads u (joins_inside v u rs (joins_sym v u (links rs) ∙ j)) in
      (ks, ek, mk v ∙ j)

  net-IsUndirected : IsUndirected g
  net-IsUndirected = record {
    inside = λ u v e. nodes v ∙ joins_inside u v rs (Edge-joins u v e);
    back = λ u v e. joins-Edge v u (joins_sym v u (links rs) ∙ Edge-joins u v e);
  }

  Reach-Connected : (u v : ℕ) → Reach g u v → Connected rs u v
  Reach-Connected u _ here = none_needed
  Reach-Connected u w (step {v = v} r e) = one_more (Reach-Connected u v r) (Edge-joins v w e)

  Connected-Reach : (u v : ℕ) → Connected rs u v → Reach g u v
  Connected-Reach u _ none_needed = here
  Connected-Reach u w (one_more {v = v} c j) = step (Connected-Reach u v c) (joins-Edge v w j)

  All-IsIsland : (groups : List (List ℕ)) → All (IsComponent g) groups → All (IsIsland rs) groups
  All-IsIsland [] h = tt
  All-IsIsland (group ∷ groups) ((root, m, r), h) = (
    (
      root,
      sym (nodes root) ∙ m,
      λ v. (λ mv. Reach-Connected root v ((r v).0 mv), λ c. (r v).1 (Connected-Reach root v c)),
    ),
    All-IsIsland groups h,
  )

-- Where no closed branch leads from a bus to itself, the components that `process_islands`
-- computes are these, whichever element `pop` takes: every bus of the table is in exactly one
-- group and no other number is in any, and each group has exactly the buses that closed branches
-- connect with one of it.
pub new_islands-IsIsland :
    (pick : ℕ → List ℕ → ℕ) (rs : List Branch)
    → IsPick pick
    → AreProper (links rs)
    → (groups : List (List ℕ)) × (new_islands pick rs ≡ ok groups)
      × ((v : ℕ) → group_count v groups ≡ (if mem v (supernodes rs) then 1 else 0))
      × All (IsIsland rs) groups
unfolding new_islands
new_islands-IsIsland pick rs picks proper =
    let (g, eg, nodes, reads, known) = net_of-ok (links rs) (supernodes rs) proper in
    let (groups, e, count, all) =
      get_components_partition pick g picks (net-IsUndirected rs g nodes reads known) in
    (
      groups,
      ap (components_of pick) eg ∙ e,
      (λ v. count v ∙ ap (λ b. if b then 1 else 0) (nodes v)),
      All-IsIsland rs g nodes reads known groups all,
    )
