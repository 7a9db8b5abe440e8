-- ===== src/Network/Components/Group.antt =====
-- One run of `get_connected_group` (absorption.py): it ends, and collects the component of its root.
use grip_absorption_pipeline.Base.{
  ℕ, zero, suc, ◌≤◌, ◌≡◌, refl, sym, ◌∙◌, ◌⊎◌, inl, inr, true, false, not, ◌&&◌, ◌||◌, some, List,
  [], ◌∷◌, ◌++◌, arith, nat_eq, Bool-cases,
}
use mathlib.Core.Option.{some-injective}
use grip_absorption_pipeline.Base.Lists.{length}
use grip_absorption_pipeline.Base.Exec.{ok}
use grip_absorption_pipeline.Network.Sets.{
  mem, diff, remove, mem-diff, mem-union, mem-remove, mem-append, unseen, unseen-lt,
}
use grip_absorption_pipeline.Network.Components.{
  Graph, nodes_of, neighbours, Edge, Reach, here, step, next_nodes, group_loop, get_connected_group,
}

-- What the code asks of `pop`: it takes a member.
pub record IsPick (pick : ℕ → List ℕ → ℕ) : Type 0 where
  pub member : (x : ℕ) (xs : List ℕ) → mem (pick x xs) (x ∷ xs) ≡ true

-- Every neighbour is a node, and edges go both ways.
pub record IsUndirected (g : Graph) : Type 0 where
  pub inside : (u v : ℕ) → Edge g u v → mem v (nodes_of g) ≡ true
  pub back : (u v : ℕ) → Edge g u v → Edge g v u

neighbours_of_node :
    (u : ℕ) (g : Graph) → mem u (nodes_of g) ≡ true → (ns : List ℕ) × (neighbours u g ≡ some ns)
neighbours_of_node u [] h = cc
neighbours_of_node u ((n, ns) ∷ g) h = elim (Bool-cases (nat_eq n u)) [
  | inl same ↦ (ns, rw same)
  | inr other ↦ let (ms, e) = neighbours_of_node u g (rw other at h) in (ms, rw other e)
]

unseen-nil : (g : Graph) (seen : List ℕ) → unseen (nodes_of g) seen ≤ length g
unseen-nil [] seen = omega arith
unseen-nil ((n, ns) ∷ g) seen = ground (arith, unseen-nil g seen)

mem-next_nodes :
    (v u : ℕ) (ys ns seen : List ℕ)
    → mem v (next_nodes (remove u ys) ns seen)
      ≡ ((mem v ys && not (nat_eq u v)) || (mem v ns && not (mem v seen)))
mem-next_nodes v u ys ns seen =
    ground (arith, mem-union v (remove u ys) (diff ns seen), mem-remove v u ys, mem-diff v ns seen)

mem-concat : (v u : ℕ) (xs : List ℕ) → mem v (xs ++ u ∷ []) ≡ (mem v xs || nat_eq u v)
mem-concat v u xs = ground (arith, mem-append v xs (u ∷ []))

-- A member of the grown result is an old one, or the new node.
split_concat : (v u : ℕ) (xs : List ℕ) → mem v (xs ++ u ∷ []) ≡ true → (mem v xs ≡ true) ⊎ (u ≡ v)
split_concat v u xs m = ground (arith, mem-concat v u xs)

-- A node still to do is an old one, or a new neighbour.
split_next :
    (v u : ℕ) (ys ns seen : List ℕ)
    → mem v (next_nodes (remove u ys) ns (u ∷ seen)) ≡ true
    → (mem v ys ≡ true) × (nat_eq u v ≡ false) ⊎ (mem v ns ≡ true) × (mem v (u ∷ seen) ≡ false)
split_next v u ys ns seen m = ground (arith, mem-next_nodes v u ys ns (u ∷ seen))

-- What holds after a run from `root` with the nodes `seen0` marked before.
pub record IsGroup (g : Graph) (root : ℕ) (seen0 result seen : List ℕ) : Type 0 where
  pub marked : (v : ℕ) → mem v seen ≡ (mem v result || mem v seen0)
  pub fresh : (v : ℕ) → mem v result ≡ true → mem v seen0 ≡ false
  pub nodes : (v : ℕ) → mem v result ≡ true → mem v (nodes_of g) ≡ true
  pub sound : (v : ℕ) → mem v result ≡ true → Reach g root v
  pub closed : (u v : ℕ) → mem u result ≡ true → Edge g u v → mem v seen ≡ true
  pub rooted : mem root result ≡ true

near_of_Edge :
    (g : Graph) (u v : ℕ) (ns : List ℕ) → neighbours u g ≡ some ns → Edge g u v → mem v ns ≡ true
near_of_Edge g u v ns e (ms, e', m) = rw (some-injective _ _ (sym e' ∙ e)) at m

module _ (pick : ℕ → List ℕ → ℕ) (picks : IsPick pick) (g : Graph) (undirected : IsUndirected g)
    (root : ℕ) (seen0 : List ℕ) where
  record Inv (todo seen result : List ℕ) : Type 0 where
    marked : (v : ℕ) → mem v seen ≡ (mem v result || mem v seen0)
    fresh : (v : ℕ) → mem v result ≡ true → mem v seen0 ≡ false
    nodes : (v : ℕ) → mem v result ≡ true → mem v (nodes_of g) ≡ true
    sound : (v : ℕ) → mem v result ≡ true → Reach g root v
    todo_new : (v : ℕ) → mem v todo ≡ true → mem v seen ≡ false
    todo_nodes : (v : ℕ) → mem v todo ≡ true → mem v (nodes_of g) ≡ true
    todo_sound : (v : ℕ) → mem v todo ≡ true → Reach g root v
    closed : (u v : ℕ) → mem u result ≡ true → Edge g u v → (mem v seen || mem v todo) ≡ true
    rooted : (mem root result || mem root todo) ≡ true

  Inv-next :
      (x u : ℕ) (xs ns seen result : List ℕ)
      → mem u (x ∷ xs) ≡ true
      → neighbours u g ≡ some ns
      → Inv (x ∷ xs) seen result
      → Inv (next_nodes (remove u (x ∷ xs)) ns (u ∷ seen)) (u ∷ seen) (result ++ u ∷ [])
  Inv-next x u xs ns seen result at e h = record {
    marked = λ v. ground (arith, h.marked v, mem-concat v u result);
    fresh = λ v m. elim (split_concat v u result m) [
      | inl old ↦ h.fresh v old
      | inr same ↦ rw (← same) (ground (arith, h.todo_new u at, h.marked u))
    ];
    nodes = λ v m. elim (split_concat v u result m) [
      | inl old ↦ h.nodes v old
      | inr same ↦ rw (← same) (h.todo_nodes u at)
    ];
    sound = λ v m. elim (split_concat v u result m) [
      | inl old ↦ h.sound v old
      | inr same ↦ rw (← same) (h.todo_sound u at)
    ];
    todo_new = λ v m. elim (split_next v u (x ∷ xs) ns seen m) [
      | inl (old, other) ↦ rw other (h.todo_new v old)
      | inr (near, new) ↦ new
    ];
    todo_nodes = λ v m. elim (split_next v u (x ∷ xs) ns seen m) [
      | inl (old, other) ↦ h.todo_nodes v old
      | inr (near, new) ↦ undirected.inside u v (ns, e, near)
    ];
    todo_sound = λ v m. elim (split_next v u (x ∷ xs) ns seen m) [
      | inl (old, other) ↦ h.todo_sound v old
      | inr (near, new) ↦ step (h.todo_sound u at) (ns, e, near)
    ];
    closed = λ a v m edge. elim (split_concat a u result m) [
      | inl old ↦ ground (arith, h.closed a v old edge, mem-next_nodes v u (x ∷ xs) ns (u ∷ seen))
      | inr same ↦
          ground (
            arith,
            near_of_Edge g u v ns e (rw same edge),
            mem-next_nodes v u (x ∷ xs) ns (u ∷ seen),
          )
    ];
    rooted =
        ground
          (arith, h.rooted, mem-concat root u result, mem-next_nodes root u (x ∷ xs) ns (u ∷ seen));
  }

  group_loop_step :
      (fuel x : ℕ) (xs ns seen result : List ℕ)
      → neighbours (pick x xs) g ≡ some ns
      → group_loop pick g (suc fuel) (x ∷ xs) seen result
        ≡ group_loop pick g fuel
            (next_nodes (remove (pick x xs) (x ∷ xs)) ns (pick x xs ∷ seen))
            (pick x xs ∷ seen)
            (result ++ pick x xs ∷ [])
  unfolding group_loop
  group_loop_step fuel x xs ns seen result e = rw (e, group_loop)

  group_loop_ends :
      (fuel : ℕ) (todo seen result : List ℕ)
      → Inv todo seen result
      → unseen (nodes_of g) seen ≤ fuel
      → (r s : List ℕ) × (group_loop pick g fuel todo seen result ≡ ok (r, s)) × Inv [] s r
  unfolding group_loop
  group_loop_ends zero [] seen result h room = (result, seen, refl, h)
  group_loop_ends zero (x ∷ xs) seen result h room =
      let first : mem x (x ∷ xs) ≡ true = ground arith in
      absurd
        (omega (arith, unseen-lt (nodes_of g) seen x (h.todo_nodes x first) (h.todo_new x first)))
  group_loop_ends (suc fuel) [] seen result h room = (result, seen, refl, h)
  group_loop_ends (suc fuel) (x ∷ xs) seen result h room =
      let u : ℕ = pick x xs in
      let at : mem u (x ∷ xs) ≡ true = picks.member x xs in
      let (ns, e) = neighbours_of_node u g (h.todo_nodes u at) in
      let fewer = unseen-lt (nodes_of g) seen u (h.todo_nodes u at) (h.todo_new u at) in
      let (r, s, ends, inv) =
        group_loop_ends fuel (next_nodes (remove u (x ∷ xs)) ns (u ∷ seen)) (u ∷ seen)
          (result ++ u ∷ []) (Inv-next x u xs ns seen result at e h) (omega arith) in
      (r, s, group_loop_step fuel x xs ns seen result e ∙ ends, inv)

  Inv-start : mem root (nodes_of g) ≡ true → mem root seen0 ≡ false → Inv (root ∷ []) seen0 []
  Inv-start node new = record {
    marked = λ v. refl;
    fresh = λ v m. cc;
    nodes = λ v m. cc;
    sound = λ v m. cc;
    todo_new = λ v m. rw (← only v m) new;
    todo_nodes = λ v m. rw (← only v m) node;
    todo_sound = λ v m. rw (← only v m) here;
    closed = λ u v m edge. cc;
    rooted = ground arith;
  }
    where
      only : (v : ℕ) → mem v (root ∷ []) ≡ true → root ≡ v
      only v m = ground arith

  -- From a node that is not marked the loop ends, and the result is a group.
  pub get_connected_group_lem :
      mem root (nodes_of g) ≡ true
      → mem root seen0 ≡ false
      → (r s : List ℕ) × (get_connected_group pick g root seen0 ≡ ok (r, s))
        × IsGroup g root seen0 r s
  unfolding get_connected_group
  get_connected_group_lem node new =
      let (r, s, ends, inv) =
        group_loop_ends (length g) (root ∷ []) seen0 [] (Inv-start node new) (unseen-nil g seen0) in
      (
        r,
        s,
        ends,
        record {
          marked = inv.marked;
          fresh = inv.fresh;
          nodes = inv.nodes;
          sound = inv.sound;
          closed = λ u v m edge. ground (arith, inv.closed u v m edge);
          rooted = ground (arith, inv.rooted);
        },
      )
