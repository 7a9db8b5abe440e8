-- ===== src/Network/Components/Partition.antt =====
-- `get_components` (absorption.py): the groups are the connected components, each node in one.
use grip_absorption_pipeline.Base.{
  ℕ, ◌+◌, ◌≡◌, refl, ◌∙◌, ◌↔◌, inl, inr, true, false, List, [], ◌∷◌, ◌++◌, arith, if◌then◌else◌,
  Bool-cases,
}
use grip_absorption_pipeline.Base.Lists.{All, All-append}
use grip_absorption_pipeline.Base.Exec.{ok}
use grip_absorption_pipeline.Network.Sets.{mem, mem_head, mem_tail, split_cons}
use grip_absorption_pipeline.Network.Components.{
  Graph, nodes_of, Edge, Reach, here, step, get_connected_group, components_loop, get_components,
}
use grip_absorption_pipeline.Network.Components.Group.{
  IsPick, IsUndirected, IsGroup, get_connected_group_lem,
}

-- In how many of the groups a node is.
abbrev pub group_count : ℕ → List (List ℕ) → ℕ
group_count v [] = 0
group_count v (group ∷ groups) = (if mem v group then 1 else 0) + group_count v groups

group_count-append :
    (v : ℕ) (groups : List (List ℕ)) (group : List ℕ)
    → group_count v (groups ++ group ∷ []) ≡ group_count v groups + (if mem v group then 1 else 0)
group_count-append v [] group = omega arith
group_count-append v (g ∷ groups) group = omega (arith, group_count-append v groups group)

-- The nodes that some node of the graph reaches.
abbrev pub IsComponent : Graph → List ℕ → Type 0
IsComponent g group =
    (root : ℕ) × (mem root (nodes_of g) ≡ true) × ((v : ℕ) → (mem v group ≡ true) ↔ Reach g root v)

module _ (g : Graph) (undirected : IsUndirected g) where
  abbrev IsClosed : List ℕ → Type 0
  IsClosed seen = (u v : ℕ) → mem u seen ≡ true → Edge g u v → mem v seen ≡ true

  module _ (root : ℕ) (seen0 result seen : List ℕ) (h : IsGroup g root seen0 result seen)
      (before : IsClosed seen0) where
    result_closed : (u v : ℕ) → mem u result ≡ true → Edge g u v → mem v result ≡ true
    result_closed u v m edge = elim (Bool-cases (mem v seen0)) [
      | inl old ↦ cc (h.fresh u m, before v u old (undirected.back u v edge))
      | inr new ↦ ground (arith, h.closed u v m edge, h.marked v, new)
    ]

    result_complete : {v : ℕ} → Reach g root v → mem v result ≡ true
    result_complete here = h.rooted
    result_complete (step {v} {w} r edge) = result_closed v w (result_complete r) edge

    seen-IsClosed : IsClosed seen
    seen-IsClosed u v m edge = elim (Bool-cases (mem u result)) [
      | inl new ↦ h.closed u v new edge
      | inr old ↦
          let kept : mem u seen0 ≡ true = ground (arith, h.marked u, m, old) in
          ground (arith, h.marked v, before u v kept edge)
    ]

  record State (groups : List (List ℕ)) (seen : List ℕ) : Type 0 where
    counted : (v : ℕ) → group_count v groups ≡ (if mem v seen then 1 else 0)
    components : All (IsComponent g) groups
    closed : IsClosed seen
    nodes : (v : ℕ) → mem v seen ≡ true → mem v (nodes_of g) ≡ true

  State-take :
      (n : ℕ) (groups : List (List ℕ)) (seen group seen' : List ℕ)
      → mem n (nodes_of g) ≡ true
      → IsGroup g n seen group seen'
      → State groups seen
      → State (groups ++ group ∷ []) seen'
  State-take n groups seen group seen' node h s = record {
    counted =
        λ v. ground (arith, group_count-append v groups group, s.counted v, h.marked v, h.fresh v);
    components =
        All-append (IsComponent g) groups (group ∷ []) s.components
          ((n, node, λ v. (h.sound v, result_complete n seen group seen' h s.closed)), tt);
    closed = seen-IsClosed n seen group seen' h s.closed;
    nodes = λ v m. elim (Bool-cases (mem v group)) [
      | inl new ↦ h.nodes v new
      | inr old ↦ s.nodes v (ground (arith, h.marked v, m, old))
    ];
  }

module _ (pick : ℕ → List ℕ → ℕ) (picks : IsPick pick) (g : Graph)
    (undirected : IsUndirected g) where
  components_loop_skip :
      (n : ℕ) (ns seen : List ℕ) (groups : List (List ℕ))
      → mem n seen ≡ true
      → components_loop pick g (n ∷ ns) seen groups ≡ components_loop pick g ns seen groups
  unfolding components_loop
  components_loop_skip n ns seen groups e = rw e

  components_loop_take :
      (n : ℕ) (ns seen : List ℕ) (groups : List (List ℕ)) (group seen' : List ℕ)
      → mem n seen ≡ false
      → get_connected_group pick g n seen ≡ ok (group, seen')
      → components_loop pick g (n ∷ ns) seen groups
        ≡ components_loop pick g ns seen' (groups ++ group ∷ [])
  unfolding components_loop
  components_loop_take n ns seen groups group seen' new e = rw (new, e)

  record Final (ks seen : List ℕ) (groups : List (List ℕ)) : Type 0 where
    last : List ℕ
    state : State g undirected groups last
    keeps : (v : ℕ) → mem v seen ≡ true → mem v last ≡ true
    covers : (v : ℕ) → mem v ks ≡ true → mem v last ≡ true

  Final-skip :
      (n : ℕ) (ns seen : List ℕ) (out : List (List ℕ))
      → mem n seen ≡ true
      → Final ns seen out
      → Final (n ∷ ns) seen out
  Final-skip n ns seen out old f = record {
    last = f.last;
    state = f.state;
    keeps = f.keeps;
    covers = λ v m. elim (split_cons n v ns m) [
      | inl same ↦ f.keeps v (rw same at old)
      | inr later ↦ f.covers v later
    ];
  }

  Final-take :
      (n : ℕ) (ns seen group seen' : List ℕ) (out : List (List ℕ))
      → IsGroup g n seen group seen'
      → Final ns seen' out
      → Final (n ∷ ns) seen out
  Final-take n ns seen group seen' out h f = record {
    last = f.last;
    state = f.state;
    keeps = λ v m. f.keeps v (ground (arith, h.marked v));
    covers = λ v m. elim (split_cons n v ns m) [
      | inl same ↦ f.keeps v (rw (← same) (ground (arith, h.marked n, h.rooted)))
      | inr later ↦ f.covers v later
    ];
  }

  components_loop_ends :
      (ks seen : List ℕ) (groups : List (List ℕ))
      → ((v : ℕ) → mem v ks ≡ true → mem v (nodes_of g) ≡ true)
      → State g undirected groups seen
      → (out : List (List ℕ)) × (components_loop pick g ks seen groups ≡ ok out) × Final ks seen out
  components_loop_ends [] seen groups inside s = (
    groups,
    unfold components_loop in refl,
    record { last = seen; state = s; keeps = λ v m. m; covers = λ v m. cc },
  )
  components_loop_ends (n ∷ ns) seen groups inside s = elim (Bool-cases (mem n seen)) [
    | inl old ↦
        let (out, e, f) =
          components_loop_ends ns seen groups (λ v m. inside v (mem_tail n v ns m)) s in
        (out, components_loop_skip n ns seen groups old ∙ e, Final-skip n ns seen out old f)
    | inr new ↦
        let node = inside n (mem_head n ns) in
        let (group, seen', e1, h) =
          get_connected_group_lem pick picks g undirected n seen node new in
        let (out, e, f) =
          components_loop_ends ns seen' (groups ++ group ∷ []) (λ v m. inside v (mem_tail n v ns m))
            (State-take g undirected n groups seen group seen' node h s) in
        (
          out,
          components_loop_take n ns seen groups group seen' new e1 ∙ e,
          Final-take n ns seen group seen' out h f,
        )
  ]

-- On a graph whose edges go both ways, `get_components` returns, in whatever order `pop` takes the
-- nodes: each node of the graph is in exactly one group and no other number is in any, and each
-- group is the set of the nodes that some node reaches.
pub get_components_partition :
    (pick : ℕ → List ℕ → ℕ) (g : Graph)
    → IsPick pick
    → IsUndirected g
    → (groups : List (List ℕ)) × (get_components pick g ≡ ok groups)
      × ((v : ℕ) → group_count v groups ≡ (if mem v (nodes_of g) then 1 else 0))
      × All (IsComponent g) groups
unfolding get_components
get_components_partition pick g picks undirected =
    let (out, e, f) =
      components_loop_ends pick picks g undirected (nodes_of g) [] [] (λ v m. m)
        (record {
          counted = λ v. refl;
          components = tt;
          closed = λ u v m edge. cc;
          nodes = λ v m. cc;
        }) in
    (
      out,
      e,
      λ v. ground (arith, f.state.counted v, f.covers v, f.state.nodes v),
      f.state.components,
    )
