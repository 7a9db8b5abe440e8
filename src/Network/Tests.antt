-- ===== src/Network/Tests.antt =====
-- Components of a small network, and the theorems about them applied to it.
use grip_absorption_pipeline.Base.{
  ℕ, ◌≡◌, refl, true, false, List, [], ◌∷◌, ◌⊎◌, inl, inr, arith, if◌then◌else◌,
}
use grip_absorption_pipeline.Base.Lists.{All}
use grip_absorption_pipeline.Base.Exec.{ok}
use grip_absorption_pipeline.Network.Sets.{mem}
use grip_absorption_pipeline.Network.Components.{Graph, Edge, nodes_of, get_components}
use grip_absorption_pipeline.Network.Links.{Branch, supernodes, new_islands}
use grip_absorption_pipeline.Network.Links.Symmetric.{IsIsland, new_islands-IsIsland}
use grip_absorption_pipeline.Network.Components.Group.{IsPick, IsUndirected}
use grip_absorption_pipeline.Network.Components.Partition.{
  group_count, IsComponent, get_components_partition,
}

-- 101 and 103 are linked, 102 stands alone.
abbrev net : Graph
net = (101, 103 ∷ []) ∷ (102, []) ∷ (103, 101 ∷ []) ∷ []

abbrev first : ℕ → List ℕ → ℕ
first x xs = x

first-IsPick : IsPick first
first-IsPick = record { member = λ x xs. ground arith }

net_edges : (u v : ℕ) → Edge net u v → (u ≡ 101) × (v ≡ 103) ⊎ (u ≡ 103) × (v ≡ 101)
net_edges u v (ns, e, m) = ground arith

net-IsUndirected : IsUndirected net
net-IsUndirected = record {
  inside = λ u v edge. elim (net_edges u v edge) [
    | inl (eu, ev) ↦ rw ev refl
    | inr (eu, ev) ↦ rw ev refl
  ];
  back = λ u v edge. elim (net_edges u v edge) [
    | inl (eu, ev) ↦ (101 ∷ [], rw ev refl, rw eu refl)
    | inr (eu, ev) ↦ (103 ∷ [], rw ev refl, rw eu refl)
  ];
}

get_components-run : get_components first net ≡ ok ((101 ∷ 103 ∷ []) ∷ (102 ∷ []) ∷ [])
unfolding get_components
get_components-run = refl

get_components_partition_example :
    (groups : List (List ℕ)) × (get_components first net ≡ ok groups)
    × ((v : ℕ) → group_count v groups ≡ (if mem v (nodes_of net) then 1 else 0))
    × All (IsComponent net) groups
get_components_partition_example = get_components_partition first net first-IsPick net-IsUndirected

-- The branch between 101 and 103 is closed, that between 103 and 102 is open.
abbrev rows : List Branch
rows = record { t = 101; f = 103; st1 = true } ∷ record { t = 103; f = 102; st1 = false } ∷ []

new_islands-run : new_islands first rows ≡ ok ((101 ∷ 103 ∷ []) ∷ (102 ∷ []) ∷ [])
unfolding new_islands get_components
new_islands-run = refl

new_islands-IsIsland_example :
    (groups : List (List ℕ)) × (new_islands first rows ≡ ok groups)
    × ((v : ℕ) → group_count v groups ≡ (if mem v (supernodes rows) then 1 else 0))
    × All (IsIsland rows) groups
new_islands-IsIsland_example = new_islands-IsIsland first rows first-IsPick (refl, tt)
