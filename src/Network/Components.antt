-- ===== src/Network/Components.antt =====
-- `get_connected_group` and `get_components` (absorption.py): the connected components of a graph
-- that is given as a dict of sets. `nodes.pop()` takes any element: `pick` says which.
pub mod Group
pub mod Partition
use grip_absorption_pipeline.Base.{
  ℕ, zero, suc, ◌≡◌, Bool, true, Option, none, some, List, [], ◌∷◌, ◌++◌, nat_eq, if◌then◌else◌,
}
use grip_absorption_pipeline.Base.Lists.{length}
use grip_absorption_pipeline.Base.Exec.{Result, ok, err, key_error, out_of_fuel}
use grip_absorption_pipeline.Network.Sets.{mem, diff, union, remove}

-- `{node: {set of nodes node is connected to}}`
abbrev pub Graph : Type 0
Graph = List (ℕ × List ℕ)

abbrev pub nodes_of : Graph → List ℕ
nodes_of [] = []
nodes_of ((n, ns) ∷ g) = n ∷ nodes_of g

-- `graph[u]`, with `none` for the KeyError
abbrev pub neighbours : ℕ → Graph → Option (List ℕ)
neighbours u [] = none
neighbours u ((n, ns) ∷ g) = if nat_eq n u then some ns else neighbours u g

-- v is in graph[u].
abbrev pub Edge : Graph → ℕ → ℕ → Type 0
Edge g u v = (ns : List ℕ) × (neighbours u g ≡ some ns) × (mem v ns ≡ true)

-- There is a walk from u to v.
pub data Reach (g : Graph) (u : ℕ) : ℕ → Type 0 where
  here : Reach g u u
  step : {v w : ℕ} → Reach g u v → Edge g v w → Reach g u w

-- `graph[u] - already_seen`, put into the rest of `nodes`
abbrev pub next_nodes : List ℕ → List ℕ → List ℕ → List ℕ
next_nodes rest ns seen = union rest (diff ns seen)

module _ (pick : ℕ → List ℕ → ℕ) (g : Graph) where
  -- the `while nodes` loop: the result and `already_seen`
  pub group_loop : ℕ → List ℕ → List ℕ → List ℕ → Result (List ℕ × List ℕ)
  group_loop zero [] seen result = ok (result, seen)
  group_loop zero (x ∷ xs) seen result = err out_of_fuel
  group_loop (suc fuel) [] seen result = ok (result, seen)
  group_loop (suc fuel) (x ∷ xs) seen result =
      let u = pick x xs in
      elim (neighbours u g) [
        | none ↦ err key_error
        | some ns ↦
            group_loop fuel (next_nodes (remove u (x ∷ xs)) ns (u ∷ seen)) (u ∷ seen)
              (result ++ u ∷ [])
      ]

  -- Each round marks one more node of the graph.
  unfoldable pub get_connected_group : ℕ → List ℕ → Result (List ℕ × List ℕ)
  unfolding group_loop
  get_connected_group node seen = group_loop (length g) (node ∷ []) seen []

  -- the loop of `get_components`
  unfoldable pub components_loop : List ℕ → List ℕ → List (List ℕ) → Result (List (List ℕ))
  unfolding get_connected_group
  components_loop [] seen groups = ok groups
  components_loop (n ∷ ns) seen groups =
      let skipped = components_loop ns seen groups in
      if mem n seen then skipped else elim (get_connected_group n seen) [
        | err e ↦ err e
        | ok (group, seen') ↦ components_loop ns seen' (groups ++ group ∷ [])
      ]

  unfoldable pub get_components : Result (List (List ℕ))
  unfolding components_loop
  get_components = components_loop (nodes_of g) [] []
