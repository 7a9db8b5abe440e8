-- ===== src/Network/Links.antt =====
-- The graph that `process_islands` (absorption.py) makes of the branches of the network, and its
-- components.
pub mod Symmetric
use grip_absorption_pipeline.Base.{
  ℕ, Bool, true, false, not, ◌||◌, Option, none, some, List, [], ◌∷◌, ◌++◌, nat_eq, if◌then◌else◌,
}
use grip_absorption_pipeline.Base.Exec.{Result, ok, err, index_error}
use grip_absorption_pipeline.Network.Sets.{mem, union}
use grip_absorption_pipeline.Network.Components.{Graph, get_components}

-- a row of the table `results`: the buses of a branch, and whether it is closed afterwards
pub record Branch : Type 0 where
  pub t : ℕ
  pub f : ℕ
  pub st1 : Bool

abbrev pub ends_t : List Branch → List ℕ
ends_t [] = []
ends_t (r ∷ rs) = r.t ∷ ends_t rs

abbrev pub ends_f : List Branch → List ℕ
ends_f [] = []
ends_f (r ∷ rs) = r.f ∷ ends_f rs

-- `set(list(results.t)+list(results.f))`
abbrev pub supernodes : List Branch → List ℕ
supernodes rs = union [] (ends_t rs ++ ends_f rs)

-- `[(t, f) for i in results.index if st1]`
abbrev pub links : List Branch → List (ℕ × ℕ)
links [] = []
links (r ∷ rs) = let rest = links rs in if r.st1 then (r.t, r.f) ∷ rest else rest

-- the first of `[l for l in [t, f] if l != n]`
abbrev pub other_end : ℕ → ℕ → ℕ → Option ℕ
other_end n t f = if not (nat_eq t n) then some t else if not (nat_eq f n) then some f else none

-- `net[n]` at the end: the other ends of the links at n; a link from n to n is an IndexError
abbrev pub add_end : Option ℕ → Result (List ℕ) → Result (List ℕ)
add_end none rest = err index_error
add_end (some m) (ok ms) = ok (m ∷ ms)
add_end (some m) (err e) = err e

abbrev pub linked_to : ℕ → List (ℕ × ℕ) → Result (List ℕ)
linked_to n [] = ok []
linked_to n ((t, f) ∷ ls) =
    let rest = linked_to n ls in
    if nat_eq t n || nat_eq f n then add_end (other_end n t f) rest else rest

abbrev pub add_node : ℕ → Result (List ℕ) → Result Graph → Result Graph
add_node n (ok ms) (ok g) = ok ((n, ms) ∷ g)
add_node n (err e) rest = err e
add_node n (ok ms) (err e) = err e

abbrev pub net_of : List (ℕ × ℕ) → List ℕ → Result Graph
net_of ls [] = ok []
net_of ls (n ∷ ns) = add_node n (linked_to n ls) (net_of ls ns)

abbrev pub components_of : (ℕ → List ℕ → ℕ) → Result Graph → Result (List (List ℕ))
components_of pick (err e) = err e
components_of pick (ok g) = get_components pick g

-- `new_islands` of `process_islands`
unfoldable pub new_islands : (ℕ → List ℕ → ℕ) → List Branch → Result (List (List ℕ))
new_islands pick rs = components_of pick (net_of (links rs) (supernodes rs))
