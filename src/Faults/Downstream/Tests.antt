-- ===== src/Faults/Downstream/Tests.antt =====
-- Three supernodes in a row, the second link open, and the theorem about the walk applied to them.
use grip_absorption_pipeline.Base.{
  ℕ, String, ◌≡◌, ◌<◌, ◌↔◌, refl, subst, inl, inr, Bool, true, some, List, [], ◌∷◌, ◌==◌,
  if◌then◌else◌, arith, eq_iff,
}
use grip_absorption_pipeline.Base.Dict.{get, listed}
use grip_absorption_pipeline.Base.Exec.{Returns, ok}
use grip_absorption_pipeline.Sample.{Board, board}
use grip_absorption_pipeline.Faults.{Area}
use grip_absorption_pipeline.Faults.Downstream.{switchstat, follow, advance, walk}
use grip_absorption_pipeline.Faults.Downstream.Links.{ReadsStatus, Link, listed_cons}
use grip_absorption_pipeline.Faults.Downstream.Walk.{Behind, walk-Behind}

abbrev reading : String → String → String
reading o p =
    if o == "switch_1"
    then (if p == "status"
        then "CLOSED"
        else if p == "from"
        then "supernode_001"
        else "supernode_002")
    else (if p == "status"
        then (if o == "switch_2" then "OPEN" else "TOGGLE")
        else if p == "from"
        then "supernode_002"
        else "supernode_003")

abbrev area : Area Board
area = record {
  sim = record { names = []; properties = λ o. []; value = reading };
  faulted_nodes = [];
  device_map = some [];
  lines = [];
}

abbrev branches : List String
branches = "switch_1" ∷ "switch_2" ∷ []

abbrev closed : String → Bool
closed l = l == "switch_1"

abbrev depth : String → ℕ
depth u = if u == "supernode_001" then 1 else 0

walk-run :
    walk 2 branches ("supernode_001" ∷ []) ("supernode_001" ∷ []) area
    ≡ (ok ("supernode_001" ∷ "supernode_002" ∷ []), area)
unfolding walk advance follow
walk-run = refl

-- The scheme has a status of its own.
area-ReadsStatus : ReadsStatus area closed branches
area-ReadsStatus l m = elim (listed_cons "switch_1" l ("switch_2" ∷ []) m) [
  | inl first ↦ subst Reads first refl
  | inr later ↦ elim (listed_cons "switch_2" l [] later) [
    | inl second ↦ subst Reads second refl
    | inr none_left ↦ ground (arith, none_left)
  ]
]
  where
    Reads : String → Type 0
    Reads k = get (reading k "status") switchstat ≡ some (closed k)

depth-Link : (u v : String) → Link area closed branches u v → depth v < depth u
depth-Link u v k = at_first k.branch ((eq_iff k.branch "switch_1").0 k.is_closed) k.start k.stop
  where
    at_first :
        (l : String)
        → l ≡ "switch_1"
        → reading l "from" ≡ u
        → reading l "to" ≡ v
        → depth v < depth u
    at_first l e s t =
        let su : "supernode_001" ≡ u = subst (λ z. reading z "from" ≡ u) e s in
        let tv : "supernode_002" ≡ v = subst (λ z. reading z "to" ≡ v) e t in
        let start : depth "supernode_002" < depth "supernode_001" = omega arith in
        subst (λ z. depth v < depth z) su (subst (λ z. depth z < depth "supernode_001") tv start)

walk-Behind_example :
    Returns
      (λ found b.
        (b ≡ area)
        × ((v : String) → (listed v found ≡ true) ↔ Behind area closed branches v "supernode_001"))
      (walk 2 branches ("supernode_001" ∷ []) ("supernode_001" ∷ []) area)
walk-Behind_example =
    walk-Behind area closed branches area-ReadsStatus depth depth-Link 2 "supernode_001"
      (omega arith)
