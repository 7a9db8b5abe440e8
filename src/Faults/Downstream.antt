-- ===== src/Faults/Downstream.antt =====
-- `shutoff_noislanding` (absorption.py): everything behind a faulted supernode is shut off.
pub mod Links
pub mod Walk
mod Tests
use grip_absorption_pipeline.Base.{
  ℕ, zero, suc, String, Bool, true, false, not, List, [], ◌∷◌, ◌++◌, ◌&&◌, ◌||◌, ◌==◌,
  if◌then◌else◌,
}
use grip_absorption_pipeline.Base.Dict.{Dict, get}
use grip_absorption_pipeline.Base.Text.{contains_text}
use grip_absorption_pipeline.Base.Exec.{
  Exec, pure, gets, or_raise, raise, key_error, out_of_fuel, ◌>>=◌, ◌>>◌,
}
use grip_absorption_pipeline.Gridlab.{Gridlab}
use grip_absorption_pipeline.Faults.{Area, value_of, find, shutoff_loads}

-- `switchstat`
abbrev pub switchstat : Dict Bool
switchstat = ("CLOSED", true) ∷ ("OPEN", false) ∷ []

abbrev pub if_closed : Bool → String → List String
if_closed true node = node ∷ []
if_closed false node = []

module _ {Sim : Type 0} ⦃gld : Gridlab Sim⦄ where
  -- the branches, of each class in the dict `branchkind`
  pub find_branches : Exec (Area Sim) (List String)
  find_branches = do
    switches ← find "class=switch"
    overhead ← find "class=overhead_line"
    underground ← find "class=underground_line"
    pure (switches ++ overhead ++ underground)

  -- `[br for br in branches if gridlabd.get_value(br,'from') == node]`
  abbrev pub links_from : Sim → String → List String → List String
  links_from sim node [] = []
  links_from sim node (br ∷ branches) =
      let rest = links_from sim node branches in
      if gld.get_value sim br "from" == node then br ∷ rest else rest

  -- the value of `openswitches` at first
  abbrev pub links_at : Sim → String → List String → List String
  links_at sim node [] = []
  links_at sim node (br ∷ branches) =
      let rest = links_at sim node branches in
      if gld.get_value sim br "to" == node || gld.get_value sim br "from" == node
      then br ∷ rest
      else rest

  -- `openswitches` at the end
  pub closed_only : Sim → List String → List String
  closed_only sim [] = []
  closed_only sim (s ∷ ss) =
      let rest = closed_only sim ss in
      if not (contains_text "solar" s)
        && (not (contains_text "battery" s) && gld.get_value sim s "status" == "CLOSED")
      then s ∷ rest
      else rest

  -- the loop over `to_next`, which gives `next_nodes`
  unfoldable pub follow : List String → Exec (Area Sim) (List String)
  follow [] = pure []
  follow (link ∷ links) = do
    status ← value_of link "status"
    closed ← or_raise (get status switchstat) key_error
    node ← value_of link "to"
    more ← follow links
    pure (if_closed closed node ++ more)

  -- the loop over `next`, which gives `new_next`, and adds the same nodes to `turnoff`
  unfoldable pub advance : List String → List String → Exec (Area Sim) (List String)
  advance branches [] = pure []
  advance branches (node ∷ nodes) = do
    to_next ← gets λ a. links_from a.sim node branches
    next_nodes ← follow to_next
    more ← advance branches nodes
    pure (next_nodes ++ more)

  -- the loop `while next`, which gives `turnoff`
  unfoldable pub walk : ℕ → List String → List String → List String → Exec (Area Sim) (List String)
  walk fuel branches turnoff [] = pure turnoff
  walk zero branches turnoff (n ∷ ns) = raise out_of_fuel
  walk (suc fuel) branches turnoff (n ∷ ns) = do
    new_next ← advance branches (n ∷ ns)
    walk fuel branches (turnoff ++ new_next) new_next

  unfoldable pub shutoff_each : List String → Exec (Area Sim) (Unit {0})
  shutoff_each [] = pure tt
  shutoff_each (node ∷ nodes) = shutoff_loads node >> shutoff_each nodes

  -- `shutoff_noislanding(faulted_node)`
  pub shutoff_noislanding : ℕ → String → Exec (Area Sim) (List String)
  shutoff_noislanding fuel faulted_node = do
    branches ← find_branches
    openswitches ← gets λ a. links_at a.sim faulted_node branches
    turnoff ← walk fuel branches (faulted_node ∷ []) (faulted_node ∷ [])
    shutoff_each turnoff
    gets λ a. closed_only a.sim openswitches
