-- ===== src/Control/Islands.antt =====
-- `islanding` and `process_islands` (absorption.py). The optimisation server is an argument: what
-- it answers to the data that it is sent, or none where the call fails.
pub mod Virtual
use grip_absorption_pipeline.Base.{
  ℕ, String, Bool, true, false, not, Option, none, some, List, [], ◌∷◌, ◌++◌, ◌&&◌, map,
  if◌then◌else◌,
}
use grip_absorption_pipeline.Base.Decimal.{first_digits, int_of}
use grip_absorption_pipeline.Base.Dict.{Dict, listed}
use grip_absorption_pipeline.Base.Exec.{
  Exec, pure, gets, or_raise, lift, modify, key_error, attribute_error, runtime_error, ◌>>=◌, ◌>>◌,
}
use grip_absorption_pipeline.Num.{Num}
use grip_absorption_pipeline.Gridlab.{Gridlab}
use grip_absorption_pipeline.Faults.{assign, find, toggle_switches}
use grip_absorption_pipeline.Network.Sets.{mem}
use grip_absorption_pipeline.Network.Links.{Branch, new_islands}
use grip_absorption_pipeline.ServerData.Tables.{get_islanding_data}
use grip_absorption_pipeline.ServerData.Buses.{name_back}
use grip_absorption_pipeline.Control.{Island, Control, in_area}
use grip_absorption_pipeline.Control.Houses.{supernode_of}

-- a row of the table that the server answers with: a branch, and whether it was closed and is to be
pub record ServerRow : Type 0 where
  pub id : String
  pub t : ℕ
  pub f : ℕ
  pub st00 : Bool
  pub st1 : Bool

-- `results.t = […]` and `results.f = […]`
abbrev pub with_ends : List ServerRow → List ℕ → List ℕ → List ServerRow
with_ends [] ts fs = []
with_ends (r ∷ rs) [] fs = []
with_ends (r ∷ rs) (t ∷ ts) [] = []
with_ends (r ∷ rs) (t ∷ ts) (f ∷ fs) = record r { t = t; f = f } ∷ with_ends rs ts fs

-- `results.loc[results.st00!=results.st1,'id']`
abbrev pub differ : Bool → Bool → Bool
differ true b = not b
differ false b = b

abbrev pub to_toggle : List ServerRow → List String
to_toggle [] = []
to_toggle (r ∷ rs) = let rest = to_toggle rs in if differ r.st00 r.st1 then r.id ∷ rest else rest

abbrev pub branch_of : ServerRow → Branch
branch_of r = record { t = r.t; f = r.f; st1 = r.st1 }

-- the condition on an island that is kept; get_components gives no group without a node
abbrev pub is_kept : ℕ → List String → Island → Bool
is_kept swing_sn faulted_nodes [] = false
is_kept swing_sn faulted_nodes (n ∷ ns) =
    not (mem swing_sn (n ∷ ns)) && not (listed (supernode_of n) faulted_nodes)

-- `virtual_islands`
abbrev pub kept : ℕ → List String → List Island → List Island
kept swing_sn faulted_nodes [] = []
kept swing_sn faulted_nodes (i ∷ is) =
    let rest = kept swing_sn faulted_nodes is in
    if is_kept swing_sn faulted_nodes i then i ∷ rest else rest

module _ {F Sim : Type 0} ⦃num : Num F⦄ ⦃gld : Gridlab Sim⦄ where
  -- `islanding(t,faulted_nodes)`
  unfoldable pub islanding :
      (Dict String → Option (List ServerRow)) → List String → Exec (Control F Sim) (List ServerRow)
  islanding server faulted_nodes = do
    (data_, back) ← in_area (get_islanding_data F faulted_nodes)
    rows ← or_raise (server data_) runtime_error
    ts ← or_raise (name_back back (map (λ r. r.t) rows)) key_error
    fs ← or_raise (name_back back (map (λ r. r.f) rows)) key_error
    pure (with_ends rows ts fs)

  -- the inverters of an island that is cut off
  unfoldable pub mark_inverters : Island → List String → Exec (Control F Sim) (Unit {0})
  mark_inverters island [] = pure tt
  mark_inverters island (i ∷ is) = do
    number ← or_raise (first_digits i) attribute_error
    if mem (int_of number) island then in_area (assign i "islanded_state" "TRUE") else pure tt
    mark_inverters island is

  unfoldable pub mark_islands : List String → List Island → Exec (Control F Sim) (Unit {0})
  mark_islands inverters [] = pure tt
  mark_islands inverters (island ∷ islands) = do
    swing_sn ← gets λ c. c.swing_sn
    if mem swing_sn island then pure tt else mark_inverters island inverters
    mark_islands inverters islands

  -- `process_islands(t,results)`: the inverters are marked and the islands are kept in one loop, of
  -- which neither part uses what the other writes.
  unfoldable pub process_islands :
      (ℕ → List ℕ → ℕ) → List ServerRow → Exec (Control F Sim) (List Island)
  process_islands pick rows = do
    in_area (toggle_switches (to_toggle rows))
    islands ← lift (new_islands pick (map branch_of rows))
    inverters ← in_area (find "class=inverter")
    mark_islands inverters islands
    gets λ c. kept c.swing_sn c.faulted_nodes islands
