-- ===== src/ServerData/Tables.antt =====
-- The numbering of the buses, the tables, and `get_islanding_data` (absorption.py).
use grip_absorption_pipeline.Base.{
  ℕ, String, Option, none, some, List, [], ◌∷◌, ◌++◌, map, ◌==◌, if◌then◌else◌,
}
use grip_absorption_pipeline.Base.Decimal.{first_digits, decimal}
use grip_absorption_pipeline.Base.Dict.{Dict}
use grip_absorption_pipeline.Base.Exec.{
  Exec, pure, raise, or_raise, key_error, attribute_error, ◌>>=◌, ◌>>◌,
}
use grip_absorption_pipeline.Num.{Num}
use grip_absorption_pipeline.Gridlab.{Gridlab}
use grip_absorption_pipeline.Faults.{Area, value_of, find, supernodes_in}
use grip_absorption_pipeline.ServerData.Buses.{busmap, renumber, mapback, set_of}
use grip_absorption_pipeline.ServerData.{
  BranchRow, GenRow, BatRow, ShuntRow, convert, branch_data, shunt_data, gen_rows, bat_rows,
  swing_rows,
}

-- `branch_df.loc[branch_df.t!=branch_df.f,:]`, with the names
abbrev pub proper : Dict BranchRow → Dict BranchRow
proper [] = []
proper ((bid, r) ∷ rest) = let more = proper rest in if r.t == r.f then more else (bid, r) ∷ more

-- the columns t and f
abbrev pub column_t : Dict BranchRow → List String
column_t [] = []
column_t ((bid, r) ∷ rest) = r.t ∷ column_t rest

abbrev pub column_f : Dict BranchRow → List String
column_f [] = []
column_f ((bid, r) ∷ rest) = r.f ∷ column_f rest

-- `set(list(branch_df.t)+list(branch_df.f))`
abbrev pub buses_of : Dict BranchRow → List String
buses_of rows = set_of (column_t rows ++ column_f rows)

-- the numbers of the buses of the faulted nodes
abbrev pub digits_each : List String → Option (List String)
digits_each [] = some []
digits_each (n ∷ ns) = elim (first_digits n) [
  | none ↦ none
  | some d ↦ elim (digits_each ns) [ none ↦ none | some ds ↦ some (d ∷ ds) ]
]

-- the branches, and the numbers of their ends
pub record BranchTable : Type 0 where
  pub rows : Dict BranchRow
  pub t : List ℕ
  pub f : List ℕ
  pub numbers : List (ℕ × ℕ)

-- the tables, after the buses are numbered, and the map back
pub record Tables (F : Type 0) : Type 0 where
  pub branches : BranchTable
  pub gens : Dict (GenRow F)
  pub gen_bus : List ℕ
  pub bats : Dict (BatRow F)
  pub bat_bus : List ℕ
  pub shunts : List (ShuntRow F)
  pub shunt_bus : List ℕ
  pub faulted : List ℕ

module _ {F : Type 0} ⦃num : Num F⦄ where
  -- `shunt_df.loc[shunt_df.P>0,:]`
  abbrev pub loaded : List (ShuntRow F) → List (ShuntRow F)
  loaded [] = []
  loaded (r ∷ rs) = let rest = loaded rs in if num.lt (num.lit 0) r.p then r ∷ rest else rest

module _ {Sim : Type 0} where
  -- a column of a table that was made of these rows
  abbrev pub columns_of : {A : Type 0} → List A → Exec (Area Sim) (Unit {0})
  columns_of [] = raise attribute_error
  columns_of (r ∷ rs) = pure tt

  abbrev pub numbered : List (ℕ × ℕ) → List String → Exec (Area Sim) (List ℕ)
  numbered numbers column = or_raise (renumber numbers column) key_error

  unfoldable pub number_branches : Dict BranchRow → Exec (Area Sim) BranchTable
  number_branches all_branches = do
    columns_of all_branches
    let rows = proper all_branches
    let numbers = busmap (buses_of rows)
    t ← numbered numbers (column_t rows)
    f ← numbered numbers (column_f rows)
    pure (record { rows = rows; t = t; f = f; numbers = numbers })

module _ {F Sim : Type 0} ⦃num : Num F⦄ where
  -- the second half: the tables, and the numbers of the buses
  unfoldable pub make_tables :
      Dict BranchRow
      → Dict (GenRow F)
      → Dict (BatRow F)
      → List (ShuntRow F)
      → List String
      → Exec (Area Sim) (Tables F)
  make_tables all_branches gens bats all_shunts faulted_nodes = do
    columns_of all_shunts
    let shunts = loaded all_shunts
    branches ← number_branches all_branches
    let numbers = branches.numbers
    columns_of gens
    gen_bus ← numbered numbers (map (λ e. e.1.bus) gens)
    columns_of bats
    bat_bus ← numbered numbers (map (λ e. e.1.bus) bats)
    shunt_bus ← numbered numbers (map (λ r. r.bus) shunts)
    fnodes ← or_raise (digits_each faulted_nodes) attribute_error
    faulted ← numbered numbers fnodes
    pure (record {
      branches = branches;
      gens = gens;
      gen_bus = gen_bus;
      bats = bats;
      bat_bus = bat_bus;
      shunts = shunts;
      shunt_bus = shunt_bus;
      faulted = faulted;
    })

module _ {F Sim : Type 0} ⦃num : Num F⦄ ⦃gld : Gridlab Sim⦄ where
  unfoldable pub read_network : List String → Exec (Area Sim) (Tables F)
  read_network faulted_nodes = do
    branches ← branch_data
    shunts ← shunt_data
    pvs ← find "class=solar"
    batteries ← find "class=battery"
    solar ← gen_rows [] pvs
    bats ← bat_rows [] batteries
    nodestr ← value_of "supernode_list" "node_group"
    gens ← swing_rows solar (supernodes_in nodestr)
    make_tables branches gens bats shunts faulted_nodes

module _ {F : Type 0} ⦃num : Num F⦄ where
  -- the dict `datadump`, field by field in the order of the loops
  unfoldable pub datadump : Tables F → Dict String
  datadump t =
      ("op", "islanding")
      ∷ ("branch_id", convert (map (λ e. e.0) t.branches.rows))
      ∷ ("branch_t", convert (map decimal t.branches.t))
      ∷ ("branch_f", convert (map decimal t.branches.f))
      ∷ ("branch_R", convert (map (λ e. "0") t.branches.rows))
      ∷ ("branch_X", convert (map (λ e. "0.1") t.branches.rows))
      ∷ ("branch_status", convert (map (λ e. decimal e.1.status) t.branches.rows))
      ∷ ("branch_kind", convert (map (λ e. e.1.kind) t.branches.rows))
      ∷ ("gen_bus", convert (map decimal t.gen_bus))
      ∷ ("gen_Pmin", convert (map (λ e. num.str e.1.p_min) t.gens))
      ∷ ("gen_Pmax", convert (map (λ e. num.str e.1.p_max) t.gens))
      ∷ ("gen_status", convert (map (λ e. decimal e.1.status) t.gens))
      ∷ ("gen_solar", convert (map (λ e. decimal e.1.solar) t.gens))
      ∷ ("bat_bus", convert (map decimal t.bat_bus))
      ∷ ("bat_Pmax", convert (map (λ e. num.str e.1.p_max) t.bats))
      ∷ ("bat_status", convert (map (λ e. decimal e.1.status) t.bats))
      ∷ ("bat_Emax", convert (map (λ e. num.str e.1.e_max) t.bats))
      ∷ ("bat_soc", convert (map (λ e. num.str e.1.soc) t.bats))
      ∷ ("shunt_bus", convert (map decimal t.shunt_bus))
      ∷ ("shunt_P", convert (map (λ r. num.str r.p) t.shunts))
      ∷ ("faulted_nodes", convert (map decimal t.faulted))
      ∷ []

module _ (F : Type 0) {Sim : Type 0} ⦃num : Num F⦄ ⦃gld : Gridlab Sim⦄ where
  -- `get_islanding_data(faulted_nodes)`
  unfoldable pub get_islanding_data : List String → Exec (Area Sim) (Dict String × List (ℕ × ℕ))
  get_islanding_data faulted_nodes = do
    t ← read_network {F = F} faulted_nodes
    pure (datadump t, mapback t.branches.numbers)
