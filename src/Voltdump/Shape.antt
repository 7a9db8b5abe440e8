-- ===== src/Voltdump/Shape.antt =====
-- The columns that voltdump.py gathers (lines 13-42): what every file leaves behind.
use grip_absorption_pipeline.Base.{
  ℕ, zero, suc, ◌*◌, String, Bool, true, false, Option, none, some, List, [], ◌∷◌, ◌++◌, ◌≡◌, refl,
  ap, ◌∙◌, sym, arith, if◌then◌else◌,
}
use grip_absorption_pipeline.Base.Lists.{length, length-append, All}
use grip_absorption_pipeline.Base.Exec.{modify}
use grip_absorption_pipeline.Base.Keeps.{
  Keeps, keeps_rules, pure-Keeps, raise-Keeps, or_raise-Keeps, bind-Keeps, modify-Keeps,
}
use grip_absorption_pipeline.Num.{Num}
use grip_absorption_pipeline.Voltdump.{
  CsvRow, Complex, Times, Samples, Dump, dump_start, phases, clear_time, extend_time,
  alias_of_nodes, demand, note_time, read_mark, read_header, extend_nodes, extend_data, read_node,
  read_row, read_rows,
}

-- the columns of nodes
abbrev pub columns : List String → List String
columns [] = []
columns (name ∷ names) = phases name ++ columns names

pub columns-append : (xs ys : List String) → columns (xs ++ ys) ≡ columns xs ++ columns ys
columns-append [] ys = refl
columns-append (x ∷ xs) ys = ap (λ cs. phases x ++ cs) (columns-append xs ys)

-- three numbers for every row of the time
abbrev pub Threes : {F : Type 0} → List (Complex F) → Type 0
Threes vs = (k : ℕ) × (length vs ≡ 3 * k)

abbrev pub AllThrees : {F T : Type 0} → Samples F T → Type 0
AllThrees d = All (λ e. Threes e.1) d

pub record HasShape {F T : Type 0} (d : Dump F T) : Type 0 where
  pub names : List String
  pub nodes_eq : d.nodes ≡ "Timestamp" ∷ columns names
  pub threes : AllThrees d.data_of

choose-AllThrees :
    {F T : Type 0} (b : Bool) (c d : Samples F T)
    → AllThrees c
    → AllThrees d
    → AllThrees (if b then c else d)
choose-AllThrees true c d h k = h
choose-AllThrees false c d h k = k

Threes-append :
    {F : Type 0} (vs : List (Complex F)) (a b c : Complex F)
    → Threes vs
    → Threes (vs ++ a ∷ b ∷ c ∷ [])
Threes-append vs a b c (k, e) = (suc k, omega (arith, length-append vs (a ∷ b ∷ c ∷ []), e))

module _ {F T : Type 0} ⦃times : Times T⦄ where
  clear_time-AllThrees : (t : T) (d : Samples F T) → AllThrees d → AllThrees (clear_time t d)
  clear_time-AllThrees t [] h = ((0, refl), tt)
  clear_time-AllThrees t ((u, vs) ∷ d) (here, there) =
      choose-AllThrees (times.same u t) ((u, []) ∷ d) ((u, vs) ∷ clear_time t d) ((0, refl), there)
        (here, clear_time-AllThrees t d there)

  extend_time-AllThrees :
      (t : T) (a b c : Complex F) (d : Samples F T)
      → AllThrees d
      → AllThrees (extend_time t (a ∷ b ∷ c ∷ []) d)
  extend_time-AllThrees t a b c [] h = tt
  extend_time-AllThrees t a b c ((u, vs) ∷ d) (here, there) =
      choose-AllThrees (times.same u t) ((u, vs ++ a ∷ b ∷ c ∷ []) ∷ d)
        ((u, vs) ∷ extend_time t (a ∷ b ∷ c ∷ []) d) (Threes-append vs a b c here, there)
        (here, extend_time-AllThrees t a b c d there)

  -- a statement that writes no column
  modified-Keeps :
      (f : Dump F T → Dump F T)
      → ((d : Dump F T) → (f d).nodes ≡ d.nodes)
      → ((d : Dump F T) → AllThrees d.data_of → AllThrees ((f d).data_of))
      → Keeps HasShape (modify f)
  modified-Keeps f same kept =
      modify-Keeps f
        λ d h. record { names = h.names; nodes_eq = same d ∙ h.nodes_eq; threes = kept d h.threes }

  note_time-Keeps :
      (mark : String) (at : Option ℕ) → Keeps HasShape (note_time {F = F} {T = T} mark at)
  unfolding note_time
  note_time-Keeps mark none = pure-Keeps tt
  note_time-Keeps mark (some zero) = pure-Keeps tt
  note_time-Keeps mark (some (suc n)) =
      bind-Keeps _ _ (or_raise-Keeps _ _)
        λ t. modified-Keeps _ (λ d. refl) (λ d h. clear_time-AllThrees t d.data_of h)

  header-Keeps :
      (row : CsvRow) → Keeps HasShape (modify {S = Dump F T} (λ d. record d { header = some row }))
  header-Keeps row = modified-Keeps _ (λ d. refl) (λ d h. h)

  read_mark-Keeps : (mark : String) → Keeps HasShape (read_mark {F = F} {T = T} mark)
  unfolding read_mark
  read_mark-Keeps mark = bind-Keeps _ _ (note_time-Keeps mark _) λ u. header-Keeps []

  alias-Keeps :
      Keeps HasShape (modify {S = Dump F T} (λ d. record d { lastnodes = alias_of_nodes }))
  alias-Keeps = modified-Keeps _ (λ d. refl) (λ d h. h)

  demand-Keeps : (b : Bool) → Keeps HasShape (demand {F = F} {T = T} b)
  demand-Keeps true = pure-Keeps tt
  demand-Keeps false = raise-Keeps _

  read_header-Keeps : (row : CsvRow) → Keeps HasShape (read_header {F = F} {T = T} row)
  unfolding read_header
  read_header-Keeps row = search (keeps_rules, header-Keeps, alias-Keeps, demand-Keeps) depth 30

  extend_nodes-Keeps : (node : String) → Keeps HasShape (extend_nodes {F = F} {T = T} node)
  extend_nodes-Keeps node = modify-Keeps _ λ d h. record {
    names = h.names ++ node ∷ [];
    nodes_eq =
        ap (λ ns. ns ++ phases node) h.nodes_eq
        ∙ sym (ap (λ cs. "Timestamp" ∷ cs) (columns-append h.names (node ∷ [])));
    threes = h.threes;
  }

  extended-Keeps :
      (t : T) (a b c : Complex F)
      → Keeps HasShape (
          modify {S = Dump F T}
            (λ d. record d { data_of = extend_time t (a ∷ b ∷ c ∷ []) d.data_of }))
  extended-Keeps t a b c =
      modified-Keeps _ (λ d. refl) (λ d h. extend_time-AllThrees t a b c d.data_of h)

  extend_data-Keeps : (a b c : Complex F) → Keeps HasShape (extend_data {T = T} (a ∷ b ∷ c ∷ []))
  unfolding extend_data
  extend_data-Keeps a b c = search (keeps_rules, extended-Keeps) depth 30

  module _ ⦃num : Num F⦄ where
    read_node-Keeps : (row : CsvRow) → Keeps HasShape (read_node {F = F} {T = T} row)
    unfolding read_node
    read_node-Keeps row = search (keeps_rules, extend_nodes-Keeps, extend_data-Keeps) depth 60

    read_row-Keeps : (row : CsvRow) → Keeps HasShape (read_row {F = F} {T = T} row)
    unfolding read_row
    read_row-Keeps row =
        search (keeps_rules, read_mark-Keeps, read_header-Keeps, read_node-Keeps) depth 30

    read_rows-Keeps : (rows : List CsvRow) → Keeps HasShape (read_rows {F = F} {T = T} rows)
    unfolding read_rows
    read_rows-Keeps [] = pure-Keeps tt
    read_rows-Keeps (row ∷ rows) = bind-Keeps _ _ (read_row-Keeps row) λ u. read_rows-Keeps rows

-- However the reading of a dump ends, `nodes` is "Timestamp" and three columns for each node of a
-- list, and every time has a multiple of three numbers.
pub read_rows-HasShape :
    {F T : Type 0} ⦃times : Times T⦄ ⦃num : Num F⦄ (rows : List CsvRow)
    → HasShape ((read_rows {F = F} {T = T} rows dump_start).1)
read_rows-HasShape rows =
    (read_rows-Keeps rows).at dump_start (record { names = []; nodes_eq = refl; threes = tt })
