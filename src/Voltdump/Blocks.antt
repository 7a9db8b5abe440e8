-- ===== src/Voltdump/Blocks.antt =====
-- A dump as GridLAB-D writes it, a block of rows for each time, read by voltdump.py (lines 13-42).
pub mod Read
use grip_absorption_pipeline.Base.{
  ℕ, suc, ◌+◌, String, true, false, Option, some, List, [], ◌∷◌, ◌++◌, ◌≡◌, refl, ap, ◌∙◌, sym,
  subst, inl, inr, Bool-cases, eq_iff, arith, if◌then◌else◌,
}
use Prim.Native.String.{◌++◌ as str_append}
use mathlib.Core.List.{append_assoc, append-nil}
use grip_absorption_pipeline.Base.Lists.{All}
use grip_absorption_pipeline.Base.Text.{starts_with, position, slice}
use grip_absorption_pipeline.Base.Dict.{listed}
use grip_absorption_pipeline.Base.Exec.{Result, ok, err, continue, ◌>>◌, >>=-ok, Returns}
use grip_absorption_pipeline.Num.{Num}
use grip_absorption_pipeline.Voltdump.{
  CsvRow, Complex, Times, TimesLaws, Samples, Dump, LastNodes, no_nodes, alias_of_nodes,
  voltage_header, phases, rows_eq, clear_time, extend_time, has_time, note_time, read_mark,
  read_header, extend_data, read_node, read_row, read_rows,
}

-- a row of a node, with what `float` makes of its cells
pub record Reading (F : Type 0) : Type 0 where
  pub name : String
  pub a_re : String
  pub a_im : String
  pub b_re : String
  pub b_im : String
  pub c_re : String
  pub c_im : String
  pub a : Complex F
  pub b : Complex F
  pub c : Complex F

pub record Block (F T : Type 0) : Type 0 where
  -- the row that starts with `#`
  pub mark : String
  pub time : T
  pub readings : List (Reading F)

module _ {F : Type 0} where
  abbrev pub row_of : Reading F → CsvRow
  row_of r = r.name ∷ r.a_re ∷ r.a_im ∷ r.b_re ∷ r.b_im ∷ r.c_re ∷ r.c_im ∷ []

  abbrev pub reading_rows : List (Reading F) → List CsvRow
  reading_rows [] = []
  reading_rows (r ∷ rs) = row_of r ∷ reading_rows rs

  abbrev pub voltages : List (Reading F) → List (Complex F)
  voltages [] = []
  voltages (r ∷ rs) = r.a ∷ r.b ∷ r.c ∷ voltages rs

  abbrev pub names_of : List (Reading F) → List String
  names_of [] = []
  names_of (r ∷ rs) = r.name ∷ names_of rs

  abbrev pub IsReading : ⦃num : Num F⦄ → Reading F → Type 0
  IsReading ⦃num⦄ r =
      (starts_with "#" r.name ≡ false)
      × (num.float r.a_re ≡ some r.a.0)
      × (num.float r.a_im ≡ some r.a.1)
      × (num.float r.b_re ≡ some r.b.0)
      × (num.float r.b_im ≡ some r.b.1)
      × (num.float r.c_re ≡ some r.c.0)
      × (num.float r.c_im ≡ some r.c.1)

module _ {F T : Type 0} where
  abbrev pub block_rows : Block F T → List CsvRow
  block_rows b = (b.mark ∷ []) ∷ voltage_header ∷ reading_rows b.readings

  abbrev pub dump_rows : List (Block F T) → List CsvRow
  dump_rows [] = []
  dump_rows (b ∷ bs) = block_rows b ++ dump_rows bs

  abbrev pub entry : Block F T → T × List (Complex F)
  entry b = (b.time, voltages b.readings)

  abbrev pub entries : List (Block F T) → Samples F T
  entries [] = []
  entries (b ∷ bs) = entry b ∷ entries bs

  pub record IsBlock ⦃num : Num F⦄ ⦃times : Times T⦄ (b : Block F T) : Type 0 where
    pub is_mark : starts_with "#" b.mark ≡ true
    pub at : ℕ
    pub at_eq : position " at " b.mark ≡ some (suc at)
    pub time_eq : times.strptime (slice (suc at + 4) 23 b.mark) ≡ some b.time
    pub are_readings : All IsReading b.readings

  -- no time of a block stands twice
  abbrev pub IsApart : ⦃times : Times T⦄ → Samples F T → List (Block F T) → Type 0
  IsApart done [] = Unit
  IsApart done (b ∷ bs) = (has_time b.time done ≡ false) × IsApart (done ++ entry b ∷ []) bs

-- the columns after rows of nodes
abbrev pub grown : List String → List String → List String
grown nodes [] = nodes
grown nodes (name ∷ names) =
    grown (if listed (str_append name "_A") nodes then nodes else nodes ++ phases name) names

abbrev pub all_grown : {F T : Type 0} → List String → List (Block F T) → List String
all_grown nodes [] = nodes
all_grown nodes (b ∷ bs) = all_grown (grown nodes (names_of b.readings)) bs

-- what the reading of a dump has left
abbrev pub HasRead : {F T : Type 0} → Samples F T → List String → Unit {0} → Dump F T → Type 0
HasRead samples nodes u d = (d.data_of ≡ samples) × (d.nodes ≡ nodes)
