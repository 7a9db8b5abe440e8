-- ===== src/Voltdump.antt =====
-- The voltage dump of GridLAB-D as voltdump.py reads and writes it again (lines 8-54): the rows of
-- volt_dump.csv, and in Write those of voltages.csv. The rows are those of the csv module, and the
-- times and the polar numbers are those of `datetime`, `cmath` and the `%` operator. An exception
-- while a time is read ends the script, so the text that `timestamp` holds until then is left out.
pub mod Write
pub mod Shape
pub mod Blocks
pub mod Columns
pub mod Powers
pub mod Tests
use Prim.Native.String.{◌++◌ as str_append}
use grip_absorption_pipeline.Base.{
  ℕ, zero, suc, ◌+◌, String, Bool, true, false, not, Option, none, some, List, [], ◌∷◌, ◌++◌, ◌==◌,
  ◌≡◌, if◌then◌else◌,
}
use grip_absorption_pipeline.Base.Text.{starts_with, position, slice}
use grip_absorption_pipeline.Base.Dict.{listed}
use grip_absorption_pipeline.Base.Exec.{
  Exec, pure, raise, gets, or_raise, modify, attempt, index_error, value_error, key_error,
  name_error, assertion_error, ◌>>=◌, ◌>>◌,
}
use grip_absorption_pipeline.Num.{Num}

abbrev pub CsvRow : Type 0
CsvRow = List String

-- a complex number by its parts
abbrev pub Complex : Type 0 → Type 0
Complex F = F × F

-- `datetime`, with the formats of the script
pub record Times (T : Type 0) : Type 0 where
  -- `strptime(text, "%Y-%m-%d %H:%M:%S %Z")`, with `none` for the ValueError
  pub strptime : String → Option T
  -- `==` and `<` of times
  pub same : T → T → Bool
  pub before : T → T → Bool
  -- `strftime("%Y-%m-%dT%H:%M:%S%z")`
  pub strftime : T → String

-- A time is equal to itself.
pub record TimesLaws (T : Type 0) ⦃times : Times T⦄ : Type 0 where
  pub same_refl : (t : T) → times.same t t ≡ true

-- `math`, `cmath` and `re`, with the formats of the script
pub record Polar (F : Type 0) : Type 0 where
  -- `"%g%+gd" % (abs(z), cmath.phase(z)*180/3.1415926)`
  pub polar : Complex F → String
  pub cos : F → F
  pub sin : F → F
  -- the literal 3.1415926
  pub pi : F
  -- `complex(s)`, with `none` for the ValueError, and `re.split(re_complex, s)`
  pub complex : String → Option (Complex F)
  pub split_complex : String → List String

-- The list that `lastnodes` is: an empty one of its own, or the list that `nodes` is.
pub data LastNodes : Type 0 where
  no_nodes : LastNodes
  alias_of_nodes : LastNodes

abbrev pub Samples : Type 0 → Type 0 → Type 0
Samples F T = List (T × List (Complex F))

pub record Dump (F T : Type 0) : Type 0 where
  pub data_of : Samples F T
  pub nodes : List String
  pub lastnodes : LastNodes
  pub timestamp : Option T
  pub timezone : String
  -- `header`, which no statement binds before the first row
  pub header : Option CsvRow

abbrev pub dump_start : {F T : Type 0} → Dump F T
dump_start = record {
  data_of = [];
  nodes = "Timestamp" ∷ [];
  lastnodes = no_nodes;
  timestamp = none;
  timezone = "UTC";
  header = none;
}

-- `row[n]`
abbrev pub cell_at : ℕ → CsvRow → Option String
cell_at n [] = none
cell_at zero (c ∷ row) = some c
cell_at (suc n) (c ∷ row) = cell_at n row

abbrev pub is_empty : {A : Type 0} → List A → Bool
is_empty [] = true
is_empty (x ∷ xs) = false

-- `==` of rows
abbrev pub rows_eq : CsvRow → CsvRow → Bool
rows_eq [] [] = true
rows_eq [] (d ∷ ds) = false
rows_eq (c ∷ cs) [] = false
rows_eq (c ∷ cs) (d ∷ ds) = let rest = rows_eq cs ds in if c == d then rest else false

abbrev pub voltage_header : CsvRow
voltage_header =
    "node_name" ∷ "voltA_real" ∷ "voltA_imag" ∷ "voltB_real" ∷ "voltB_imag" ∷ "voltC_real"
    ∷ "voltC_imag" ∷ []

-- the columns of a node
abbrev pub phases : String → List String
phases node = str_append node "_A" ∷ str_append node "_B" ∷ str_append node "_C" ∷ []

-- the list that `lastnodes` is
abbrev pub last_nodes : {F T : Type 0} → Dump F T → List String
last_nodes d = elim d.lastnodes [ no_nodes ↦ [] | alias_of_nodes ↦ d.nodes ]

module _ {F T : Type 0} ⦃times : Times T⦄ where
  -- `data[time] = []`
  abbrev pub clear_time : T → Samples F T → Samples F T
  clear_time t [] = (t, []) ∷ []
  clear_time t ((u, vs) ∷ d) =
      let rest = clear_time t d in if times.same u t then (u, []) ∷ d else (u, vs) ∷ rest

  -- `data[time].extend(values)`, of a key that is there
  abbrev pub extend_time : T → List (Complex F) → Samples F T → Samples F T
  extend_time t values [] = []
  extend_time t values ((u, vs) ∷ d) =
      let rest = extend_time t values d in
      if times.same u t then (u, vs ++ values) ∷ d else (u, vs) ∷ rest

  -- `time in data`
  abbrev pub has_time : T → Samples F T → Bool
  has_time t [] = false
  has_time t ((u, vs) ∷ d) = let rest = has_time t d in if times.same u t then true else rest

  -- `if tpos > 0 :`, where `find` is -1 for a text that is not there
  unfoldable pub note_time : String → Option ℕ → Exec (Dump F T) (Unit {0})
  note_time mark none = pure tt
  note_time mark (some zero) = pure tt
  note_time mark (some (suc n)) = do
    let tpos = suc n
    time ← or_raise (times.strptime (slice (tpos + 4) 23 mark)) value_error
    modify λ d. record d {
      timestamp = some time;
      data_of = clear_time time d.data_of;
      timezone = slice (tpos + 24) 3 mark;
    }

  -- a row that starts with `#`
  unfoldable pub read_mark : String → Exec (Dump F T) (Unit {0})
  read_mark mark = do
    note_time mark (position " at " mark)
    modify λ d. record d { header = some [] }

  abbrev pub demand : Bool → Exec (Dump F T) (Unit {0})
  demand true = pure tt
  demand false = raise assertion_error

  abbrev pub note_nodes : Exec (Dump F T) (Unit {0})
  note_nodes = do
    last ← gets last_nodes
    nodes ← gets λ d. d.nodes
    if not (is_empty last)
        then demand (rows_eq last nodes)
        else if not (is_empty nodes)
        then modify (λ d. record d { lastnodes = alias_of_nodes })
        else pure tt

  -- the row after one that starts with `#`
  unfoldable pub read_header : CsvRow → Exec (Dump F T) (Unit {0})
  read_header row = do
    modify λ d. record d { header = some row }
    demand (rows_eq row voltage_header)
    note_nodes

  -- `nodes.extend([node+"_A",node+"_B",node+"_C"])`
  abbrev pub extend_nodes : String → Exec (Dump F T) (Unit {0})
  extend_nodes node = modify λ d. record d { nodes = d.nodes ++ phases node }

  -- `data[timestamp].extend(values)`
  unfoldable pub extend_data : List (Complex F) → Exec (Dump F T) (Unit {0})
  extend_data values = do
    now ← gets λ d. d.timestamp
    time ← or_raise now key_error
    samples ← gets λ d. d.data_of
    if has_time time samples
        then modify (λ d. record d { data_of = extend_time time values d.data_of })
        else raise key_error

  module _ ⦃num : Num F⦄ where
    -- `float(row[n])`
    abbrev pub float_at : ℕ → CsvRow → Exec (Dump F T) F
    float_at n row = do
      text ← or_raise (cell_at n row) index_error
      or_raise (num.float text) value_error

    -- `complex(float(row[n]),float(row[n+1]))`
    abbrev pub complex_at : ℕ → CsvRow → Exec (Dump F T) (Complex F)
    complex_at n row = do re ← float_at n row; im ← float_at (suc n) row; pure (re, im)

    -- the body of the `try`
    unfoldable pub read_node : CsvRow → Exec (Dump F T) (Unit {0})
    read_node row = do
      node ← or_raise (cell_at 0 row) index_error
      a ← complex_at 1 row
      b ← complex_at 3 row
      c ← complex_at 5 row
      known ← gets λ d. listed (str_append node "_A") d.nodes
      if not known then extend_nodes node else pure tt
      extend_data (a ∷ b ∷ c ∷ [])

    unfoldable pub read_row : CsvRow → Exec (Dump F T) (Unit {0})
    read_row row = do
      first ← or_raise (cell_at 0 row) index_error
      if starts_with "#" first then read_mark first else (do
        bound ← gets λ d. d.header
        header ← or_raise bound name_error
        if is_empty header then read_header row else attempt (read_node row))

    unfoldable pub read_rows : List CsvRow → Exec (Dump F T) (Unit {0})
    read_rows [] = pure tt
    read_rows (row ∷ rows) = read_row row >> read_rows rows
