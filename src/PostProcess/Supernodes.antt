-- ===== src/PostProcess/Supernodes.antt =====
-- `timeseries_persupernode` (data_post_process.py). pandas is a parameter: how it reads a CSV file, and
-- `concat` of tables side by side. A table has its first column apart, and all of its columns are as
-- long as that one.
pub mod Names
pub mod Totals
mod Tests
use Prim.Native.String.{◌++◌ as str_append}
use grip_absorption_pipeline.Base.{
  ℕ, zero, suc, String, Bool, true, false, Option, none, some, List, [], ◌∷◌, ◌++◌, ◌≡◌, ◌==◌, ◌&&◌,
  leb, if◌then◌else◌,
}
use grip_absorption_pipeline.Base.Lists.{length, All}
use grip_absorption_pipeline.Base.Text.{contains_text}
use grip_absorption_pipeline.Base.Decimal.{first_digits, three_digits}
use grip_absorption_pipeline.Base.Dict.{Dict, put}
use grip_absorption_pipeline.Base.Exec.{
  Exec, pure, or_raise, modify, file_not_found, attribute_error, key_error, value_error, ◌>>=◌,
  ◌>>◌,
}
use grip_absorption_pipeline.Num.{Num}
use grip_absorption_pipeline.Control.{Frame}

pub record Pandas (F : Type 0) : Type 0 where
  -- `pd.read_csv(file, header=row)`, with `none` where there is no file
  pub read_csv : ℕ → String → Option (Frame F)
  -- `pd.concat(tables, axis=1)`, with `none` for the ValueError
  pub concat : List (Frame F) → Option (Frame F)

-- the columns of tables, side by side
abbrev pub side_by_side : {F : Type 0} → List (Frame F) → Dict (List F)
side_by_side [] = []
side_by_side (f ∷ fs) = f.columns ++ side_by_side fs

-- Tables with the same first column are put side by side.
pub record PandasLaws (F : Type 0) ⦃pandas : Pandas F⦄ : Type 0 where
  pub concat_same :
      (f : Frame F) (fs : List (Frame F))
      → All (λ g. (g.index_name ≡ f.index_name) × (g.labels ≡ f.labels)) fs
      → pandas.concat (f ∷ fs) ≡ some (record f { columns = side_by_side (f ∷ fs) })

-- the CSV files that are written
abbrev pub Written : Type 0 → Type 0
Written F = Dict (Frame F)

abbrev pub all_supernodes : List ℕ
all_supernodes = 101 ∷ 102 ∷ 103 ∷ 201 ∷ 202 ∷ 203 ∷ 301 ∷ 302 ∷ 303 ∷ []

-- `'supernode_{:03d}'.format(s)`
abbrev pub supernode_name : ℕ → String
supernode_name s = str_append "supernode_" (three_digits s)

-- `'total_load_{}.csv'.format(sn)` and the two like it
abbrev pub load_file : String → String → String
load_file kind sn = str_append kind (str_append "_load_" (str_append sn ".csv"))

-- `'total_load_{}[kW]'.format(node)` and the two like it
abbrev pub kw_column : String → String → String
kw_column kind node = str_append kind (str_append "_load_" (str_append node "[kW]"))

-- `'Ps_{}.csv'.format(runname)` and the one like it
abbrev pub run_file : String → String → String
run_file kind runname = str_append kind (str_append "_" (str_append runname ".csv"))

-- `[c for c in columns if 'solar' in c]`
abbrev pub solar_columns : {F : Type 0} → Dict (List F) → Dict (List F)
solar_columns [] = []
solar_columns ((c, xs) ∷ d) =
    let rest = solar_columns d in if contains_text "solar" c then (c, xs) ∷ rest else rest

-- a table gets two names, so it has one column beside the first
abbrev pub only_column : {F : Type 0} → Frame F → Option (List F)
only_column f = elim f.columns [
  | [] ↦ none
  | (c, xs) ∷ rest ↦ elim rest [ [] ↦ some xs | _ ∷ _ ↦ none ]
]

module _ {F : Type 0} ⦃num : Num F⦄ where
  -- a column beside a longer one
  abbrev pub padded : ℕ → List F → List F
  padded zero xs = []
  padded (suc n) [] = num.nan ∷ padded n []
  padded (suc n) (x ∷ xs) = x ∷ padded n xs

module _ {F : Type 0} ⦃num : Num F⦄ ⦃pandas : Pandas F⦄ where
  -- `load = pd.read_csv(…)` and `load.columns = [...]`
  unfoldable pub read_loads : String → String → Exec (Written F) (List String × List F)
  read_loads kind sn = do
    f ← or_raise (pandas.read_csv 8 (load_file kind sn)) file_not_found
    xs ← or_raise (only_column f) value_error
    pure (f.labels, xs)

  -- the loop body
  unfoldable pub supernode_loads : ℕ → Exec (Written F) (Frame F)
  supernode_loads s = do
    node ← or_raise (first_digits (supernode_name s)) attribute_error
    (load_times, load) ← read_loads "total" (supernode_name s)
    (hvac_times, hvac) ← read_loads "hvac" (supernode_name s)
    (wh_times, wh) ← read_loads "wh" (supernode_name s)
    let n = length wh_times
    or_raise (if leb (length load_times) n && leb (length hvac_times) n then some tt else none)
        value_error
    pure (record {
      index_name = "timestamp";
      labels = wh_times;
      columns =
          (kw_column "total" node, padded n load)
          ∷ (kw_column "hvac" node, padded n hvac)
          ∷ (kw_column "wh" node, padded n wh)
          ∷ [];
    })

  unfoldable pub baseline_loads : List ℕ → Exec (Written F) (List (Frame F))
  baseline_loads [] = pure []
  baseline_loads (s ∷ ss) = do
    loads ← supernode_loads s
    rest ← baseline_loads ss
    pure (loads ∷ rest)

  -- the part before the loop
  unfoldable pub solar_table : Exec (Written F) (Frame F)
  solar_table = do
    gen ← or_raise (pandas.read_csv 7 "timeseries_data_gen_strg.csv") file_not_found
    or_raise (if gen.index_name == "# timestamp" then some tt else none) key_error
    pure (record gen { index_name = "timestamp"; columns = solar_columns gen.columns })

  unfoldable pub timeseries_persupernode : String → Exec (Written F) (Unit {0})
  timeseries_persupernode runname = do
    solar ← solar_table
    modify λ w. put (run_file "Ps" runname) solar w
    tables ← baseline_loads all_supernodes
    loads ← or_raise (pandas.concat tables) value_error
    modify λ w. put (run_file "Loads" runname) loads w
