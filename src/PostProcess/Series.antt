-- ===== src/PostProcess/Series.antt =====
-- `timeseries_gen` (data_post_process.py). A file is the list of its rows, none where it is not there;
-- a row is the list of its texts.
pub mod Missing
mod Tests
use grip_absorption_pipeline.Base.{
  ℕ, zero, suc, String, Bool, true, false, not, Option, none, some, List, [], ◌∷◌, ◌++◌,
  if◌then◌else◌,
}
use grip_absorption_pipeline.Base.Text.{contains_text, split_first}
use grip_absorption_pipeline.Base.Exec.{
  Exec, pure, gets, or_raise, modify, index_error, value_error, ◌>>=◌, ◌>>◌,
}
use grip_absorption_pipeline.Num.{Num, divide}

abbrev pub Row : Type 0
Row = List String

pub record Files : Type 0 where
  pub gen_str : Option (List Row)
  pub load : Option (List Row)
  pub flex_hvac : Option (List Row)
  pub flex_wh : Option (List Row)
  pub baseline : Option (List Row)

-- a row of timeseries.csv
pub record Line (F : Type 0) : Type 0 where
  pub time : String
  pub numbers : List F

-- the local variables, and the rows of timeseries.csv after its header
pub record Series (F : Type 0) : Type 0 where
  pub timeseries : List String
  pub generation : List F
  pub storage_power : List F
  pub storage_energy : List F
  pub total_load : List F
  pub flexible_load_hvac : List F
  pub flexible_load_wh : List F
  pub baseline_load : List F
  pub unserved_load : List F
  pub written : List (Line F)

abbrev pub item_at : {A : Type 0} → List A → ℕ → Option A
item_at [] n = none
item_at (x ∷ xs) zero = some x
item_at (x ∷ xs) (suc n) = item_at xs n

abbrev pub last_of : {A : Type 0} → List A → Option A
last_of [] = none
last_of (x ∷ []) = some x
last_of (x ∷ (y ∷ ys)) = last_of (y ∷ ys)

-- `if '#' not in row[0]`
abbrev pub is_data : String → Bool
is_data first = not (contains_text "#" first)

-- before the first file
abbrev pub empty_series : {F : Type 0} → Series F
empty_series = record {
  timeseries = [];
  generation = [];
  storage_power = [];
  storage_energy = [];
  total_load = [];
  flexible_load_hvac = [];
  flexible_load_wh = [];
  baseline_load = [];
  unserved_load = [];
  written = [];
}

module _ {F : Type 0} ⦃num : Num F⦄ where
  abbrev pub cell : Row → ℕ → Exec (Series F) String
  cell row n = or_raise (item_at row n) index_error

  -- `float(row[n].split(" ")[0])`
  unfoldable pub number_in : Row → ℕ → Exec (Series F) F
  number_in row n = do text ← cell row n; or_raise (num.float (split_first " " text)) value_error

  -- the rows of data
  unfoldable pub each_row :
      (Row → Exec (Series F) (Unit {0})) → List Row → Exec (Series F) (Unit {0})
  each_row body [] = pure tt
  each_row body (row ∷ rows) =
      (cell row 0 >>= λ first. if is_data first then body row else pure tt) >> each_row body rows

  -- `try: with open(…) … except FileNotFoundError: …`
  abbrev pub if_there :
      Option (List Row) → (List Row → Exec (Series F) (Unit {0})) → Exec (Series F) (Unit {0})
  if_there none body = pure tt
  if_there (some rows) body = body rows

  abbrev pub add3 : F → F → F → F
  add3 x y z = num.add (num.add x y) z

  unfoldable pub read_power : Row → Exec (Series F) (Unit {0})
  read_power row = do
    time ← cell row 0
    modify λ s. record s { timeseries = s.timeseries ++ time ∷ [] }
    g1 ← number_in row 1
    g2 ← number_in row 2
    g3 ← number_in row 3
    modify λ s. record s { generation = s.generation ++ add3 g1 g2 g3 ∷ [] }
    p4 ← number_in row 4
    p5 ← number_in row 5
    p6 ← number_in row 6
    modify λ s. record s { storage_power = s.storage_power ++ add3 p4 p5 p6 ∷ [] }

  unfoldable pub read_energy : Row → Exec (Series F) (Unit {0})
  read_energy row = do
    e7 ← number_in row 7
    c10 ← number_in row 10
    e8 ← number_in row 8
    c11 ← number_in row 11
    e9 ← number_in row 9
    c12 ← number_in row 12
    modify λ s. record s {
      storage_energy =
          s.storage_energy ++ add3 (num.mul e7 c10) (num.mul e8 c11) (num.mul e9 c12) ∷ [];
    }

  unfoldable pub read_generation : Row → Exec (Series F) (Unit {0})
  read_generation row = read_power row >> read_energy row

  unfoldable pub read_load : Row → Exec (Series F) (Unit {0})
  read_load row = do
    x ← number_in row 1
    modify λ s. record s { total_load = s.total_load ++ x ∷ [] }

  unfoldable pub read_hvac : Row → Exec (Series F) (Unit {0})
  read_hvac row = do
    x ← number_in row 1
    modify λ s. record s { flexible_load_hvac = s.flexible_load_hvac ++ x ∷ [] }

  unfoldable pub read_wh : Row → Exec (Series F) (Unit {0})
  read_wh row = do
    x ← number_in row 1
    modify λ s. record s { flexible_load_wh = s.flexible_load_wh ++ x ∷ [] }

  -- `flexible_load`
  abbrev pub sums : List F → List F → List F
  sums [] ys = []
  sums (x ∷ xs) [] = []
  sums (x ∷ xs) (y ∷ ys) = num.add x y ∷ sums xs ys

  -- the loop over the times, for a row of the baseline
  unfoldable pub match_times : Row → String → List String → Exec (Series F) (Unit {0})
  match_times row first [] = pure tt
  match_times row first (time ∷ times) = do
    if contains_text time first
        then (do
          text ← cell row 1
          x ← or_raise (num.float text) value_error
          modify λ s. record s { baseline_load = s.baseline_load ++ x ∷ [] })
        else pure tt
    match_times row first times

  unfoldable pub read_baseline : Row → Exec (Series F) (Unit {0})
  read_baseline row = do
    first ← cell row 0
    times ← gets λ s. s.timeseries
    match_times row first times

  unfoldable pub unserved : F → List F → List F → Exec (Series F) (List F)
  unserved total [] acts = pure []
  unserved total (b ∷ bs) [] = pure []
  unserved total (b ∷ bs) (a ∷ acts) = do
    part ← divide (num.sub b a) total
    rest ← unserved total bs acts
    pure (num.mul part (num.lit 100) ∷ rest)

  unfoldable pub compare_baseline : List Row → Exec (Series F) (Unit {0})
  compare_baseline rows = do
    each_row read_baseline rows
    bases ← gets λ s. s.baseline_load
    acts ← gets λ s. s.total_load
    total ← or_raise (last_of bases) index_error
    parts ← unserved total bases acts
    modify λ s. record s { unserved_load = parts }

  abbrev pub first_of : List F → Exec (Series F) F
  first_of xs = or_raise (item_at xs 0) index_error

  abbrev pub rest_of : List F → List F
  rest_of [] = []
  rest_of (x ∷ xs) = xs

  -- the last loop: the lists from the index on
  unfoldable pub write_lines :
      List String → List F → List F → List F → List F → List F → List F → Exec (Series F) (Unit {0})
  write_lines [] gs ls fs us ps es = pure tt
  write_lines (time ∷ times) gs ls fs us ps es = do
    g ← first_of gs
    l ← first_of ls
    f ← first_of fs
    u ← first_of us
    p ← first_of ps
    e ← first_of es
    let numbers = g ∷ l ∷ f ∷ u ∷ p ∷ e ∷ []
    modify λ s. record s { written = s.written ++ record { time = time; numbers = numbers } ∷ [] }
    write_lines times (rest_of gs) (rest_of ls) (rest_of fs) (rest_of us) (rest_of ps) (rest_of es)

  abbrev pub write_series : Series F → Exec (Series F) (Unit {0})
  write_series s =
      write_lines s.timeseries s.generation s.total_load
        (sums s.flexible_load_hvac s.flexible_load_wh) s.unserved_load s.storage_power
        s.storage_energy

  -- the part before the last loop
  unfoldable pub read_files : Files → Exec (Series F) (Unit {0})
  read_files files = do
    if_there files.gen_str (each_row read_generation)
    if_there files.load (each_row read_load)
    if_there files.flex_hvac (each_row read_hvac)
    if_there files.flex_wh (each_row read_wh)
    if_there files.baseline compare_baseline

  -- `timeseries_gen()`
  unfoldable pub timeseries_gen : Files → Exec (Series F) (Unit {0})
  timeseries_gen files = read_files files >> (gets (λ s. s) >>= write_series)
