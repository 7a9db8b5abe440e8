-- ===== src/PostProcess/Log.antt =====
-- `log_gen` (data_post_process.py): the events and faults in the rows of a recorder's file. A row is
-- the list of its texts; the file is none where it is not there.
pub mod Rows
pub mod Changes
mod Tests
use grip_absorption_pipeline.Base.{
  String, Bool, true, false, not, Option, none, some, List, [], ◌∷◌, ◌++◌, ◌&&◌, if◌then◌else◌,
}
use grip_absorption_pipeline.Base.Text.{contains_text}
use grip_absorption_pipeline.Base.Exec.{
  Exec, pure, gets, or_raise, modify, attempt, index_error, file_not_found, ◌>>=◌, ◌>>◌,
}

-- the local variables of `log_gen`
pub record Log : Type 0 where
  pub property_type : List String
  pub prev_row : List String
  pub log_entry : List (List String)

abbrev pub head : List String → Option String
head [] = none
head (s ∷ ss) = some s

abbrev pub tail : List String → List String
tail [] = []
tail (s ∷ ss) = ss

-- what is logged of a new value
abbrev pub log_line : String → String → String → List (List String)
log_line time property item =
    if contains_text "status" property
    then (time ∷ "EVENT" ∷ property ∷ item ∷ []) ∷ []
    else if contains_text "fault_type" property
    then (time ∷ "FAULT" ∷ property ∷ item ∷ []) ∷ []
    else []

abbrev pub note : List (List String) → Exec Log (Unit {0})
note es = modify λ l. record l { log_entry = l.log_entry ++ es }

-- the body of the inner loop
unfoldable pub log_item : String → String → String → List String → Exec Log (Unit {0})
log_item time item before properties =
    if contains_text item before
    then pure tt
    else or_raise (head properties) index_error >>= λ property. note (log_line time property item)

-- the inner loop: `prev_row[i]` and `property_type[i]` are the heads of what is left of the rows
unfoldable pub log_items : String → List String → List String → List String → Exec Log (Unit {0})
log_items time [] prev properties = pure tt
log_items time (item ∷ items) prev properties = do
  before ← or_raise (head prev) index_error
  log_item time item before properties
  log_items time items (tail prev) (tail properties)

-- `if not prev_row` and its else
abbrev pub log_against : String → List String → List String → List String → Exec Log (Unit {0})
log_against time row [] properties = pure tt
log_against time row (p ∷ ps) properties = log_items time row (p ∷ ps) properties

-- the branch for a row of values
unfoldable pub log_values : String → List String → Exec Log (Unit {0})
log_values time row = do
  prev ← gets λ l. l.prev_row
  properties ← gets λ l. l.property_type
  log_against time row prev properties
  modify λ l. record l { prev_row = row }

-- the body of the loop over the rows
unfoldable pub log_row : List String → Exec Log (Unit {0})
log_row row = do
  first ← or_raise (head row) index_error
  if contains_text "#" first && not (contains_text "# timestamp" first)
      then pure tt
      else if contains_text "# timestamp" first
      then modify (λ l. record l { property_type = row })
      else log_values first row

unfoldable pub log_rows : List (List String) → Exec Log (Unit {0})
log_rows [] = pure tt
log_rows (row ∷ rows) = log_row row >> log_rows rows

abbrev pub read_log : Option (List (List String)) → Exec Log (Unit {0})
read_log file = or_raise file file_not_found >>= log_rows

abbrev pub empty_log : Log
empty_log = record { property_type = []; prev_row = []; log_entry = [] }

-- `log_gen()`: the rows of log.csv after its header
unfoldable pub log_gen : Option (List (List String)) → List (List String)
log_gen file = (attempt (read_log file) empty_log).1.log_entry
