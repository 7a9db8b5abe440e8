-- ===== src/PostProcess/Log/Tests.antt =====
-- A recorder's file with one event and one fault, and the theorem about the log applied.
use grip_absorption_pipeline.Base.{String, ◌≡◌, refl, some, List, [], ◌∷◌, ◌++◌}
use grip_absorption_pipeline.Base.Text.{contains_text}
use grip_absorption_pipeline.PostProcess.Log.{
  log_gen, log_row, log_rows, log_items, log_item, log_values,
}
use grip_absorption_pipeline.PostProcess.Log.Changes.{FileLogged, log_gen-logged}

abbrev comments : List (List String)
comments = ("# file... log.csv" ∷ []) ∷ []

abbrev properties : List String
properties = "# timestamp" ∷ "switch_1:status" ∷ "supernode_101:fault_type" ∷ []

abbrev rows : List (List String)
rows =
    ("2020-01-01" ∷ "CLOSED" ∷ "NONE" ∷ [])
    ∷ ("2020-01-02" ∷ "OPEN" ∷ "NONE" ∷ [])
    ∷ ("2020-01-03" ∷ "OPEN" ∷ "TLG" ∷ [])
    ∷ []

log_gen-run :
    log_gen (some (comments ++ properties ∷ rows))
    ≡ ("2020-01-02" ∷ "EVENT" ∷ "switch_1:status" ∷ "OPEN" ∷ [])
      ∷ ("2020-01-03" ∷ "FAULT" ∷ "supernode_101:fault_type" ∷ "TLG" ∷ [])
      ∷ []
unfolding log_gen log_rows log_row log_values log_items log_item contains_text
log_gen-run = refl

-- A value that is part of the value before is no change.
part-run :
    log_gen (some (properties ∷ ("1" ∷ "OPENED" ∷ "NONE" ∷ []) ∷ ("2" ∷ "OPEN" ∷ "NONE" ∷ []) ∷ []))
    ≡ []
unfolding log_gen log_rows log_row log_values log_items log_item contains_text
part-run = refl

log_gen-logged_example : FileLogged properties rows (log_gen (some (comments ++ properties ∷ rows)))
unfolding contains_text
log_gen-logged_example =
    log_gen-logged comments properties rows ((refl, refl), tt) refl
      ((refl, refl, refl), ((refl, refl, refl), ((refl, refl, refl), tt)))
