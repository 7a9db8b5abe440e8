-- ===== src/PostProcess/Log/Changes.antt =====
-- The log of a file that is as the recorder writes it: comments, a row of properties, and rows of
-- values of the same length.
use grip_absorption_pipeline.Base.{
  String, true, false, some, List, [], ◌∷◌, ◌++◌, ◌≡◌, refl, sym, ap, ◌∙◌, if◌then◌else◌, arith,
  subst, Bool-cases, inl, inr,
}
use grip_absorption_pipeline.Base.Lists.{length, All}
use grip_absorption_pipeline.Base.Text.{contains_text}
use grip_absorption_pipeline.Base.Exec.{>>=-ok}
use grip_absorption_pipeline.PostProcess.Log.{log_line, log_row, log_rows, log_gen, empty_log}
use grip_absorption_pipeline.PostProcess.Log.Rows.{
  changes, logged_after, logged, log_rows-comments, log_row-header, log_rows-logged,
  swallowed-state, IsRow, IsComment, IsHeader,
}

-- What is logged of one value, by the value before it and its property.
pub data Logged (time item before property : String) : List (List String) → Type 0 where
  unchanged : contains_text item before ≡ true → Logged time item before property []
  event :
      contains_text item before ≡ false
      → contains_text "status" property ≡ true
      → Logged time item before property ((time ∷ "EVENT" ∷ property ∷ item ∷ []) ∷ [])
  fault :
      contains_text item before ≡ false
      → contains_text "status" property ≡ false
      → contains_text "fault_type" property ≡ true
      → Logged time item before property ((time ∷ "FAULT" ∷ property ∷ item ∷ []) ∷ [])
  other :
      contains_text item before ≡ false
      → contains_text "status" property ≡ false
      → contains_text "fault_type" property ≡ false
      → Logged time item before property []

-- of a row, by the row before it and the properties, in the order of the columns
pub data RowLogged (time : String)
    : List String → List String → List String → List (List String) → Type 0 where
  no_columns : RowLogged time [] [] [] []
  column :
      {item before property : String} {items prev properties : List String}
      {es fs : List (List String)}
      → Logged time item before property es
      → RowLogged time items prev properties fs
      → RowLogged time (item ∷ items) (before ∷ prev) (property ∷ properties) (es ++ fs)

-- of rows, each by the row before it
pub data RowsLogged (properties : List String)
    : List String → List (List String) → List (List String) → Type 0 where
  no_rows : {prev : List String} → RowsLogged properties prev [] []
  next_row :
      {time : String} {prev items : List String} {rows es fs : List (List String)}
      → RowLogged time (time ∷ items) prev properties es
      → RowsLogged properties (time ∷ items) rows fs
      → RowsLogged properties prev ((time ∷ items) ∷ rows) (es ++ fs)

-- of all rows of a file: nothing of the first, which has none before it
abbrev pub FileLogged : List String → List (List String) → List (List String) → Type 0
FileLogged properties [] es = es ≡ []
FileLogged properties (first ∷ rows) es = RowsLogged properties first rows es

item-Logged :
    (time item before property : String)
    → Logged time item before property
        (if contains_text item before then [] else log_line time property item)
item-Logged time item before property = elim (Bool-cases (contains_text item before)) [
  | inl part ↦ rw part (unchanged part)
  | inr new ↦ rw new (elim (Bool-cases (contains_text "status" property)) [
    | inl status ↦ rw status (event new status)
    | inr no_status ↦ rw no_status (elim (Bool-cases (contains_text "fault_type" property)) [
      | inl faulted ↦ rw faulted (fault new no_status faulted)
      | inr no_fault ↦ rw no_fault (other new no_status no_fault)
    ])
  ])
]

changes-RowLogged :
    (time : String) (items prev properties : List String)
    → length items ≡ length prev
    → length items ≡ length properties
    → RowLogged time items prev properties (changes time items prev properties)
unfolding changes
changes-RowLogged time [] [] [] h k = no_columns
changes-RowLogged time [] [] (q ∷ qs) h k = ground arith
changes-RowLogged time [] (p ∷ ps) properties h k = ground arith
changes-RowLogged time (item ∷ items) [] properties h k = ground arith
changes-RowLogged time (item ∷ items) (before ∷ prev) [] h k = ground arith
changes-RowLogged time (item ∷ items) (before ∷ prev) (property ∷ properties) h k =
    column (item-Logged time item before property)
      (changes-RowLogged time items prev properties (omega arith) (omega arith))

logged_after-RowsLogged :
    (properties prev : List String) (rows : List (List String))
    → length prev ≡ length properties
    → All (IsRow (length properties)) rows
    → RowsLogged properties prev rows (logged_after properties prev rows)
unfolding logged_after
logged_after-RowsLogged properties prev [] e h = no_rows
logged_after-RowsLogged properties prev ([] ∷ rows) e (h, hs) = absurd h
logged_after-RowsLogged properties prev ((time ∷ items) ∷ rows) e ((a, b, c), hs) =
    next_row (changes-RowLogged time (time ∷ items) prev properties (c ∙ sym e) c)
      (logged_after-RowsLogged properties (time ∷ items) rows c hs)

logged-FileLogged :
    (properties : List String) (rows : List (List String))
    → All (IsRow (length properties)) rows
    → FileLogged properties rows (logged properties rows)
unfolding logged
logged-FileLogged properties [] h = refl
logged-FileLogged properties ([] ∷ rows) (h, hs) = absurd h
logged-FileLogged properties ((time ∷ items) ∷ rows) ((a, b, c), hs) =
    logged_after-RowsLogged properties (time ∷ items) rows c hs

-- Where the file has comments, a row of properties that begins with the mark of the time, and rows
-- of values as long as it, `log_gen` gives, row after row and column after column, the entries for
-- the values whose text is not in the text of the row before: an EVENT where the property contains
-- "status", else a FAULT where it contains "fault_type", and nothing for the first row.
pub log_gen-logged :
    (comments : List (List String)) (properties : List String) (rows : List (List String))
    → All IsComment comments
    → IsHeader properties
    → All (IsRow (length properties)) rows
    → FileLogged properties rows (log_gen (some (comments ++ properties ∷ rows)))
unfolding log_gen log_rows
log_gen-logged comments properties rows h k hs =
    subst (FileLogged properties rows)
      (sym (
        ap (λ l. l.log_entry) (swallowed-state (log_rows (comments ++ properties ∷ rows) empty_log))
        ∙ ap (λ r. r.1.log_entry)
            (log_rows-comments comments (properties ∷ rows) empty_log h
              ∙ >>=-ok (log_row properties) (λ _. log_rows rows) empty_log
                  (log_row-header properties empty_log k))
        ∙ log_rows-logged properties rows hs))
      (logged-FileLogged properties rows hs)
