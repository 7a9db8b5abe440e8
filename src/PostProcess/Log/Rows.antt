-- ===== src/PostProcess/Log/Rows.antt =====
-- The loop of `log_gen` (data_post_process.py) over the rows of a recorder's file.
use grip_absorption_pipeline.Base.{
  ℕ, suc, String, Bool, true, false, not, List, [], ◌∷◌, ◌++◌, ◌&&◌, ◌≡◌, refl, sym, ap, ◌∙◌,
  if◌then◌else◌, arith,
}
use mathlib.Core.List.{append-nil, append_assoc}
use grip_absorption_pipeline.Base.Lists.{length, All}
use grip_absorption_pipeline.Base.Text.{contains_text}
use grip_absorption_pipeline.Base.Exec.{Result, ok, err, pure, modify, swallowed, >>=-ok}
use grip_absorption_pipeline.PostProcess.Log.{
  Log, log_line, note, log_item, log_items, log_values, log_row, log_rows,
}

-- the entries for the values that differ from those before
unfoldable pub changes : String → List String → List String → List String → List (List String)
changes time [] prev properties = []
changes time (item ∷ items) [] properties = []
changes time (item ∷ items) (before ∷ prev) [] = []
changes time (item ∷ items) (before ∷ prev) (property ∷ properties) =
    (if contains_text item before then [] else log_line time property item)
    ++ changes time items prev properties

-- a row of `n` texts, which begins with a time
abbrev pub IsRow : ℕ → List String → Type 0
IsRow n [] = ⊥
IsRow n (time ∷ items) =
    (contains_text "#" time ≡ false)
    × (contains_text "# timestamp" time ≡ false)
    × (suc (length items) ≡ n)

abbrev pub IsComment : List String → Type 0
IsComment [] = ⊥
IsComment (first ∷ rest) =
    (contains_text "#" first ≡ true) × (contains_text "# timestamp" first ≡ false)

abbrev pub IsHeader : List String → Type 0
IsHeader [] = ⊥
IsHeader (first ∷ rest) = contains_text "# timestamp" first ≡ true

-- the log of a row of properties and rows of values, each with the row before it
unfoldable pub logged_after : List String → List String → List (List String) → List (List String)
logged_after properties prev [] = []
logged_after properties prev ([] ∷ rows) = []
logged_after properties prev ((time ∷ items) ∷ rows) =
    changes time (time ∷ items) prev properties ++ logged_after properties (time ∷ items) rows

unfoldable pub logged : List String → List (List String) → List (List String)
logged properties [] = []
logged properties (row ∷ rows) = logged_after properties row rows

abbrev noted : Log → List (List String) → Log
noted l es = record l { log_entry = l.log_entry ++ es }

noted-none : (l : Log) → noted l [] ≡ l
noted-none l = ap (λ es. record l { log_entry = es }) (append-nil l.log_entry)

noted-twice : (l : Log) (es fs : List (List String)) → noted (noted l es) fs ≡ noted l (es ++ fs)
noted-twice l es fs = ap (λ gs. record l { log_entry = gs }) (append_assoc l.log_entry es fs)

log_item-ok :
    (time item before property : String) (properties : List String) (l : Log)
    → log_item time item before (property ∷ properties) l
      ≡ (ok tt, noted l (if contains_text item before then [] else log_line time property item))
unfolding log_item
log_item-ok time item before property properties l = go (contains_text item before)
  where
    go :
        (q : Bool)
        → (if q then pure tt else note (log_line time property item)) l
          ≡ (ok tt, noted l (if q then [] else log_line time property item))
    go true = ap (λ k. (ok tt, k)) (sym (noted-none l))
    go false = refl

log_items-ok :
    (time : String) (items prev properties : List String) (l : Log)
    → length items ≡ length prev
    → length items ≡ length properties
    → log_items time items prev properties l ≡ (ok tt, noted l (changes time items prev properties))
unfolding log_items changes
log_items-ok time [] prev properties l h k = ap (λ k. (ok tt, k)) (sym (noted-none l))
log_items-ok time (item ∷ items) [] properties l h k = ground arith
log_items-ok time (item ∷ items) (before ∷ prev) [] l h k = ground arith
log_items-ok time (item ∷ items) (before ∷ prev) (property ∷ properties) l h k =
    let es = if contains_text item before then [] else log_line time property item in
    >>=-ok (log_item time item before (property ∷ properties))
      (λ _. log_items time items prev properties) l
      (log_item-ok time item before property properties l)
    ∙ log_items-ok time items prev properties (noted l es) (omega arith) (omega arith)
    ∙ ap (λ k. (ok tt, k)) (noted-twice l es (changes time items prev properties))

log_values-ok :
    (time p : String) (items ps properties : List String) (es : List (List String))
    → suc (length items) ≡ suc (length ps)
    → suc (length items) ≡ length properties
    → log_values time
        (time ∷ items)
        (record { property_type = properties; prev_row = p ∷ ps; log_entry = es })
      ≡ (
        ok tt,
        record {
          property_type = properties;
          prev_row = time ∷ items;
          log_entry = es ++ changes time (time ∷ items) (p ∷ ps) properties;
        },
      )
unfolding log_values
log_values-ok time p items ps properties es h k =
    >>=-ok (log_items time (time ∷ items) (p ∷ ps) properties)
      (λ _. modify λ l. record l { prev_row = time ∷ items }) _
      (log_items-ok time (time ∷ items) (p ∷ ps) properties _ h k)

log_row-comment : (row : List String) (l : Log) → IsComment row → log_row row l ≡ (ok tt, l)
unfolding log_row
log_row-comment [] l h = absurd h
log_row-comment (first ∷ rest) l (h, k) = rw h (rw k refl)

pub log_row-header :
    (row : List String) (l : Log)
    → IsHeader row
    → log_row row l ≡ (ok tt, record l { property_type = row })
unfolding log_row
log_row-header [] l h = absurd h
log_row-header (first ∷ rest) l h =
    go (contains_text "#" first) (contains_text "# timestamp" first) h
  where
    go :
        (a b : Bool)
        → b ≡ true
        → (if a && not b
              then pure tt
              else if b
              then modify (λ m. record m { property_type = first ∷ rest })
              else log_values first (first ∷ rest))
            l
          ≡ (ok tt, record l { property_type = first ∷ rest })
    go true b e = rw e refl
    go false b e = rw e refl

log_row-values :
    (time : String) (items : List String) (l : Log)
    → contains_text "#" time ≡ false
    → contains_text "# timestamp" time ≡ false
    → log_row (time ∷ items) l ≡ log_values time (time ∷ items) l
unfolding log_row
log_row-values time items l h k = rw h (rw k refl)

pub log_rows-comments :
    (comments rows : List (List String)) (l : Log)
    → All IsComment comments
    → log_rows (comments ++ rows) l ≡ log_rows rows l
unfolding log_rows
log_rows-comments [] rows l h = refl
log_rows-comments (c ∷ cs) rows l (h, hs) =
    >>=-ok (log_row c) (λ _. log_rows (cs ++ rows)) l (log_row-comment c l h)
    ∙ log_rows-comments cs rows l hs

log_rows-after :
    (p : String) (ps properties : List String) (rows es : List (List String))
    → suc (length ps) ≡ length properties
    → All (IsRow (length properties)) rows
    → (log_rows rows
        (record { property_type = properties; prev_row = p ∷ ps; log_entry = es })).1.log_entry
      ≡ es ++ logged_after properties (p ∷ ps) rows
unfolding log_rows logged_after
log_rows-after p ps properties [] es e h = sym (append-nil es)
log_rows-after p ps properties ([] ∷ rows) es e (h, hs) = absurd h
log_rows-after p ps properties ((time ∷ items) ∷ rows) es e ((a, b, c), hs) =
    let l : Log = record { property_type = properties; prev_row = p ∷ ps; log_entry = es } in
    let new = changes time (time ∷ items) (p ∷ ps) properties in
    ap (λ r. r.1.log_entry)
      (>>=-ok (log_row (time ∷ items)) (λ _. log_rows rows) l
        (log_row-values time items l a b
          ∙ log_values-ok time p items ps properties es (c ∙ sym e) c))
    ∙ log_rows-after time items properties rows (es ++ new) c hs
    ∙ append_assoc es new (logged_after properties (time ∷ items) rows)

pub log_rows-logged :
    (properties : List String) (rows : List (List String))
    → All (IsRow (length properties)) rows
    → (log_rows rows
        (record { property_type = properties; prev_row = []; log_entry = [] })).1.log_entry
      ≡ logged properties rows
unfolding log_rows logged log_values
log_rows-logged properties [] h = refl
log_rows-logged properties ([] ∷ rows) (h, hs) = absurd h
log_rows-logged properties ((time ∷ items) ∷ rows) ((a, b, c), hs) =
    let l : Log = record { property_type = properties; prev_row = []; log_entry = [] } in
    ap (λ r. r.1.log_entry)
      (>>=-ok (log_row (time ∷ items)) (λ _. log_rows rows) l (log_row-values time items l a b))
    ∙ log_rows-after time items properties rows [] c hs

pub swallowed-state : {S : Type 0} (r : Result (Unit {0}) × S) → (swallowed r).1 ≡ r.1
swallowed-state (ok a, s) = refl
swallowed-state (err e, s) = refl
