-- ===== src/PostProcess/Series/Missing.antt =====
-- `timeseries_gen` (data_post_process.py) without the baseline file.
use grip_absorption_pipeline.Base.{
  ℕ, String, Option, none, some, List, [], ◌∷◌, ◌++◌, Bool, true, false, not, ◌≡◌, refl, sym, subst,
  if◌then◌else◌, arith,
}
use grip_absorption_pipeline.Base.Lists.{All}
use grip_absorption_pipeline.Base.Text.{contains_text}
use grip_absorption_pipeline.Base.Exec.{Exec, pure, modify, gets, index_error, ◌>>=◌, ◌>>◌}
use grip_absorption_pipeline.Base.Keeps.{
  Keeps, keeps_rules, bind-Keeps, pure-Keeps, or_raise-Keeps, if-Keeps,
}
use grip_absorption_pipeline.Base.Outcomes.{Outcome, Outcome-map, Leads, bind-Leads, Keeps-Leads}
use grip_absorption_pipeline.Num.{Num}
use grip_absorption_pipeline.PostProcess.Series.{
  add3, Row, Files, Series, item_at, number_in, each_row, cell, is_data, if_there, read_power,
  read_energy, read_generation, read_load, read_hvac, read_wh, write_lines, write_series,
  compare_baseline, read_files, timeseries_gen, sums, empty_series,
}

-- A row that begins with a text with a #.
abbrev pub IsMark : Row → Type 0
IsMark [] = ⊥
IsMark (first ∷ rest) = contains_text "#" first ≡ true

-- The file is not there, or has such rows only.
abbrev pub HasNoData : Option (List Row) → Type 0
HasNoData none = Unit
HasNoData (some rows) = All IsMark rows

abbrev Unwritten : {F : Type 0} → Series F → Type 0
Unwritten s = s.written ≡ []

-- Nothing is written, there is no unserved load, and a time is noted unless Q holds.
abbrev Unserved : {F : Type 0} → Type 0 → Series F → Type 0
Unserved Q s = (s.unserved_load ≡ []) × (s.written ≡ []) × (s.timeseries ≡ [] → Q)

never_empty : (Q : Type 0) {A : Type 0} (xs : List A) (x : A) → (xs ++ x ∷ []) ≡ [] → Q
never_empty Q [] x e = ground arith
never_empty Q (y ∷ ys) x e = ground arith

module _ {F : Type 0} ⦃num : Num F⦄ (Q : Type 0) where
  number_in-Keeps : (row : Row) (n : ℕ) → Keeps (Unserved {F = F} Q) (number_in row n)
  unfolding number_in
  number_in-Keeps row n = search keeps_rules

  read_energy-Keeps : (row : Row) → Keeps (Unserved {F = F} Q) (read_energy row)
  unfolding read_energy
  read_energy-Keeps row = search (keeps_rules, number_in-Keeps) depth 30

  read_load-Keeps : (row : Row) → Keeps (Unserved {F = F} Q) (read_load row)
  unfolding read_load
  read_load-Keeps row = search (keeps_rules, number_in-Keeps)

  read_hvac-Keeps : (row : Row) → Keeps (Unserved {F = F} Q) (read_hvac row)
  unfolding read_hvac
  read_hvac-Keeps row = search (keeps_rules, number_in-Keeps)

  read_wh-Keeps : (row : Row) → Keeps (Unserved {F = F} Q) (read_wh row)
  unfolding read_wh
  read_wh-Keeps row = search (keeps_rules, number_in-Keeps)

  one_row-Keeps :
      (body : Row → Exec (Series F) (Unit {0})) (row : Row)
      → Keeps (Unserved {F = F} Q) (body row)
      → Keeps
          (Unserved {F = F} Q)
          (cell row 0 >>= λ first. if is_data first then body row else pure tt)
  one_row-Keeps body row h =
      bind-Keeps (cell row 0) (λ first. if is_data first then body row else pure tt)
        (or_raise-Keeps (item_at row 0) index_error)
        (λ first. if-Keeps (is_data first) (body row) (pure tt) h (pure-Keeps tt))

  each_row-Keeps :
      (body : Row → Exec (Series F) (Unit {0}))
      → ((row : Row) → Keeps (Unserved {F = F} Q) (body row))
      → (rows : List Row) → Keeps (Unserved {F = F} Q) (each_row body rows)
  unfolding each_row
  each_row-Keeps body h [] = search keeps_rules
  each_row-Keeps body h (row ∷ rows) =
      bind-Keeps (cell row 0 >>= λ first. if is_data first then body row else pure tt)
        (λ _. each_row body rows) (one_row-Keeps body row (h row)) (λ _. each_row-Keeps body h rows)

  if_there-Keeps :
      (file : Option (List Row)) (body : List Row → Exec (Series F) (Unit {0}))
      → ((rows : List Row) → Keeps (Unserved {F = F} Q) (body rows))
      → Keeps (Unserved {F = F} Q) (if_there file body)
  if_there-Keeps none body h = pure-Keeps tt
  if_there-Keeps (some rows) body h = h rows

module _ {F : Type 0} ⦃num : Num F⦄ where
  -- what `read_power` does after the time
  abbrev powers : Row → Exec (Series F) (Unit {0})
  powers row = do
    g1 ← number_in row 1
    g2 ← number_in row 2
    g3 ← number_in row 3
    modify λ s. record s { generation = s.generation ++ add3 g1 g2 g3 ∷ [] }
    p4 ← number_in row 4
    p5 ← number_in row 5
    p6 ← number_in row 6
    modify λ s. record s { storage_power = s.storage_power ++ add3 p4 p5 p6 ∷ [] }

-- Once the time is noted, whatever was to hold does.
module _ {F : Type 0} ⦃num : Num F⦄ (Q R : Type 0) where
  powers-Keeps : (row : Row) → Keeps (Unserved {F = F} R) (powers row)
  powers-Keeps row = search (keeps_rules, number_in-Keeps R) depth 30

  read_power-Leads :
      (row : Row) → Leads Unwritten (Unserved {F = F} Q) (λ _. Unserved R) (read_power row)
  unfolding read_power
  read_power-Leads row =
      bind-Leads Unwritten (Unserved Q) (λ _. Unserved Q) (λ _. Unserved R) (cell row 0) _
        (Keeps-Leads Unwritten (Unserved Q) (cell row 0)
          (or_raise-Keeps (item_at row 0) index_error) (λ s h. h.1))
        (λ time.
          bind-Leads Unwritten (Unserved Q) (λ _. Unserved R) (λ _. Unserved R)
            (modify λ s. record s { timeseries = s.timeseries ++ time ∷ [] }) (λ _. powers row)
            (λ s h. (h.0, h.1, never_empty R s.timeseries time))
            (λ _. Keeps-Leads Unwritten (Unserved R) (powers row) (powers-Keeps row) (λ s h. h.1)))

  read_generation-Leads :
      (row : Row) → Leads Unwritten (Unserved {F = F} Q) (λ _. Unserved R) (read_generation row)
  unfolding read_generation
  read_generation-Leads row =
      bind-Leads Unwritten (Unserved Q) (λ _. Unserved R) (λ _. Unserved R) (read_power row)
        (λ _. read_energy row) (read_power-Leads row)
        (λ _.
          Keeps-Leads Unwritten (Unserved R) (read_energy row) (read_energy-Keeps R row)
            (λ s h. h.1))

module _ {F : Type 0} ⦃num : Num F⦄ where
  one_generation-Leads :
      (row : Row) (Q : Type 0)
      → Leads Unwritten
          (Unserved {F = F} Q)
          (λ _. Unserved (Q × IsMark row))
          (cell row 0 >>= λ first. if is_data first then read_generation row else pure tt)
  one_generation-Leads [] Q s h = h.1
  one_generation-Leads (first ∷ rest) Q s h = by_mark (contains_text "#" first) refl
    where
      by_mark :
          (b : Bool)
          → contains_text "#" first ≡ b
          → Outcome
              (λ _. Unserved (Q × (contains_text "#" first ≡ true)))
              Unwritten
              ((if not b then read_generation (first ∷ rest) else pure tt) s)
      by_mark true e = (h.0, h.1, λ k. (h.2 k, e))
      by_mark false e =
          read_generation-Leads Q (Q × (contains_text "#" first ≡ true)) (first ∷ rest) s h

  each_generation-Leads :
      (rows : List Row) (Q : Type 0)
      → Leads Unwritten
          (Unserved {F = F} Q)
          (λ _. Unserved (Q × All IsMark rows))
          (each_row read_generation rows)
  unfolding each_row
  each_generation-Leads [] Q s h = (h.0, h.1, λ e. (h.2 e, tt))
  each_generation-Leads (row ∷ rows) Q s h =
      Outcome-map (each_row read_generation (row ∷ rows) s)
        (bind-Leads Unwritten (Unserved Q) (λ _. Unserved (Q × IsMark row))
          (λ _. Unserved ((Q × IsMark row) × All IsMark rows))
          (cell row 0 >>= λ first. if is_data first then read_generation row else pure tt)
          (λ _. each_row read_generation rows) (one_generation-Leads row Q)
          (λ _. each_generation-Leads rows (Q × IsMark row)) s h)
        (λ _ s' h'. (h'.0, h'.1, λ e. let ((q, m), ms) = h'.2 e in (q, (m, ms)))) (λ s' h'. h')

  read_power_file-Leads :
      (file : Option (List Row))
      → Leads Unwritten
          (Unserved {F = F} Unit)
          (λ _. Unserved (HasNoData file))
          (if_there file (each_row read_generation))
  read_power_file-Leads none s h = h
  read_power_file-Leads (some rows) s h =
      Outcome-map (each_row read_generation rows s) (each_generation-Leads rows Unit s h)
        (λ _ s' h'. (h'.0, h'.1, λ e. (h'.2 e).1)) (λ s' h'. h')

  -- the other files
  abbrev other_files : Files → Exec (Series F) (Unit {0})
  other_files files =
      if_there files.load (each_row read_load)
      >> (if_there files.flex_hvac (each_row read_hvac)
          >> (if_there files.flex_wh (each_row read_wh)
              >> if_there files.baseline compare_baseline))

  other_files-Keeps :
      (Q : Type 0) (files : Files)
      → files.baseline ≡ none
      → Keeps (Unserved {F = F} Q) (other_files files)
  other_files-Keeps Q files e =
      then_there files.load (each_row read_load) _ (each_row-Keeps Q _ (read_load-Keeps Q)) (
        then_there files.flex_hvac (each_row read_hvac) _ (each_row-Keeps Q _ (read_hvac-Keeps Q)) (
          then_there files.flex_wh (each_row read_wh) _ (each_row-Keeps Q _ (read_wh-Keeps Q)) (
            subst (λ o. Keeps (Unserved {F = F} Q) (if_there o compare_baseline)) (sym e)
              (pure-Keeps tt))))
    where
      then_there :
          (file : Option (List Row)) (body : List Row → Exec (Series F) (Unit {0}))
          (m : Exec (Series F) (Unit {0}))
          → ((rows : List Row) → Keeps (Unserved Q) (body rows))
          → Keeps (Unserved {F = F} Q) m
          → Keeps (Unserved {F = F} Q) (if_there file body >> m)
      then_there file body m h k =
          bind-Keeps (if_there file body) (λ _. m) (if_there-Keeps Q file body h) (λ _. k)

  read_files-Leads :
      (files : Files)
      → files.baseline ≡ none
      → Leads Unwritten
          (Unserved {F = F} Unit)
          (λ _. Unserved (HasNoData files.gen_str))
          (read_files files)
  unfolding read_files
  read_files-Leads files e =
      bind-Leads Unwritten (Unserved Unit) (λ _. Unserved (HasNoData files.gen_str))
        (λ _. Unserved (HasNoData files.gen_str))
        (if_there files.gen_str (each_row read_generation)) (λ _. other_files files)
        (read_power_file-Leads files.gen_str)
        (λ _.
          Keeps-Leads Unwritten (Unserved (HasNoData files.gen_str)) (other_files files)
            (other_files-Keeps (HasNoData files.gen_str) files e) (λ s h. h.1))

  -- without unserved load, the last loop ends at the first time, before it writes a row
  write_lines-Outcome :
      (times : List String) (gs ls fs us ps es : List F) (s : Series F)
      → us ≡ []
      → s.written ≡ []
      → Outcome
          (λ _ s'. (times ≡ []) × Unwritten s')
          Unwritten
          (write_lines times gs ls fs us ps es s)
  unfolding write_lines
  write_lines-Outcome [] gs ls fs us ps es s h e = (refl, e)
  write_lines-Outcome (time ∷ times) [] ls fs us ps es s h e = e
  write_lines-Outcome (time ∷ times) (g ∷ gs) [] fs us ps es s h e = e
  write_lines-Outcome (time ∷ times) (g ∷ gs) (l ∷ ls) [] us ps es s h e = e
  write_lines-Outcome (time ∷ times) (g ∷ gs) (l ∷ ls) (f ∷ fs) [] ps es s h e = e
  write_lines-Outcome (time ∷ times) (g ∷ gs) (l ∷ ls) (f ∷ fs) (u ∷ us) ps es s h e = ground arith

-- Without the baseline file, `timeseries_gen` writes no row after the header, and it returns only if
-- the file of the generators is not there or each of its rows begins with a text with a #; with a
-- row of data in that file it ends with an exception.
pub timeseries_gen-Outcome :
    (F : Type 0) ⦃num : Num F⦄ (files : Files)
    → files.baseline ≡ none
    → Outcome
        (λ _ s'. HasNoData files.gen_str × (s'.written ≡ []))
        (λ s'. s'.written ≡ [])
        (timeseries_gen files (empty_series {F = F}))
unfolding timeseries_gen
timeseries_gen-Outcome F files e =
    bind-Leads Unwritten (Unserved Unit) (λ _. Unserved (HasNoData files.gen_str))
      (λ _ s'. HasNoData files.gen_str × (s'.written ≡ [])) (read_files files)
      (λ _. gets (λ s. s) >>= write_series) (read_files-Leads files e)
      (λ _ s h.
        Outcome-map (write_series s s)
          (write_lines-Outcome s.timeseries s.generation s.total_load
            (sums s.flexible_load_hvac s.flexible_load_wh) s.unserved_load s.storage_power
            s.storage_energy s h.0 h.1)
          (λ _ s' (none_left, k). (h.2 none_left, k)) (λ s' k. k))
      empty_series (refl, refl, λ e. tt)
