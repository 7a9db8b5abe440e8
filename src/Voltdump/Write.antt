-- ===== src/Voltdump/Write.antt =====
-- The rows of voltages.csv (voltdump.py, lines 45-54).
use grip_absorption_pipeline.Base.{List, [], ◌∷◌, if◌then◌else◌}
use grip_absorption_pipeline.Voltdump.{CsvRow, Complex, Times, Polar, Samples, Dump}

module _ {F T : Type 0} ⦃times : Times T⦄ where
  -- `sorted(data.keys())`, each key with its values
  abbrev pub insert_time : T × List (Complex F) → Samples F T → Samples F T
  insert_time (t, vs) [] = (t, vs) ∷ []
  insert_time (t, vs) ((u, ws) ∷ d) =
      let rest = insert_time (t, vs) d in
      if times.before t u then (t, vs) ∷ (u, ws) ∷ d else (u, ws) ∷ rest

  abbrev pub sort_times : Samples F T → Samples F T
  sort_times [] = []
  sort_times (e ∷ d) = insert_time e (sort_times d)

abbrev pub polar_row : {F : Type 0} ⦃pol : Polar F⦄ → List (Complex F) → CsvRow
polar_row [] = []
polar_row {F} ⦃pol⦄ (v ∷ vs) = pol.polar v ∷ polar_row vs

module _ {F T : Type 0} ⦃times : Times T⦄ ⦃pol : Polar F⦄ where
  abbrev pub time_rows : Samples F T → List CsvRow
  time_rows [] = []
  time_rows ((t, vs) ∷ d) = (times.strftime t ∷ polar_row vs) ∷ time_rows d

  -- the rows of voltages.csv
  unfoldable pub write_voltages : Dump F T → List CsvRow
  write_voltages d = d.nodes ∷ time_rows (sort_times d.data_of)
