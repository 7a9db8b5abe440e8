-- ===== src/PostProcess/Series/Tests.antt =====
-- Files with one time, and the theorem about a missing file applied.
use grip_absorption_pipeline.Base.{String, ◌≡◌, refl, none, some, List, [], ◌∷◌}
use grip_absorption_pipeline.Base.Text.{contains_text, split_first}
use grip_absorption_pipeline.Base.Exec.{err, index_error}
use grip_absorption_pipeline.Base.Outcomes.{Outcome}
use grip_absorption_pipeline.Sample.{ℤ, pos, whole}
use grip_absorption_pipeline.PostProcess.Series.{
  Row, Files, number_in, each_row, read_power, read_energy, read_generation, read_load, read_hvac,
  read_wh, match_times, read_baseline, unserved, compare_baseline, write_lines, read_files,
  timeseries_gen, empty_series,
}
use grip_absorption_pipeline.PostProcess.Series.Missing.{HasNoData, timeseries_gen-Outcome}

abbrev power : List Row
power =
    ("# file" ∷ [])
    ∷ ("12:00" ∷ "1 kW" ∷ "2 kW" ∷ "3 kW" ∷ "4" ∷ "5" ∷ "6" ∷ "1" ∷ "1" ∷ "1" ∷ "2" ∷ "3" ∷ "4"
        ∷ [])
    ∷ []

abbrev one : String → List Row
one x = ("12:00" ∷ x ∷ []) ∷ []

abbrev files : Files
files = record {
  gen_str = some power;
  load = some (one "5 kW");
  flex_hvac = some (one "2 kW");
  flex_wh = some (one "1 kW");
  baseline = some (one "10");
}

timeseries_gen-run :
    (timeseries_gen files (empty_series {F = ℤ})).1.written
    ≡ record { time = "12:00"; numbers = pos 6 ∷ pos 5 ∷ pos 3 ∷ pos 0 ∷ pos 15 ∷ pos 9 ∷ [] } ∷ []
unfolding timeseries_gen read_files each_row read_generation read_power read_energy number_in
    read_load read_hvac read_wh compare_baseline read_baseline match_times unserved write_lines
    contains_text split_first
timeseries_gen-run = refl

missing-run :
    (timeseries_gen (record files { baseline = none }) (empty_series {F = ℤ})).0 ≡ err index_error
unfolding timeseries_gen read_files each_row read_generation read_power read_energy number_in
    read_load read_hvac read_wh write_lines contains_text split_first
missing-run = refl

timeseries_gen-Outcome_example :
    Outcome
      (λ _ s'. HasNoData (some power) × (s'.written ≡ []))
      (λ s'. s'.written ≡ [])
      (timeseries_gen (record files { baseline = none }) (empty_series {F = ℤ}))
timeseries_gen-Outcome_example = timeseries_gen-Outcome ℤ (record files { baseline = none }) refl
