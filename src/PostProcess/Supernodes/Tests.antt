-- ===== src/PostProcess/Supernodes/Tests.antt =====
-- The loads of a run with one time, and the theorem applied to them.
use grip_absorption_pipeline.Base.{
  ℕ, String, ◌≡◌, refl, ap, Option, none, some, List, [], ◌∷◌, nat_eq, if◌then◌else◌,
}
use grip_absorption_pipeline.Base.Lists.{All}
use grip_absorption_pipeline.Base.Decimal.{three_digits, decimal}
use grip_absorption_pipeline.Base.Text.{starts_with}
use grip_absorption_pipeline.Base.Dict.{get}
use grip_absorption_pipeline.Base.Exec.{ok, Returns}
use grip_absorption_pipeline.Sample.{ℤ, pos, whole, board}
use grip_absorption_pipeline.Control.{Frame}
use grip_absorption_pipeline.Control.Baseline.{no_sums, island_sums}
use grip_absorption_pipeline.Control.Tests.{control}
use grip_absorption_pipeline.PostProcess.Supernodes.Totals.{timeseries_persupernode-island_sums}
use grip_absorption_pipeline.PostProcess.Supernodes.{
  Pandas, PandasLaws, load_file, supernode_name, side_by_side, all_supernodes,
  timeseries_persupernode,
}
use grip_absorption_pipeline.PostProcess.Supernodes.Names.{
  Loads, IsRecordedAt, IsRecorded, IsBaseline, one_column, timeseries_persupernode-IsBaseline,
}

abbrev loads : Loads ℤ
loads = record {
  times = "2022-07-14 10:02:00 PDT" ∷ [];
  total = λ s. pos 7 ∷ [];
  hvac = λ s. pos 2 ∷ [];
  wh = λ s. pos 1 ∷ [];
}

abbrev gen : Frame ℤ
gen = record {
  index_name = "# timestamp";
  labels = "2022-07-14 10:02:00 PDT" ∷ [];
  columns = ("solar_101:P_Out", pos 3 ∷ []) ∷ ("battery_101:P_Out", pos 4 ∷ []) ∷ [];
}

abbrev loads_of : String → List ℤ
unfolding starts_with
loads_of file =
    if starts_with "total" file
    then pos 7 ∷ []
    else if starts_with "hvac" file
    then pos 2 ∷ []
    else pos 1 ∷ []

abbrev put_together : List (Frame ℤ) → Option (Frame ℤ)
put_together [] = none
put_together (f ∷ fs) = some (record f { columns = side_by_side (f ∷ fs) })

instance abbrev some_pandas : Pandas ℤ
some_pandas = record {
  read_csv =
      λ row file. some (if nat_eq row 7 then gen else one_column loads.times (loads_of file));
  concat = put_together;
}

some_pandas-PandasLaws : PandasLaws ℤ
some_pandas-PandasLaws = record { concat_same = λ f fs h. refl }

-- a supernode with its three files
at_node :
    (s : ℕ)
    → loads_of (load_file "total" (supernode_name s)) ≡ pos 7 ∷ []
    → loads_of (load_file "hvac" (supernode_name s)) ≡ pos 2 ∷ []
    → loads_of (load_file "wh" (supernode_name s)) ≡ pos 1 ∷ []
    → IsRecordedAt loads s
at_node s total hvac wh = record {
  total_eq = ap (λ xs. some (one_column loads.times xs)) total;
  hvac_eq = ap (λ xs. some (one_column loads.times xs)) hvac;
  wh_eq = ap (λ xs. some (one_column loads.times xs)) wh;
  total_length = refl;
  hvac_length = refl;
  wh_length = refl;
}

loads-IsRecordedAt : All (IsRecordedAt loads) all_supernodes
unfolding starts_with loads_of three_digits decimal
loads-IsRecordedAt = (
  at_node 101 refl refl refl,
  (
    at_node 102 refl refl refl,
    (
      at_node 103 refl refl refl,
      (
        at_node 201 refl refl refl,
        (
          at_node 202 refl refl refl,
          (
            at_node 203 refl refl refl,
            (
              at_node 301 refl refl refl,
              (at_node 302 refl refl refl, (at_node 303 refl refl refl, tt)),
            ),
          ),
        ),
      ),
    ),
  ),
)

loads-IsRecorded : IsRecorded loads gen
loads-IsRecorded = record { gen_eq = refl; gen_first = refl; nodes = loads-IsRecordedAt }

timeseries_persupernode-IsBaseline_example :
    Returns
      (λ u w'. IsBaseline loads (get "Loads_baseline.csv" w'))
      (timeseries_persupernode "baseline" [])
timeseries_persupernode-IsBaseline_example =
    timeseries_persupernode-IsBaseline some_pandas-PandasLaws loads gen [] loads-IsRecorded

timeseries_persupernode-island_sums_example :
    Returns
      (λ u w'.
        (frame : Frame ℤ) × (get "Loads_baseline.csv" w' ≡ some frame)
        × (island_sums frame.columns (102 ∷ 303 ∷ []) (no_sums frame.labels) control
            ≡ (ok (record { f_baseline = pos 6 ∷ []; nf_baseline = pos 14 ∷ [] }), control)))
      (timeseries_persupernode "baseline" [])
timeseries_persupernode-island_sums_example =
    timeseries_persupernode-island_sums some_pandas-PandasLaws loads gen [] (102 ∷ 303 ∷ []) control
      loads-IsRecorded (refl, (refl, tt))
