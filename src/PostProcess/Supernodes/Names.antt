-- ===== src/PostProcess/Supernodes/Names.antt =====
-- What `timeseries_persupernode` (data_post_process.py) writes, by the names under which
-- `get_island_baseline_data` (absorption.py) looks for it.
use grip_absorption_pipeline.Base.{
  ℕ, zero, suc, String, true, Option, some, List, [], ◌∷◌, ◌≡◌, refl, ap, ◌∙◌, arith, leb,
}
use grip_absorption_pipeline.Base.Lists.{length, All}
use grip_absorption_pipeline.Base.Decimal.{first_digits, three_digits, decimal}
use grip_absorption_pipeline.Base.Dict.{Dict, get, put, get-put}
use grip_absorption_pipeline.Base.Exec.{ok, Returns, pure, ◌>>=◌, >>=-ok, >>=-Returns_eq}
use grip_absorption_pipeline.Num.{Num}
use grip_absorption_pipeline.Control.{Frame}
use grip_absorption_pipeline.Control.Baseline.{load_column}
use grip_absorption_pipeline.PostProcess.Supernodes.{
  Pandas, PandasLaws, Written, side_by_side, all_supernodes, supernode_name, load_file, kw_column,
  solar_columns, padded, read_loads, supernode_loads, baseline_loads, solar_table,
  timeseries_persupernode,
}

padded-length : {F : Type 0} ⦃num : Num F⦄ (n : ℕ) (xs : List F) → length xs ≡ n → padded n xs ≡ xs
padded-length zero [] h = refl
padded-length zero (x ∷ xs) h = absurd (omega (arith, h))
padded-length (suc n) [] h = absurd (omega (arith, h))
padded-length (suc n) (x ∷ xs) h = ap (λ ys. x ∷ ys) (padded-length n xs (omega (arith, h)))

-- The loads of a run: the times, and three columns for each supernode.
pub record Loads (F : Type 0) : Type 0 where
  pub times : List String
  pub total : ℕ → List F
  pub hvac : ℕ → List F
  pub wh : ℕ → List F

-- a file of one column
abbrev pub one_column : {F : Type 0} → List String → List F → Frame F
one_column times xs = record {
  index_name = "# timestamp";
  labels = times;
  columns = ("value", xs) ∷ [];
}

-- the recorders have written a file for each column of a supernode, for the same times
pub record IsRecordedAt {F : Type 0} ⦃pandas : Pandas F⦄ (loads : Loads F) (s : ℕ) : Type 0 where
  pub total_eq :
      pandas.read_csv 8 (load_file "total" (supernode_name s))
      ≡ some (one_column loads.times (loads.total s))
  pub hvac_eq :
      pandas.read_csv 8 (load_file "hvac" (supernode_name s))
      ≡ some (one_column loads.times (loads.hvac s))
  pub wh_eq :
      pandas.read_csv 8 (load_file "wh" (supernode_name s))
      ≡ some (one_column loads.times (loads.wh s))
  pub total_length : length (loads.total s) ≡ length loads.times
  pub hvac_length : length (loads.hvac s) ≡ length loads.times
  pub wh_length : length (loads.wh s) ≡ length loads.times

-- and those of the generators
pub record IsRecorded {F : Type 0} ⦃pandas : Pandas F⦄ (loads : Loads F) (gen : Frame F)
    : Type 0 where
  pub gen_eq : pandas.read_csv 7 "timeseries_data_gen_strg.csv" ≡ some gen
  pub gen_first : gen.index_name ≡ "# timestamp"
  pub nodes : All (IsRecordedAt loads) all_supernodes

leb_refl : (n : ℕ) → leb n n ≡ true
leb_refl n = ground arith

-- the digits in the name of a supernode are those of its number
abbrev IsNumbered : ℕ → Type 0
IsNumbered s = first_digits (supernode_name s) ≡ some (three_digits s)

all-IsNumbered : All IsNumbered all_supernodes
unfolding three_digits decimal first_digits
all-IsNumbered = (refl, (refl, (refl, (refl, (refl, (refl, (refl, (refl, (refl, tt)))))))))

module _ {F : Type 0} (loads : Loads F) where
  abbrev frame_of : ℕ → Frame F
  frame_of s = record {
    index_name = "timestamp";
    labels = loads.times;
    columns =
        (kw_column "total" (three_digits s), loads.total s)
        ∷ (kw_column "hvac" (three_digits s), loads.hvac s)
        ∷ (kw_column "wh" (three_digits s), loads.wh s)
        ∷ [];
  }

  abbrev frames_of : List ℕ → List (Frame F)
  frames_of [] = []
  frames_of (s ∷ ss) = frame_of s ∷ frames_of ss

  -- The columns of a supernode, by the names that `get_island_baseline_data` asks for.
  abbrev pub HasLoads : Dict (List F) → ℕ → Type 0
  HasLoads columns s =
      (get (load_column "total" (three_digits s)) columns ≡ some (loads.total s))
      × (get (load_column "hvac" (three_digits s)) columns ≡ some (loads.hvac s))
      × (get (load_column "wh" (three_digits s)) columns ≡ some (loads.wh s))

  module _ ⦃num : Num F⦄ ⦃pandas : Pandas F⦄ where
    supernode_loads-eq :
        (s : ℕ) (w : Written F)
        → IsNumbered s
        → IsRecordedAt loads s
        → supernode_loads s w ≡ (ok (frame_of s), w)
    unfolding supernode_loads read_loads
    supernode_loads-eq s w numbered is =
        rw
          (
            numbered,
            is.total_eq,
            is.hvac_eq,
            is.wh_eq,
            leb_refl (length loads.times),
            padded-length (length loads.times) (loads.total s) is.total_length,
            padded-length (length loads.times) (loads.hvac s) is.hvac_length,
            padded-length (length loads.times) (loads.wh s) is.wh_length,
          )
          refl

    baseline_loads-eq :
        (ss : List ℕ) (w : Written F)
        → All IsNumbered ss
        → All (IsRecordedAt loads) ss
        → baseline_loads ss w ≡ (ok (frames_of ss), w)
    unfolding baseline_loads
    baseline_loads-eq [] w h is = refl
    baseline_loads-eq (s ∷ ss) w (here, there) (is, all) =
        >>=-ok (supernode_loads s) (λ f. baseline_loads ss >>= λ fs. pure (f ∷ fs)) w
          (supernode_loads-eq s w here is)
        ∙ >>=-ok (baseline_loads ss) (λ fs. pure (frame_of s ∷ fs)) w
            (baseline_loads-eq ss w there all)

    solar_table-eq :
        (gen : Frame F) (w : Written F)
        → IsRecorded loads gen
        → solar_table w
          ≡ (ok (record gen { index_name = "timestamp"; columns = solar_columns gen.columns }), w)
    unfolding solar_table
    solar_table-eq gen w is = rw (is.gen_eq, is.gen_first) refl

abbrev later_supernodes : List ℕ
later_supernodes = 102 ∷ 103 ∷ 201 ∷ 202 ∷ 203 ∷ 301 ∷ 302 ∷ 303 ∷ []

module _ {F : Type 0} (loads : Loads F) where
  abbrev all_columns : Dict (List F)
  all_columns = side_by_side (frames_of loads all_supernodes)

  frames_of-same :
      (ss : List ℕ)
      → All (λ g. (g.index_name ≡ "timestamp") × (g.labels ≡ loads.times)) (frames_of loads ss)
  frames_of-same [] = tt
  frames_of-same (s ∷ ss) = ((refl, refl), frames_of-same ss)

  columns-HasLoads : All (HasLoads loads all_columns) all_supernodes
  unfolding three_digits decimal
  columns-HasLoads = (
    (refl, refl, refl),
    (
      (refl, refl, refl),
      (
        (refl, refl, refl),
        (
          (refl, refl, refl),
          (
            (refl, refl, refl),
            (
              (refl, refl, refl),
              ((refl, refl, refl), ((refl, refl, refl), ((refl, refl, refl), tt))),
            ),
          ),
        ),
      ),
    ),
  )

-- The file is there, with the times, and the columns of every supernode.
pub record IsBaseline {F : Type 0} (loads : Loads F) (file : Option (Frame F)) : Type 0 where
  pub frame : Frame F
  pub found : file ≡ some frame
  pub index_eq : frame.index_name ≡ "timestamp"
  pub labels_eq : frame.labels ≡ loads.times
  pub columns : All (HasLoads loads frame.columns) all_supernodes

-- Where the recorders have written all files, each with one column and the same times, and pandas
-- puts tables with the same first column side by side, `timeseries_persupernode("baseline")` returns,
-- and Loads_baseline.csv has for each of the nine supernodes its three columns, under the names that
-- `get_island_baseline_data` asks for.
pub timeseries_persupernode-IsBaseline :
    {F : Type 0} ⦃num : Num F⦄ ⦃pandas : Pandas F⦄ (laws : PandasLaws F) (loads : Loads F)
    (gen : Frame F) (w : Written F)
    → IsRecorded loads gen
    → Returns
        (λ u w'. IsBaseline loads (get "Loads_baseline.csv" w'))
        (timeseries_persupernode "baseline" w)
unfolding timeseries_persupernode
timeseries_persupernode-IsBaseline {F} ⦃num⦄ ⦃pandas⦄ laws loads gen w is =
    >>=-Returns_eq After _ solar_table w (solar_table-eq loads gen w is) (
      >>=-Returns_eq After _ (baseline_loads all_supernodes) solar_written
        (baseline_loads-eq loads all_supernodes solar_written all-IsNumbered is.nodes)
        (rw concat_eq written))
  where
    After : Unit {0} → Written F → Type 0
    After u w' = IsBaseline loads (get "Loads_baseline.csv" w')

    solar_written : Written F
    solar_written =
        put "Ps_baseline.csv"
          (record gen { index_name = "timestamp"; columns = solar_columns gen.columns }) w

    all_loads : Frame F
    all_loads = record (frame_of loads 101) { columns = all_columns loads }

    concat_eq : pandas.concat (frames_of loads all_supernodes) ≡ some all_loads
    concat_eq = laws.concat_same (frame_of loads 101) _ (frames_of-same loads later_supernodes)

    written :
        IsBaseline loads
          (get "Loads_baseline.csv" (put "Loads_baseline.csv" all_loads solar_written))
    written = record {
      frame = all_loads;
      found = get-put "Loads_baseline.csv" "Loads_baseline.csv" all_loads solar_written;
      index_eq = refl;
      labels_eq = refl;
      columns = columns-HasLoads loads;
    }
