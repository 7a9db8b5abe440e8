-- ===== src/Voltdump/Powers.antt =====
-- The power dumps as voltdump.py merges them (lines 57-107): every file of the directory `output`
-- that is called power_dump_…, row by row, into powers.csv.
pub mod Rows
use grip_absorption_pipeline.Base.{
  ℕ, suc, ◌*◌, String, Bool, true, false, not, Option, none, some, List, [], ◌∷◌, ◌++◌, ◌≡◌, refl,
  ap, inl, inr, Option-cases, Bool-cases, ◌⊎◌, ◌==◌, if◌then◌else◌,
}
use grip_absorption_pipeline.Base.Lists.{length}
use grip_absorption_pipeline.Base.Text.{starts_with}
use grip_absorption_pipeline.Base.Exec.{
  Exec, Result, ok, err, pure, gets, or_raise, lift, modify, attempt, Returns, index_error,
  value_error, key_error, other_exception, ◌>>=◌, ◌>>◌,
}
use grip_absorption_pipeline.Num.{Num, divide}
use grip_absorption_pipeline.Voltdump.{
  CsvRow, Complex, Times, Polar, Samples, clear_time, extend_time, has_time, cell_at,
}
use grip_absorption_pipeline.Voltdump.Write.{time_rows}

pub record Powers (F T : Type 0) : Type 0 where
  pub headers : List String
  pub samples : Samples F T

abbrev pub powers_start : {F T : Type 0} → Powers F T
powers_start = record { headers = "Timestamp" ∷ []; samples = [] }

-- `row[1:]`
abbrev pub cells_after_first : CsvRow → CsvRow
cells_after_first [] = []
cells_after_first (c ∷ row) = row

-- `row[0][0] == '#'`, with `none` for the IndexError
abbrev pub is_comment : String → Option Bool
is_comment String.[] = none
is_comment (String.◌∷◌ c s) = some (starts_with "#" (String.◌∷◌ c s))

module _ {F : Type 0} ⦃num : Num F⦄ ⦃pol : Polar F⦄ where
  abbrev pub or_value_error : Option F → Result F
  or_value_error none = err value_error
  or_value_error (some x) = ok x

  -- `complex(m*math.cos(a),m*math.sin(a))`
  abbrev pub from_polar : F → F → Complex F
  from_polar m a = (num.mul m (pol.cos a), num.mul m (pol.sin a))

  -- both `float`, the magnitude first
  abbrev pub polar_of : (F → F) → Option F → Option F → Result (Complex F)
  polar_of angle none a = err value_error
  polar_of angle (some m) none = err value_error
  polar_of angle (some m) (some a) = ok (from_polar m (angle a))

  -- `a*3.1415926/180.0`
  abbrev pub radians : F → F
  radians a = num.div (num.mul a pol.pi) (num.lit 180)

  -- `complex(s)`
  abbrev pub plain : Option (Complex F) → Result (Complex F)
  plain none = err other_exception
  plain (some z) = ok z

  -- by the parts that `re.split` makes of the text
  abbrev pub by_parts : String → List String → Result (Complex F)
  by_parts s (before ∷ m ∷ a ∷ unit ∷ after ∷ more) =
      if unit == "d"
      then polar_of radians (num.float m) (num.float a)
      else if unit == "r"
      then polar_of (λ x. x) (num.float m) (num.float a)
      else plain (pol.complex s)
  by_parts s (before ∷ m ∷ a ∷ unit ∷ []) = plain (pol.complex s)
  by_parts s (before ∷ m ∷ a ∷ []) = plain (pol.complex s)
  by_parts s (before ∷ m ∷ []) = plain (pol.complex s)
  by_parts s (before ∷ []) = plain (pol.complex s)
  by_parts s [] = plain (pol.complex s)

  unfoldable pub to_complex : String → Result (Complex F)
  to_complex s = by_parts s (pol.split_complex s)

  -- `list(map(lambda x:to_complex(x),cells))`
  unfoldable pub to_complexes : {S : Type 0} → CsvRow → Exec S (List (Complex F))
  to_complexes [] = pure []
  to_complexes (c ∷ cells) = do z ← lift (to_complex c); zs ← to_complexes cells; pure (z ∷ zs)

  module _ {T : Type 0} ⦃times : Times T⦄ where
    -- `if not timestamp in data.keys() : data[timestamp] = []`
    unfoldable pub add_time : T → Exec (Powers F T) (Unit {0})
    add_time t = do
      known ← gets λ p. has_time t p.samples
      if not known then modify (λ p. record p { samples = clear_time t p.samples }) else pure tt

    -- the body of the `try`
    unfoldable pub extend_powers : T → CsvRow → Exec (Powers F T) (Unit {0})
    extend_powers t cells = do
      values ← to_complexes cells
      modify λ p. record p { samples = extend_time t values p.samples }

    unfoldable pub read_power_row : CsvRow → Exec (Powers F T) (Unit {0})
    read_power_row row = do
      first ← or_raise (cell_at 0 row) index_error
      comment ← or_raise (is_comment first) index_error
      if comment
          then (if first == "# timestamp"
              then modify (λ p. record p { headers = p.headers ++ cells_after_first row })
              else pure tt)
          else (do
            t ← or_raise (times.strptime first) value_error
            add_time t
            attempt (extend_powers t (cells_after_first row)))

    unfoldable pub read_power_rows : List CsvRow → Exec (Powers F T) (Unit {0})
    read_power_rows [] = pure tt
    read_power_rows (row ∷ rows) = read_power_row row >> read_power_rows rows

    -- the files of the directory, in the order of `os.listdir`
    unfoldable pub read_power_files : List (String × List CsvRow) → Exec (Powers F T) (Unit {0})
    read_power_files [] = pure tt
    read_power_files ((name, rows) ∷ files) = do
      if starts_with "power_dump_" name then read_power_rows rows else pure tt
      read_power_files files

    -- the rows of powers.csv
    unfoldable pub write_powers : Powers F T → List CsvRow
    write_powers p = p.headers ∷ time_rows p.samples
