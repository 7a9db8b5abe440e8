-- ===== src/Voltdump/Tests.antt =====
-- Dumps of two nodes at two times: the theorems of Voltdump applied to them, and runs of the code.
use grip_absorption_pipeline.Base.{String, ◌≡◌, refl, none, some, List, [], ◌∷◌, ◌==◌, eq_iff}
use grip_absorption_pipeline.Base.Lists.{length, All}
use grip_absorption_pipeline.Base.Text.{starts_with, position, slice}
use grip_absorption_pipeline.Base.Exec.{err, name_error, Returns}
use grip_absorption_pipeline.Sample.{ℤ, pos, whole}
use grip_absorption_pipeline.Thermostat.{text_lt}
use grip_absorption_pipeline.Voltdump.{
  Times, TimesLaws, Polar, Dump, dump_start, note_time, read_mark, read_header, extend_data,
  read_node, read_row, read_rows,
}
use grip_absorption_pipeline.Voltdump.Write.{write_voltages}
use grip_absorption_pipeline.Voltdump.Shape.{HasShape, columns, read_rows-HasShape}
use grip_absorption_pipeline.Voltdump.Blocks.{Reading, Block, IsBlock, HasRead, entries, dump_rows}
use grip_absorption_pipeline.Voltdump.Columns.{read_rows-columns, write_voltages-IsTable}
use grip_absorption_pipeline.Voltdump.Powers.{Powers, powers_start, read_power_row}
use grip_absorption_pipeline.Voltdump.Powers.Rows.{
  IsAllOrNone, with_time, read_power_row-IsAllOrNone,
}

-- times that are their texts
instance abbrev text_times : Times String
text_times = record {
  strptime = λ s. some s;
  same = λ s t. s == t;
  before = text_lt;
  strftime = λ s. s;
}

instance abbrev some_polar : Polar ℤ
some_polar = record {
  polar = λ z. "1+0d";
  cos = λ x. x;
  sin = λ x. x;
  pi = pos 3;
  complex = λ s. none;
  split_complex = λ s. "" ∷ "1" ∷ "2" ∷ s ∷ "" ∷ [];
}

text_times-TimesLaws : TimesLaws String
text_times-TimesLaws = record { same_refl = λ t. (eq_iff t t).1 refl }

abbrev reading : String → Reading ℤ
reading name = record {
  name = name;
  a_re = "1";
  a_im = "2";
  b_re = "3";
  b_im = "4";
  c_re = "5";
  c_im = "6";
  a = (pos 1, pos 2);
  b = (pos 3, pos 4);
  c = (pos 5, pos 6);
}

abbrev morning : Block ℤ String
morning = record {
  mark = "# run at 2020-01-01 08:00:00 UTC";
  time = "2020-01-01 08:00:00 UTC";
  readings = reading "node_1" ∷ reading "node_2" ∷ [];
}

abbrev evening : Block ℤ String
evening = record {
  mark = "# run at 2020-01-01 20:00:00 UTC";
  time = "2020-01-01 20:00:00 UTC";
  readings = reading "node_1" ∷ reading "node_2" ∷ [];
}

abbrev two_nodes : List String
two_nodes = "node_1" ∷ "node_2" ∷ []

morning-IsBlock : IsBlock morning
unfolding starts_with position slice
morning-IsBlock = record {
  is_mark = refl;
  at = 4;
  at_eq = refl;
  time_eq = refl;
  are_readings = (
    (refl, refl, refl, refl, refl, refl, refl),
    ((refl, refl, refl, refl, refl, refl, refl), tt),
  );
}

evening-IsBlock : IsBlock evening
unfolding starts_with position slice
evening-IsBlock = record {
  is_mark = refl;
  at = 4;
  at_eq = refl;
  time_eq = refl;
  are_readings = (
    (refl, refl, refl, refl, refl, refl, refl),
    ((refl, refl, refl, refl, refl, refl, refl), tt),
  );
}

read_rows-HasShape_example :
    HasShape ((read_rows {F = ℤ} {T = String} (dump_rows (morning ∷ evening ∷ [])) dump_start).1)
read_rows-HasShape_example = read_rows-HasShape (dump_rows (morning ∷ evening ∷ []))

read_rows-columns_example :
    Returns
      (HasRead (entries (morning ∷ evening ∷ [])) ("Timestamp" ∷ columns two_nodes))
      (read_rows (dump_rows (morning ∷ evening ∷ [])) dump_start)
read_rows-columns_example =
    read_rows-columns text_times-TimesLaws two_nodes morning (evening ∷ [])
      (morning-IsBlock, (evening-IsBlock, tt)) (refl, (refl, tt)) (refl, (refl, tt))
      (refl, (refl, tt))

write_voltages-IsTable_example :
    Returns
      (λ u (d : Dump ℤ String). All (λ row. length row ≡ 7) (write_voltages d))
      (read_rows (dump_rows (morning ∷ evening ∷ [])) dump_start)
write_voltages-IsTable_example =
    write_voltages-IsTable text_times-TimesLaws two_nodes morning (evening ∷ [])
      (morning-IsBlock, (evening-IsBlock, tt)) (refl, (refl, tt)) (refl, (refl, tt))
      (refl, (refl, tt))

read_power_row-IsAllOrNone_example :
    Returns
      (λ u (p' : Powers ℤ String).
        (p'.headers ≡ "Timestamp" ∷ [])
        × IsAllOrNone "2020-01-01 08:00:00 UTC"
            ("d" ∷ "x" ∷ [])
            (with_time {F = ℤ} "2020-01-01 08:00:00 UTC" [])
            p'.samples)
      (read_power_row ("2020-01-01 08:00:00 UTC" ∷ "d" ∷ "x" ∷ []) powers_start)
unfolding starts_with
read_power_row-IsAllOrNone_example =
    read_power_row-IsAllOrNone "2020-01-01 08:00:00 UTC" ("d" ∷ "x" ∷ []) "2020-01-01 08:00:00 UTC"
      powers_start refl refl

-- A block with its nodes in another order puts the numbers of node_2 under node_1.
abbrev turned : Block ℤ String
turned = record evening {
  readings = reading "node_2" ∷ record (reading "node_1") { a = (pos 9, pos 2); a_re = "9" } ∷ [];
}

read_rows-turned :
    (read_rows {F = ℤ} {T = String} (dump_rows (morning ∷ turned ∷ [])) dump_start).1.nodes
    ≡ "Timestamp" ∷ columns two_nodes
unfolding read_rows read_row read_mark note_time read_header read_node extend_data starts_with
    position slice
read_rows-turned = refl

read_rows-turned_data :
    (read_rows {F = ℤ} {T = String} (dump_rows (morning ∷ turned ∷ [])) dump_start).1.data_of
    ≡ entries (morning ∷ turned ∷ [])
unfolding read_rows read_row read_mark note_time read_header read_node extend_data starts_with
    position slice
read_rows-turned_data = refl

-- A file that starts with no row of `#` ends with the NameError of `header`.
read_rows-no_mark :
    (read_rows {F = ℤ} {T = String} (("node_1" ∷ []) ∷ []) dump_start).0 ≡ err name_error
unfolding read_rows read_row starts_with
read_rows-no_mark = refl
