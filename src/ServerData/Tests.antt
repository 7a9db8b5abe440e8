-- ===== src/ServerData/Tests.antt =====
-- Three branches, one of them from a bus to itself, and the theorem about their numbers applied.
use grip_absorption_pipeline.Base.{◌≡◌, refl, some, [], ◌∷◌, arith}
use grip_absorption_pipeline.Base.Decimal.{int_of}
use grip_absorption_pipeline.Base.Dict.{Dict}
use grip_absorption_pipeline.Base.Exec.{Returns}
use grip_absorption_pipeline.Base.Lists.{length}
use grip_absorption_pipeline.Sample.{Board}
use grip_absorption_pipeline.Faults.{Area}
use grip_absorption_pipeline.Base.{none}
use grip_absorption_pipeline.ServerData.{BranchRow}
use grip_absorption_pipeline.ServerData.Tables.{
  column_t, column_f, proper, buses_of, number_branches,
}
use grip_absorption_pipeline.ServerData.Buses.{busmap, renumber}
use grip_absorption_pipeline.ServerData.Branches.{IsColumn, number_branches-Returns}

abbrev branches : Dict BranchRow
branches =
    ("switch_1", record { t = "203"; f = "101"; status = 1; kind = "switch" })
    ∷ ("line_2", record { t = "101"; f = "102"; status = 1; kind = "fixed" })
    ∷ ("line_3", record { t = "102"; f = "102"; status = 1; kind = "fixed" })
    ∷ []

abbrev empty_area : Area Board
empty_area = record {
  sim = record { names = []; properties = λ o. []; value = λ o p. "" };
  faulted_nodes = [];
  device_map = none;
  lines = [];
}

renumber-run :
    renumber (busmap (buses_of branches)) (column_t (proper branches)) ≡ some (3 ∷ 1 ∷ [])
unfolding busmap int_of
renumber-run = refl

number_branches-Returns_example :
    Returns
      (λ n b.
        (b ≡ empty_area)
        × (n.rows ≡ proper branches)
        × IsColumn n.numbers (length (buses_of n.rows)) (column_t n.rows) n.t
        × IsColumn n.numbers (length (buses_of n.rows)) (column_f n.rows) n.f)
      (number_branches branches empty_area)
number_branches-Returns_example = number_branches-Returns branches empty_area (omega arith)
