-- ===== src/Base/Nodes.antt =====
-- `int(name.split('_')[1])`: the number in the name of a node.
use grip_absorption_pipeline.Base.{ℕ, String, Option, none, some, ◌==◌, if◌then◌else◌}
use grip_absorption_pipeline.Base.Text.{split_second}
use grip_absorption_pipeline.Base.Decimal.{first_digits, int_of}
use grip_absorption_pipeline.Base.Exec.{Exec, or_raise, index_error, value_error, ◌>>=◌}

-- `int(text)` of a text of digits; a node's name has no other numeral
abbrev all_digits : String → Option String → Option ℕ
all_digits s none = none
all_digits s (some d) = if d == s then some (int_of s) else none

unfoldable pub bus_number : {S : Type 0} → String → Exec S ℕ
unfolding split_second
bus_number sn = do
  part ← or_raise (split_second "_" sn) index_error
  or_raise (all_digits part (first_digits part)) value_error
