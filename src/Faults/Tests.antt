-- ===== src/Faults/Tests.antt =====
-- A board with two supernodes, one of them newly faulted, and the theorems applied to it.
use grip_absorption_pipeline.Base.{String, Bool, some, [], ◌∷◌, ◌==◌, if◌then◌else◌}
use grip_absorption_pipeline.Sample.{Board, board}
use grip_absorption_pipeline.Faults.{Area}

abbrev reading : String → String → String
reading o p =
    if o == "supernode_list"
    then "[['supernode_001', 'supernode_002']]"
    else if p == "supernode_fault"
    then (if o == "supernode_002" then "TRUE" else "FALSE")
    else ""

abbrev area : Area Board
area = record {
  sim = record {
    names = "meter_1" ∷ [];
    properties = λ o. ("name", o) ∷ ("class", "triplex_meter") ∷ [];
    value = reading;
  };
  faulted_nodes = "supernode_001" ∷ [];
  device_map = some [];
  lines = [];
}

abbrev want : String → Bool
want sn = sn == "supernode_002"
