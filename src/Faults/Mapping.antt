-- ===== src/Faults/Mapping.antt =====
-- `map_devices_to_nodes` and `temp_control_absorption` (absorption.py).
use grip_absorption_pipeline.Base.{String, List, [], ◌∷◌, ◌==◌, if◌then◌else◌}
use grip_absorption_pipeline.Base.Dict.{Dict, put}
use grip_absorption_pipeline.Base.Exec.{Exec, gets, ◌>>=◌}
use grip_absorption_pipeline.Gridlab.{Gridlab}
use grip_absorption_pipeline.Faults.{NodeDevices, Area, value_of, assign, find, supernodes_in}

module _ {Sim : Type 0} ⦃gld : Gridlab Sim⦄ where
  -- `[h for h in houses if gridlabd.get_value(h,"supernode_name") == node]`
  abbrev pub devices_at : Sim → String → List String → List String
  devices_at sim node [] = []
  devices_at sim node (h ∷ hs) =
      let rest = devices_at sim node hs in
      if gld.get_value sim h "supernode_name" == node then h ∷ rest else rest

  -- the loop over the supernodes, into a dict that begins as `device_map`
  abbrev pub map_each :
      Sim → List String → List String → Dict NodeDevices → List String → Dict NodeDevices
  map_each sim houses waterheaters device_map [] = device_map
  map_each sim houses waterheaters device_map (node ∷ nodes) =
      map_each sim houses waterheaters
        (put node
          (record {
            houses = devices_at sim node houses;
            waterheaters = devices_at sim node waterheaters;
          })
          device_map)
        nodes

  pub map_devices_to_nodes : Exec (Area Sim) (Dict NodeDevices)
  map_devices_to_nodes = do
    houses ← find "class=house"
    waterheaters ← find "class=waterheater"
    nodestr ← value_of "supernode_list" "node_group"
    gets λ a. map_each a.sim houses waterheaters [] (supernodes_in nodestr)

  pub temp_control_absorption : String → Exec (Area Sim) (Unit {0})
  temp_control_absorption house_id = assign house_id "thermostat_control" "FULL"
