-- ===== src/Faults.antt =====
-- What absorption.py does to the simulation about faults: `find`, the loads that are shut off, the
-- switches, and the list of the faulted supernodes. A set is the list of its items in the order
-- in which Python goes through it.
pub mod Keeps
pub mod Reads
pub mod Marks
pub mod Detect
pub mod Mapping
pub mod Downstream
mod Tests
use Prim.Native.String.{◌++◌ as str_append}
use grip_absorption_pipeline.Base.{
  String, Bool, true, false, Option, none, some, List, [], ◌∷◌, ◌++◌, ◌&&◌, ◌==◌, if◌then◌else◌,
}
use grip_absorption_pipeline.Base.Text.{split, split_first, split_second, without, inner}
use grip_absorption_pipeline.Base.Dict.{Dict, get, listed, contains}
use grip_absorption_pipeline.Base.Exec.{
  Exec, pure, gets, or_raise, modify, key_error, type_error, syntax_error, ◌>>=◌, ◌>>◌,
}
use grip_absorption_pipeline.Gridlab.{Gridlab}

-- an entry of `device_map`
pub record NodeDevices : Type 0 where
  pub houses : List String
  pub waterheaters : List String

-- The simulation, the global variables of absorption.py that these functions use, and the lines
-- that they append to CSV files, each with its file.
pub record Area (Sim : Type 0) : Type 0 where
  pub sim : Sim
  pub faulted_nodes : List String
  pub device_map : Option (Dict NodeDevices)
  pub lines : List (String × String)

-- `[n for n in ns if n != k]`
abbrev pub all_but : String → List String → List String
all_but k [] = []
all_but k (n ∷ ns) = let rest = all_but k ns in if n == k then rest else n ∷ rest

-- `tobool` of `new_fault_detected`, `switchstat` of `shutoff_noislanding`
abbrev pub tobool : Dict Bool
tobool = ("TRUE", true) ∷ ("FALSE", false) ∷ []

-- `(key in item) and (item[key] == wanted)`
abbrev pub meets : String → String → Option String → Bool
meets key wanted none = false
meets key wanted (some v) = v == wanted

-- the supernodes, from a text such as "[['supernode_001', 'supernode_002']]"
unfoldable pub supernodes_in : String → List String
unfolding without inner split
supernodes_in nodestr = split "," (inner (without " " (without "'" nodestr)))

-- the text of `toggle_switches`: each switch but the last with a bar behind it
abbrev pub joined : List String → String
joined [] = ""
joined (s ∷ []) = s
joined (s ∷ (t ∷ ts)) = str_append s (str_append "|" (joined (t ∷ ts)))

module _ {Sim : Type 0} ⦃gld : Gridlab Sim⦄ where
  abbrev pub value_of : String → String → Exec (Area Sim) String
  value_of id prop a = gets (λ s. gld.get_value s.sim id prop) a

  abbrev pub assign : String → String → String → Exec (Area Sim) (Unit {0})
  assign id prop v = modify λ a. record a { sim = gld.set_value a.sim id prop v }

  -- `file.write(f'{gridlabd.get_global("clock")}, {text}\n')`, into a file opened for appending
  abbrev pub log_power : String → String → Exec (Area Sim) (Unit {0})
  log_power id text = modify λ a. record a {
    lines =
        a.lines
        ++ (
          str_append id "-P_Out.csv",
          str_append (gld.get_global a.sim "clock") (str_append ", " text),
        )
          ∷ [];
  }

  -- `"{}_{}".format(item['class'],item['id'])`
  unfoldable pub class_and_id : Dict String → Exec (Area Sim) String
  class_and_id item = do
    kind ← or_raise (get "class" item) key_error
    id ← or_raise (get "id" item) key_error
    pure (str_append kind (str_append "_" id))

  unfoldable pub name_of : Dict String → Option String → Exec (Area Sim) String
  name_of item (some name) = pure name
  name_of item none = class_and_id item

  unfoldable pub one_name : Dict String → Exec (Area Sim) (List String)
  unfolding name_of
  one_name item = do name ← name_of item (get "name" item); pure (name ∷ [])

  -- the loop of `find`
  unfoldable pub find_among : String → String → List String → Exec (Area Sim) (List String)
  unfolding one_name
  find_among key wanted [] = pure []
  find_among key wanted (name ∷ names) = do
    item ← gets λ a. gld.get_object a.sim name
    found ← if meets key wanted (get key item) then one_name item else pure []
    more ← find_among key wanted names
    pure (found ++ more)

  -- `find(criteria)`
  unfoldable pub find : String → Exec (Area Sim) (List String)
  unfolding split_first split_second
  find criteria = do
    wanted ← or_raise (split_second "=" criteria) syntax_error
    names ← gets λ a. gld.objects a.sim
    find_among (split_first "=" criteria) wanted names

  unfoldable pub stop_inverter : String → Exec (Area Sim) (Unit {0})
  stop_inverter inv =
      assign inv "P_Out" "0" >> assign inv "generator_status" "OFFLINE" >> log_power inv "0"

  unfoldable pub stop_inverters : String → List String → Exec (Area Sim) (Unit {0})
  stop_inverters node [] = pure tt
  stop_inverters node (inv ∷ invs) = do
    supernode ← value_of inv "supernode_name"
    if supernode == node then stop_inverter inv else pure tt
    stop_inverters node invs

  unfoldable pub stop_meters : String → List String → Exec (Area Sim) (Unit {0})
  stop_meters node [] = pure tt
  stop_meters node (m ∷ ms) = do
    supernode ← value_of m "supernode_name"
    if supernode == node then assign m "service_status" "OUT_OF_SERVICE" else pure tt
    stop_meters node ms

  unfoldable pub stop_heaters : List String → Exec (Area Sim) (Unit {0})
  stop_heaters [] = pure tt
  stop_heaters (w ∷ ws) = assign w "re_override" "OV_OFF" >> stop_heaters ws

  -- `if node in device_map`
  unfoldable pub stop_mapped : Option NodeDevices → Exec (Area Sim) (Unit {0})
  stop_mapped none = pure tt
  stop_mapped (some devices) = stop_heaters devices.waterheaters

  -- The end of `shutoff_loads`; `in None` is a TypeError.
  unfoldable pub stop_heaters_at : String → Exec (Area Sim) (Unit {0})
  stop_heaters_at node = do
    known ← gets λ a. a.device_map
    device_map ← or_raise known type_error
    stop_mapped (get node device_map)

  unfoldable pub stop_found : String → List String → List String → Exec (Area Sim) (Unit {0})
  stop_found node inverters meters =
      stop_inverters node inverters >> stop_meters node meters >> stop_heaters_at node

  -- `shutoff_loads(node)`
  unfoldable pub shutoff_loads : String → Exec (Area Sim) (Unit {0})
  shutoff_loads node = do
    meters ← find "class=triplex_meter"
    inverters ← find "class=inverter"
    stop_found node inverters meters

  unfoldable pub is_faulted : String → Exec (Area Sim) Bool
  is_faulted sn = do value ← value_of sn "supernode_fault"; or_raise (get value tobool) key_error

  unfoldable pub mark_faulted : String → Exec (Area Sim) (Unit {0})
  mark_faulted sn = modify λ a. record a { faulted_nodes = a.faulted_nodes ++ sn ∷ [] }

  -- one round of the loop of `new_fault_detected`, with `faultchange`
  unfoldable pub note_fault : String → Bool → Bool → Bool → Exec (Area Sim) Bool
  note_fault sn true true faultchange = pure faultchange
  note_fault sn true false faultchange = do mark_faulted sn; shutoff_loads sn; pure true
  note_fault sn false true faultchange = do
    modify λ a. record a { faulted_nodes = all_but sn a.faulted_nodes }
    pure true
  note_fault sn false false faultchange = pure faultchange

  unfoldable pub check_faults : List String → Bool → Exec (Area Sim) Bool
  check_faults [] faultchange = pure faultchange
  check_faults (sn ∷ sns) faultchange = do
    faulted ← is_faulted sn
    known ← gets λ a. listed sn a.faulted_nodes
    changed ← note_fault sn faulted known faultchange
    check_faults sns changed

  -- `new_fault_detected()`
  unfoldable pub new_fault_detected : Exec (Area Sim) Bool
  new_fault_detected = do
    nodestr ← value_of "supernode_list" "node_group"
    check_faults (supernodes_in nodestr) false

  unfoldable pub toggle_switches : List String → Exec (Area Sim) (Unit {0})
  toggle_switches switchlist =
      assign "scheme_1" "armed" (joined switchlist) >> assign "scheme_1" "status" "TOGGLE"
