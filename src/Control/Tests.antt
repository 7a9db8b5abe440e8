-- ===== src/Control/Tests.antt =====
-- Two islands at concrete readings: runs of the code, and the theorems applied to them.
use grip_absorption_pipeline.Base.{
  ℕ, ◌≤◌, String, ◌≡◌, refl, true, false, none, some, List, [], ◌∷◌, arith, reverse, map,
}
use grip_absorption_pipeline.Base.Lists.{length, All}
use grip_absorption_pipeline.Base.Text.{split_second, contains_text}
use grip_absorption_pipeline.Base.Dict.{Dict, IsDict}
use grip_absorption_pipeline.Base.Exec.{ok, Returns}
use grip_absorption_pipeline.Base.Outcomes.{Outcome, Raises}
use grip_absorption_pipeline.Sample.{ℤ, pos, whole, Board, board}
use grip_absorption_pipeline.Packetized.World.{WaterHeater, water_heater}
use grip_absorption_pipeline.Packetized.Device.{pem_off, VbDevice}
use grip_absorption_pipeline.Packetized.Battery.{VirtualBattery}
use grip_absorption_pipeline.Network.Components.Group.{IsPick}
use grip_absorption_pipeline.Control.{Control, in_area}
use grip_absorption_pipeline.Control.Houses
use grip_absorption_pipeline.Control.Islands
use grip_absorption_pipeline.Control.Manage.Shed
use grip_absorption_pipeline.Control.Houses.{turn_off_house}
use grip_absorption_pipeline.Faults.{toggle_switches, find, find_among}
use grip_absorption_pipeline.Network.Links.{new_islands}
use grip_absorption_pipeline.Network.Components.{get_components}
use grip_absorption_pipeline.Base.Decimal.{first_digits, int_of}
use grip_absorption_pipeline.Packetized.Switching.{turn_off_device}
use grip_absorption_pipeline.Control.Dropped.{IsDropped, turn_off_house-IsDropped}
use grip_absorption_pipeline.Control.Islands.{ServerRow, branch_of, process_islands}
use grip_absorption_pipeline.Control.Islands.Virtual.{
  AreVirtual, HasDigits, toggled, process_islands-IsVirtual,
}
use grip_absorption_pipeline.Control.Manage.Shed.{set_houses_off}
use grip_absorption_pipeline.Control.Manage.Bounds.{set_houses_off-Outcome}
use grip_absorption_pipeline.Control.Manage.Columns.{Shuffles}
use grip_absorption_pipeline.Control.Commit.{Outside, commit}
use grip_absorption_pipeline.Control.Rounds.{packetize_all}
use grip_absorption_pipeline.Control.Commit.Rows.{IsRow}
use grip_absorption_pipeline.Control.Commit.Rows.Table.{commit-HasRows}
use grip_absorption_pipeline.Control.Commit.Idle.{memory, commit-Preserves}
use grip_absorption_pipeline.Control.Commit.Stale.{packetize_all-Raises}

abbrev sim : Board
sim = record {
  names = "inverter_101" ∷ [];
  properties = λ o. ("class", "inverter") ∷ ("name", "inverter_101") ∷ [];
  value = λ o p. "4 kW";
}

abbrev tank : WaterHeater ℤ
tank = record {
  setpoint = pos 120;
  pem_range = pos 10;
  upper_temp = pos 130;
  lower_temp = pos 110;
  temperature = pos 125;
  kw = pos 4;
  soc = pos 0;
}

abbrev device : String → VbDevice ℤ
device id = record {
  device_id = id;
  pem_state = pem_off;
  state_ends_at = 0;
  last_power_draw_kw = pos 4;
  kw = pos 4;
}

abbrev two_houses : Dict (VbDevice ℤ)
two_houses =
    ("house_1", device "house_1")
    ∷ ("waterheater_1", device "waterheater_1")
    ∷ ("house_2", device "house_2")
    ∷ ("waterheater_2", device "waterheater_2")
    ∷ []

abbrev battery : VirtualBattery ℤ
battery = record { setpoint = pos 6; soc = pos 0; time_sec = 0; devices = two_houses }

-- Three houses are off, of which the list of all devices has the first.
abbrev pub control : Control ℤ Board
control = record {
  world = record { sim = sim; heap = λ _. water_heater tank; rolls = λ _. pos 0; drawn = 0 };
  faulted_nodes = [];
  device_map = none;
  lines = [];
  islanding_on = true;
  packetizing = true;
  absorption_on = false;
  vb_data_out = false;
  packetize_baseline = false;
  test_setpoint = false;
  setpoint = pos 600;
  t_start = 0;
  swing_sn = 201;
  all_devices =
      some (("house_3", device "house_3") ∷ ("waterheater_3", device "waterheater_3") ∷ two_houses);
  islanded_devices = [];
  islanded = true;
  re_island = false;
  islands = some ((101 ∷ []) ∷ []);
  batteries = some ((101 ∷ [], battery) ∷ []);
  houses_off = "house_3" ∷ "house_4" ∷ "house_5" ∷ [];
  powerbal = [];
  tables = [];
  vb_rows = [];
  load_per_house = [];
  choices = λ _. 0;
  chosen = 0;
}

abbrev first : ℕ → List ℕ → ℕ
first x xs = x

first-IsPick : IsPick first
first-IsPick = record { member = λ x xs. ground arith }

two_houses-IsDict : IsDict two_houses
two_houses-IsDict = (refl, (refl, (refl, (refl, tt))))

turn_off_house-IsDropped_example :
    Returns
      (λ _ c'. IsDropped (101 ∷ []) "house_1" battery control c')
      (turn_off_house (101 ∷ []) "house_1" control)
unfolding split_second
turn_off_house-IsDropped_example =
    turn_off_house-IsDropped (101 ∷ []) "house_1" "1" control ((101 ∷ [], battery) ∷ []) battery
      refl refl two_houses-IsDict refl

-- Two houses are wanted, and four are off.
set_houses_off-run :
    (set_houses_off (101 ∷ []) 60 2 control).1.houses_off
    ≡ "house_4" ∷ "house_5" ∷ "house_1" ∷ "house_2" ∷ []
unfolding set_houses_off Shed.disconnect_houses contains_text turn_off_house Houses.drop_device
    turn_off_device Houses.heater_of Houses.interrupt Shed.reconnect_houses Houses.turn_on_house
    Houses.restart_timer Houses.add_known
set_houses_off-run = refl

set_houses_off-Outcome_example :
    Outcome
      (λ _ c'. length c'.houses_off ≤ 4)
      (λ c'. length c'.houses_off ≤ 5)
      (set_houses_off (101 ∷ []) 60 2 control)
set_houses_off-Outcome_example = set_houses_off-Outcome (101 ∷ []) 60 2 control

abbrev rows : List ServerRow
rows =
    record { id = "switch_1"; t = 101; f = 102; st00 = true; st1 = true }
    ∷ record { id = "switch_2"; t = 102; f = 201; st00 = true; st1 = false }
    ∷ []

process_islands-run : (process_islands first rows control).0 ≡ ok ((101 ∷ 102 ∷ []) ∷ [])
unfolding process_islands toggle_switches new_islands get_components find find_among
    Islands.mark_islands Islands.mark_inverters first_digits int_of
process_islands-run = refl

inverters_listed :
    Returns
      (λ inverters d. All HasDigits inverters)
      (in_area (find "class=inverter") (toggled rows control))
unfolding find find_among first_digits toggle_switches
inverters_listed = (("101", refl), tt)

process_islands-IsVirtual_example :
    Returns
      (λ islands c'. AreVirtual (map branch_of rows) 201 [] islands)
      (process_islands first rows control)
process_islands-IsVirtual_example =
    process_islands-IsVirtual first rows control first-IsPick (refl, tt) inverters_listed

abbrev shuffles : Shuffles ℤ
shuffles = record { requests = reverse; inverters = reverse }

abbrev outside : Outside ℤ
outside = record {
  switches = λ d. some rows;
  managed = λ d. none;
  shuffles = shuffles;
  pick = first;
  loads_file = none;
  solar_file = none;
  hour = λ s. none;
  fuel = 5;
}

commit-Preserves_example : memory (commit outside 60 control).1 ≡ memory control
commit-Preserves_example = commit-Preserves outside 60 control refl

abbrev thirteen : List ℤ
thirteen =
    pos 0
    ∷ pos 1
    ∷ pos 2
    ∷ pos 3
    ∷ pos 4
    ∷ pos 5
    ∷ pos 6
    ∷ pos 7
    ∷ pos 8
    ∷ pos 9
    ∷ pos 10
    ∷ pos 11
    ∷ pos 12
    ∷ []

-- the same, with Absorption, the rows and the setpoint test asked for, and a row that is there already
abbrev saving : Control ℤ Board
saving = record control {
  absorption_on = true;
  vb_data_out = true;
  test_setpoint = true;
  vb_rows = ("2022-07-14 10:02:00 PDT", thirteen) ∷ [];
}

commit-HasRows_example : All IsRow (commit outside 60 saving).1.vb_rows
commit-HasRows_example = commit-HasRows outside 60 saving (refl, tt)

packetize_all-Raises_example :
    Raises (packetize_all shuffles 60 ((102 ∷ []) ∷ (101 ∷ []) ∷ []) control)
packetize_all-Raises_example =
    packetize_all-Raises shuffles 60 ((102 ∷ []) ∷ []) [] (101 ∷ []) control refl
