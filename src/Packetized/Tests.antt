-- ===== src/Packetized/Tests.antt =====
-- Two water heaters at concrete readings: runs of the code, and the theorems applied to them.
use grip_absorption_pipeline.Base.{
  ℕ, String, ◌≡◌, ◌≢◌, refl, true, none, some, List, [], ◌∷◌, if◌then◌else◌, ◌==◌, reverse, arith,
}
use grip_absorption_pipeline.Base.Text.{split_first}
use grip_absorption_pipeline.Base.Dict.{Dict, values}
use grip_absorption_pipeline.Base.Exec.{Returns}
use grip_absorption_pipeline.Sample.{ℤ, pos, whole, whole_order, whole_zero, Board, board}
use grip_absorption_pipeline.Packetized.Units.{convert_power_units}
use grip_absorption_pipeline.Packetized.World.{WaterHeater, water_heater, World}
use grip_absorption_pipeline.Packetized.Ready.{IsReady}
use grip_absorption_pipeline.Packetized.Device.{
  pem_off, pem_on, VbDevice, PowerRequest, pem, request_accepted,
}
use grip_absorption_pipeline.Packetized.Device.Step.{Stepped, Granted}
use grip_absorption_pipeline.Packetized.Device.Waiting.{IsWaiting}
use grip_absorption_pipeline.Packetized.Device.Packets.{rounds, rounds-Returns}
use grip_absorption_pipeline.Packetized.Device.Total.{pem-Returns, request_accepted-Returns}
use grip_absorption_pipeline.Packetized.Battery.{
  VirtualBattery, sum_kw, apply_pem_changes, handle_power_requests, next,
}
use grip_absorption_pipeline.Packetized.Battery.Keys.{IsKeyed, IsGood}
use grip_absorption_pipeline.Packetized.Battery.Load.{IsAdmitted}
use grip_absorption_pipeline.Packetized.Battery.Requests.{distance}
use grip_absorption_pipeline.Packetized.Battery.Dropped.{apply_pem_changes_loses_waiting}
use grip_absorption_pipeline.Packetized.Battery.Total.{
  next-Returns, apply_pem_changes-Returns, handle_power_requests-Returns,
}

abbrev reading : String → String
reading prop =
    if prop == "actual_load" then "4 kW" else if prop == "hvac_load" then "4 kW" else "125 degF"

abbrev sim : Board
sim = record { names = []; properties = λ _. []; value = λ _ prop. reading prop }

abbrev tank : WaterHeater ℤ
tank = record {
  setpoint = pos 120;
  pem_range = pos 10;
  upper_temp = pos 130;
  lower_temp = pos 110;
  temperature = pos 125;
  kw = pos 4;
  soc = pos 0;
}

abbrev world : World ℤ Board
world = record { sim = sim; heap = λ _. water_heater tank; rolls = λ _. pos 0; drawn = 0 }

world-IsReady : IsReady world
unfolding convert_power_units split_first
world-IsReady = record { at = λ id. ((pos 125, refl), (pos 4, λ w. refl), refl) }

abbrev heater : String → ℕ → VbDevice ℤ
heater id ends = record {
  device_id = id;
  pem_state = pem_off;
  state_ends_at = ends;
  last_power_draw_kw = pos 4;
  kw = pos 4;
}

abbrev devices : ℕ → Dict (VbDevice ℤ)
devices ends =
    ("waterheater_1", heater "waterheater_1" ends)
    ∷ ("waterheater_2", heater "waterheater_2" ends)
    ∷ []

abbrev battery : ℕ → VirtualBattery ℤ
battery ends = record { devices = devices ends; setpoint = pos 6; time_sec = 60; soc = pos 0 }

devices-IsKeyed : IsKeyed (devices 0)
devices-IsKeyed = (refl, refl, (refl, refl, tt))

abbrev requests : List (PowerRequest ℤ)
requests =
    record { device_id = "waterheater_1"; kw = pos 4; sec = 180 }
    ∷ record { device_id = "waterheater_2"; kw = pos 4; sec = 180 }
    ∷ []

pem-Returns_example :
    Returns
      (λ a w'. Stepped world 60 (heater "waterheater_1" 0) a × IsReady w')
      (pem 2 (heater "waterheater_1" 0) 60 world)
pem-Returns_example = pem-Returns whole_zero 0 (heater "waterheater_1" 0) 60 world world-IsReady

-- a packet until 100 s, and rounds of a minute
abbrev with_packet : VbDevice ℤ
with_packet = record (heater "waterheater_1" 100) { pem_state = pem_on }

rounds-Returns_example :
    Returns (λ next w'. next.pem_state ≢ pem_on) (rounds (60 ∷ 120 ∷ 180 ∷ []) with_packet world)
rounds-Returns_example =
    rounds-Returns whole_zero (60 ∷ []) 120 (180 ∷ []) with_packet world world-IsReady (omega arith)

request_accepted-Returns_example :
    Returns
      (λ a w'. Granted 60 (heater "waterheater_1" 0) a × IsReady w')
      (request_accepted (heater "waterheater_1" 0) 60 world)
request_accepted-Returns_example =
    request_accepted-Returns whole_zero (heater "waterheater_1" 0) 60 world world-IsReady

apply_pem_changes-Returns_example :
    Returns (λ r w'. IsAdmitted (pos 6) r × IsReady w') (apply_pem_changes (battery 0) world)
apply_pem_changes-Returns_example =
    apply_pem_changes-Returns whole_zero (battery 0) world world-IsReady

handle_power_requests-Returns_example :
    Returns
      (λ g w'.
        (whole.le
            (distance (pos 6) g.totalkw)
            (distance (pos 6) (sum_kw (pos 0) (values (devices 0))))
          ≡ true)
        × IsReady w')
      (handle_power_requests (battery 0) requests world)
handle_power_requests-Returns_example =
    handle_power_requests-Returns whole_zero whole_order (battery 0) requests world world-IsReady

next-Returns_example :
    Returns
      (λ a w'. IsGood (devices 0) a.0.devices × IsReady w')
      (next reverse (battery 0) none none (some 60) world)
next-Returns_example =
    next-Returns whole_zero reverse (battery 0) none none (some 60) world devices-IsKeyed
      world-IsReady

waiting : (id : String) → IsWaiting 60 world (heater id 90)
waiting id = record { idle = refl; early = omega arith; in_range = (refl, refl) }

-- one device that waits, and one whose time has come
abbrev mixed : VirtualBattery ℤ
mixed = record (battery 0) {
  devices =
      ("waterheater_1", heater "waterheater_1" 90)
      ∷ ("waterheater_2", heater "waterheater_2" 0)
      ∷ [];
}

apply_pem_changes_loses_waiting_example :
    apply_pem_changes mixed world
    ≡ apply_pem_changes
        (record mixed { devices = ("waterheater_2", heater "waterheater_2" 0) ∷ [] })
        world
apply_pem_changes_loses_waiting_example =
    apply_pem_changes_loses_waiting mixed (heater "waterheater_1" 90 ∷ [])
      (("waterheater_2", heater "waterheater_2" 0) ∷ []) world refl (waiting "waterheater_1", tt)
