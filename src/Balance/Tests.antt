-- ===== src/Balance/Tests.antt =====
-- An island that lacks 40 kW, with two batteries of which only the second can take them up.
use grip_absorption_pipeline.Base.{String, ◌≡◌, refl, [], ◌∷◌, reverse, none, ◌==◌, if◌then◌else◌}
use grip_absorption_pipeline.Base.Dict.{Dict}
use grip_absorption_pipeline.Base.Exec.{Result, ok, err}
use grip_absorption_pipeline.Sample.{ℤ, pos, whole, Board, board}
use grip_absorption_pipeline.Packetized.Units.{convert_power_units}
use grip_absorption_pipeline.Faults.{Area}
use grip_absorption_pipeline.Balance.{
  PowerBalance, check_power_balance, balance, share_out, zipped, offer_all, offer, set_battery,
  read_outputs,
}

abbrev reading : String → String → String
reading o p =
    if p == "max_discharge_rate"
    then (if o == "battery_1" then "20000 W" else "90000 W")
    else "5000 VA"

abbrev area : Area Board
area = record {
  sim = record { names = []; properties = λ o. []; value = reading };
  faulted_nodes = [];
  device_map = none;
  lines = [];
}

abbrev island : PowerBalance ℤ
island = record {
  nfload = pos 60;
  vb_load = pos 20;
  batt_p = ("battery_1", pos 5) ∷ ("battery_2", pos 10) ∷ [];
  solar_p = pos 25;
}

abbrev batteries : Result (PowerBalance ℤ) → Dict ℤ
batteries (ok p) = p.batt_p
batteries (err e) = []

check_power_balance-run :
    batteries (check_power_balance reverse island area).0
    ≡ ("battery_1", pos 5) ∷ ("battery_2", pos 50) ∷ []
unfolding check_power_balance balance share_out zipped offer_all offer set_battery read_outputs
    convert_power_units
check_power_balance-run = refl
