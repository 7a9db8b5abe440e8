-- ===== src/Thermostat/Tests.antt =====
-- A cold house, and the theorem about its mode applied.
use grip_absorption_pipeline.Base.{
  ◌≡◌, refl, none, [], ◌==◌, if◌then◌else◌, inl, inr, arith, eq_iff,
}
use grip_absorption_pipeline.Base.Exec.{Returns}
use grip_absorption_pipeline.Gridlab.{GridlabLaws}
use grip_absorption_pipeline.Sample.{Board, board}
use grip_absorption_pipeline.Faults.{Area}
use grip_absorption_pipeline.Thermostat.{text_lt, set_mode, absorption}
use grip_absorption_pipeline.Thermostat.Modes.{mode_for, IsModeSet, absorption-Returns}

board_laws : GridlabLaws Board
board_laws = record {
  get-set = λ s o p v o' p' other. elim other [
    | inl ne ↦ ground (arith, eq_iff o o', ne)
    | inr ne ↦ ground (arith, eq_iff p p', ne)
  ];
  contains-set = λ s o p v o' k. refl;
}

abbrev area : Area Board
area = record {
  sim = record {
    names = [];
    properties = λ o. [];
    value = λ o p.
        if p == "air_temperature"
        then "60 degF"
        else if p == "heating_setpoint"
        then "68 degF"
        else "75 degF";
  };
  faulted_nodes = [];
  device_map = none;
  lines = [];
}

absorption-run : (absorption "house_1" area).1.sim.value "house_1" "system_mode" ≡ "HEAT"
unfolding absorption set_mode
absorption-run = refl

absorption-Returns_example :
    Returns
      (λ _ a'.
        IsModeSet board_laws "house_1"
          (mode_for (text_lt "60 degF" "68 degF") (text_lt "75 degF" "60 degF"))
          area.sim
          a'.sim)
      (absorption "house_1" area)
absorption-Returns_example = absorption-Returns board_laws "house_1" area
