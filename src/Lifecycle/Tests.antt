-- ===== src/Lifecycle/Tests.antt =====
-- A run whose server starts, and the theorem about it applied.
use grip_absorption_pipeline.Base.{◌≡◌, refl, true, false, none, some, [], ◌∷◌, ◌==◌, if◌then◌else◌}
use grip_absorption_pipeline.Base.Text.{split_second}
use grip_absorption_pipeline.Base.Decimal.{first_digits, int_of}
use grip_absorption_pipeline.Sample.{ℤ, pos, Board, board}
use grip_absorption_pipeline.Gridlab.{Gridlab}
use grip_absorption_pipeline.Faults.{supernodes_in}
use grip_absorption_pipeline.Base.Nodes.{bus_number}
use grip_absorption_pipeline.Julia.{
  Weather, launch, kill, connect, ping, greet, start_server, no_server,
}
use grip_absorption_pipeline.Lifecycle.{
  Session, start_or_give_up, prepare_server, swing_here, swing_buses, find_swing, begin_run,
  on_init, on_term,
}
use grip_absorption_pipeline.Lifecycle.Released.{on_term-on_init}

-- The board, with the settings of a run.
abbrev ready : Gridlab Board
ready = record board { get_global = λ s k. if k == "LOAD_CONTROL" then "TRUE" else "FALSE" }

abbrev fine : Weather
fine = record { launches = true; connects = true; answers = true }

abbrev session : Session ℤ Board
session = record {
  area = record {
    sim = record {
      names = [];
      properties = λ o. [];
      value = λ o p. if p == "bustype" then "SWING" else "[['supernode_201']]";
    };
    faulted_nodes = [];
    device_map = none;
    lines = [];
  };
  server = no_server;
  islanding_on = true;
  packetizing = true;
  absorption_on = false;
  compile_only = false;
  setpoint = pos 600;
  t_start = 0;
  swing_sn = 0;
}

on_init-run : (on_init ⦃gld = ready⦄ fine (some (pos 9)) 5 session).1 ≡ record session {
  server = record { running = 0 ∷ []; next_process = 1; server_process = some 0; connected = true };
  absorption_on = true;
  setpoint = pos 9;
  t_start = 5;
  swing_sn = 201;
}
unfolding on_init begin_run prepare_server start_or_give_up start_server launch greet connect ping
    kill find_swing swing_buses swing_here bus_number supernodes_in split_second first_digits int_of
on_init-run = refl

on_term-on_init_example :
    (on_term (on_init ⦃gld = ready⦄ fine (some (pos 9)) 5 session).1).1.server.running ≡ []
on_term-on_init_example = on_term-on_init ⦃gld = ready⦄ fine (some (pos 9)) 5 session refl refl
