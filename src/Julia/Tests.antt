-- ===== src/Julia/Tests.antt =====
-- Runs of the server, and the theorem about them applied.
use grip_absorption_pipeline.Base.{String, ◌≡◌, refl, true, false, none, some, [], ◌∷◌}
use grip_absorption_pipeline.Base.Dict.{get}
use grip_absorption_pipeline.Base.Exec.{raise, runtime_error}
use grip_absorption_pipeline.Base.Outcomes.{Outcome}
use grip_absorption_pipeline.Julia.Client.{
  Wire, Talk, IsStamped, IsAnswered, send_string, exchange, send_data, send_data-Outcome,
}
use grip_absorption_pipeline.Julia.Released.{with_server-Released}
use grip_absorption_pipeline.Julia.{
  Julia, Weather, launch, kill, connect, ping, greet, start_server, stop_server, with_server,
  no_server,
}
use grip_absorption_pipeline.Julia.Owned.{Reached, begun, started, IsOwned, Reached-IsOwned}

abbrev fine : Weather
fine = record { launches = true; connects = true; answers = true }

abbrev silent : Weather
silent = record { launches = true; connects = true; answers = false }

-- After a start that raises, and one that returns.
abbrev running_one : Julia
running_one = (start_server fine (start_server silent no_server).1).1

running_one-Reached : Reached running_one
unfolding start_server launch greet connect ping kill
running_one-Reached =
    started fine (start_server silent no_server).1 (started silent no_server begun refl) refl

running_one-run : running_one.running ≡ 1 ∷ []
unfolding start_server launch greet connect ping kill
running_one-run = refl

-- Two starts and one stop leave a process that nothing holds.
leak-run : (stop_server (start_server fine (start_server fine no_server).1).1).1.running ≡ 0 ∷ []
unfolding start_server launch greet connect ping kill stop_server
leak-run = refl

Reached-IsOwned_example : IsOwned running_one × ((stop_server running_one).1.running ≡ [])
Reached-IsOwned_example = Reached-IsOwned running_one running_one-Reached

-- the same server, stopped
abbrev running_one_stopped : Julia
running_one_stopped = record {
  running = [];
  next_process = 2;
  server_process = none;
  connected = true;
}

with_server-Released_example :
    (with_server fine (raise {A = Unit {0}} runtime_error) running_one_stopped).1.running ≡ []
unfolding IsOwned
with_server-Released_example =
    with_server-Released fine (raise runtime_error) running_one_stopped (λ k h. h) refl refl

-- values that are texts, and a json of one of them
abbrev wire : Wire String
wire = record {
  ctime = "Thu Jul 14 10:02:00 2022";
  text_value = λ s. s;
  dumps = λ d. get "message" d;
  sends = true;
  received = some "done";
}

abbrev talk : Talk String
talk = record { sent = "ping" ∷ []; given = ("message", "none") ∷ ("island", "101_102") ∷ [] }

send_data-Outcome_example :
    Outcome
      (λ answer k'. IsStamped wire talk.given k'.given × IsAnswered wire talk answer k')
      (λ k'. IsStamped wire talk.given k'.given)
      (send_data wire talk)
send_data-Outcome_example = send_data-Outcome wire talk

send_data-run :
    (send_data wire talk).1.given
    ≡ ("message", "data collected")
      ∷ ("island", "101_102")
      ∷ ("at", "Thu Jul 14 10:02:00 2022")
      ∷ []
unfolding send_data exchange send_string
send_data-run = refl
