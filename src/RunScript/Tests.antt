-- ===== src/RunScript/Tests.antt =====
-- A run with a model and an output file, and the theorem about the script applied.
use grip_absorption_pipeline.Base.{
  String, ◌≡◌, refl, true, none, some, List, [], ◌∷◌, ◌==◌, if◌then◌else◌,
}
use grip_absorption_pipeline.Base.Exec.{err, system_exit, index_error}
use grip_absorption_pipeline.Base.Outcomes.{Outcome}
use grip_absorption_pipeline.RunScript.{
  Machine, first_run, change_path, send_all, send_commands, run_model, process_all, post_process,
  main,
}
use grip_absorption_pipeline.RunScript.Options.{asked_by}
use grip_absorption_pipeline.RunScript.Commands.{IsDone, Fails, main-Outcome}

abbrev machine : List (String × String) → Machine
machine opts = record {
  opts = some opts;
  has_path = true;
  starts = true;
  has_err = true;
  no_errors = true;
  has_wrn = true;
  raised_by = λ f. none;
}

abbrev baseline_opts : List (String × String)
baseline_opts = ("-B", "") ∷ ("-i", "model.glm") ∷ ("-o", "model.json") ∷ []

main-run :
    (main (machine baseline_opts) first_run).1.commands
    ≡ "--profile" ∷ "--version" ∷ "--relax" ∷ "--redirect" ∷ "all" ∷ "-D" ∷ "BASELINE=yes"
      ∷ "model.glm" ∷ "-o" ∷ "model.json" ∷ []
unfolding main change_path send_commands send_all run_model post_process process_all
main-run = refl

-- timeseries_gen raises: log_gen was called before it.
abbrev failing : Machine
failing = record (machine (("-i", "model.glm") ∷ [])) {
  raised_by = λ f. if f == "timeseries_gen" then some index_error else none;
}

failing-run : (main failing first_run).1.processed ≡ "log_gen" ∷ "timeseries_gen" ∷ []
unfolding main change_path send_commands send_all run_model post_process process_all
failing-run = refl

failing-error : (main failing first_run).0 ≡ err index_error
unfolding main change_path send_commands send_all run_model post_process process_all
failing-error = refl

both_flags-run : (main (machine (("-B", "") ∷ ("-C", "") ∷ [])) first_run).0 ≡ err (system_exit 3)
unfolding main change_path send_commands send_all run_model post_process process_all
both_flags-run = refl

main-Outcome_example :
    Outcome
      (λ _ r. IsDone (machine baseline_opts) (asked_by baseline_opts) r)
      (λ r. Fails (machine baseline_opts) (asked_by baseline_opts) r)
      (main (machine baseline_opts) first_run)
main-Outcome_example = main-Outcome (machine baseline_opts)
