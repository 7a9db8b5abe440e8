-- ===== src/RunScript.antt =====
-- run_gridlabd_main.py: the options, the commands that GridLAB-D gets, and what follows a run.
pub mod Options
pub mod Commands
mod Tests
use grip_absorption_pipeline.Base.{
  ℕ, String, Bool, true, false, not, Option, none, some, List, [], ◌∷◌, ◌++◌, ◌&&◌, ◌||◌, nat_eq,
  ◌==◌, if◌then◌else◌,
}
use grip_absorption_pipeline.Base.Exec.{
  Exec, Error, pure, raise, gets, modify, system_exit, file_not_found, runtime_error, ◌>>=◌, ◌>>◌,
}

-- what getopt and the system answer
pub record Machine : Type 0 where
  -- none for a GetoptError
  pub opts : Option (List (String × String))
  pub has_path : Bool
  pub starts : Bool
  -- whether gridlabd.err is there after the run, and empty, and whether gridlabd.wrn is there
  pub has_err : Bool
  pub no_errors : Bool
  pub has_wrn : Bool
  -- what a function of data_post_process raises, where it does
  pub raised_by : String → Option Error

pub record Run : Type 0 where
  pub path : String
  pub modelinputfile : String
  pub outputfile : String
  pub compile_flag : ℕ
  pub baseline_flag : ℕ
  -- the arguments of gridlabd.command
  pub commands : List String
  -- the functions of data_post_process that were called
  pub processed : List String

abbrev pub first_run : Run
first_run = record {
  path = "";
  modelinputfile = "";
  outputfile = "";
  compile_flag = 0;
  baseline_flag = 0;
  commands = [];
  processed = [];
}

abbrev pub set_option : String → String → Run → Run
set_option opt arg r =
    if opt == "-C"
    then record r { compile_flag = 1 }
    else if opt == "-W" || opt == "--Wfile"
    then record r { path = arg }
    else if opt == "-B" || opt == "--Bfile"
    then record r { baseline_flag = 1 }
    else if opt == "-i" || opt == "--ifile"
    then record r { modelinputfile = arg }
    else if opt == "-o" || opt == "--ofile"
    then record r { outputfile = arg }
    else r

abbrev pub set_options : List (String × String) → Run → Run
set_options [] r = r
set_options ((opt, arg) ∷ opts) r = set_options opts (set_option opt arg r)

abbrev pub read_opts : Option (List (String × String)) → Exec Run (Unit {0})
read_opts none = raise (system_exit 2)
read_opts (some []) = raise (system_exit 2)
read_opts (some (o ∷ opts)) = modify (set_options (o ∷ opts))

-- `os.chdir(path)`
unfoldable pub change_path : Machine → Exec Run (Unit {0})
change_path m = do
  path ← gets λ r. r.path
  if path == "" then pure tt else if m.has_path then pure tt else raise file_not_found

abbrev pub command : String → Exec Run (Unit {0})
command c = modify λ r. record r { commands = r.commands ++ c ∷ [] }

-- the commands, by the flags and by whether there is no output file
unfoldable pub send_all : Bool → Bool → Bool → String → String → Exec Run (Unit {0})
send_all compiling baseline no_output model output = do
  command "--profile"
  command "--version"
  command "--relax"
  if compiling then command "-C" else pure tt
  command "--redirect"
  command "all"
  if baseline && compiling then raise (system_exit 3) else pure tt
  if baseline && not compiling then (command "-D" >> command "BASELINE=yes") else pure tt
  command model
  if no_output then pure tt else (command "-o" >> command output)

unfoldable pub send_commands : Exec Run (Unit {0})
send_commands = do
  r ← gets λ r. r
  send_all (nat_eq r.compile_flag 1) (nat_eq r.baseline_flag 1) (r.outputfile == "")
      r.modelinputfile r.outputfile

-- `gridlabd.start('wait')`, and the looks at gridlabd.err and gridlabd.wrn
unfoldable pub run_model : Machine → Exec Run (Unit {0})
run_model m = do
  if m.starts then pure tt else raise runtime_error
  if m.has_err then pure tt else raise file_not_found
  if m.no_errors then pure tt else raise (system_exit 3)
  if m.has_wrn then pure tt else raise file_not_found

abbrev pub ended_by : Option Error → Exec Run (Unit {0})
ended_by none = pure tt
ended_by (some e) = raise e

-- a call of a function of data_post_process
abbrev pub process : Machine → String → Exec Run (Unit {0})
process m f =
    modify (λ r. record r { processed = r.processed ++ f ∷ [] }) >> ended_by (m.raised_by f)

unfoldable pub process_all : Machine → Bool → Bool → Exec Run (Unit {0})
process_all m compiling baseline = do
  if not compiling && not baseline
      then (process m "log_gen" >> process m "timeseries_gen")
      else pure tt
  if baseline then process m "timeseries_persupernode" else pure tt

unfoldable pub post_process : Machine → Exec Run (Unit {0})
post_process m = do
  r ← gets λ r. r
  process_all m (nat_eq r.compile_flag 1) (nat_eq r.baseline_flag 1)

-- the script
unfoldable pub main : Machine → Exec Run (Unit {0})
main m = do read_opts m.opts; change_path m; send_commands; run_model m; post_process m
