-- ===== src/RunScript/Commands.antt =====
-- What a run of run_gridlabd_main.py sends and calls.
use grip_absorption_pipeline.Base.{
  String, Bool, true, false, Option, none, some, List, [], ◌∷◌, ◌++◌, ◌&&◌, ◌||◌, ◌≡◌, refl, nat_eq,
  ◌==◌, if◌then◌else◌, ◌∙◌, ap, sym, subst, ◌⊎◌, inl, inr, arith,
}
use grip_absorption_pipeline.Base.Lists.{All}
use grip_absorption_pipeline.Base.Exec.{
  Exec, Error, pure, modify, file_not_found, system_exit, runtime_error, raise, ◌>>◌,
}
use grip_absorption_pipeline.Base.Outcomes.{Outcome, Outcome-map, Leads, bind-Leads}
use grip_absorption_pipeline.RunScript.{
  Machine, Run, first_run, set_options, read_opts, change_path, send_all, send_commands, run_model,
  ended_by, process_all, post_process, main,
}
use grip_absorption_pipeline.RunScript.Options.{
  Asked, asked_by, options_in, flag, after_options, set_options-asked_by,
}

-- the commands of a run, by its flags
pub planned : Bool → Bool → Bool → String → String → List String
planned compiling baseline no_output model output =
    "--profile" ∷ "--version" ∷ "--relax" ∷ []
    ++ (if compiling then "-C" ∷ [] else [])
    ++ ("--redirect" ∷ "all" ∷ [])
    ++ (if baseline then "-D" ∷ "BASELINE=yes" ∷ [] else [])
    ++ (model ∷ [])
    ++ (if no_output then [] else "-o" ∷ output ∷ [])

-- the functions that follow a run
pub followed_by : Bool → Bool → List String
followed_by compiling true = "timeseries_persupernode" ∷ []
followed_by true false = []
followed_by false false = "log_gen" ∷ "timeseries_gen" ∷ []

abbrev pub commands_of : Asked → List String
commands_of a = planned a.compiling a.baseline (a.output == "") a.model a.output

abbrev pub calls_of : Asked → List String
calls_of a = followed_by a.compiling a.baseline

-- a run that came to its end
pub record IsDone (m : Machine) (a : Asked) (r : Run) : Type 0 where
  pub sent : r.commands ≡ commands_of a
  pub processed : r.processed ≡ calls_of a
  pub one_flag : (a.compiling && a.baseline) ≡ false
  pub folder : (a.folder == "" || m.has_path) ≡ true
  pub clean : (m.starts && (m.has_err && (m.no_errors && m.has_wrn))) ≡ true
  pub returned : All (λ f. m.raised_by f ≡ none) (calls_of a)

-- a run that one of the functions that follow ended
pub record IsStopped (m : Machine) (a : Asked) (r : Run) : Type 0 where
  pub sent : r.commands ≡ commands_of a
  pub before : List String
  pub last : String
  pub after : List String
  pub planned_calls : calls_of a ≡ before ++ last ∷ after
  pub processed : r.processed ≡ before ++ last ∷ []
  pub returned : All (λ f. m.raised_by f ≡ none) before
  pub error : Error
  pub raises : m.raised_by last ≡ some error

abbrev pub Fails : Machine → Asked → Run → Type 0
Fails m a r = (r.processed ≡ []) ⊎ IsStopped m a r

module _ (m : Machine) (a : Asked) where
  abbrev Started : Run → Type 0
  Started r = r ≡ after_options a

  -- in the folder
  abbrev There : Run → Type 0
  There r = Started r × ((a.folder == "" || m.has_path) ≡ true)

  abbrev with_calls : List String → Run
  with_calls ps = record (after_options a) { commands = commands_of a; processed = ps }

  -- after the commands
  abbrev Sent : Run → Type 0
  Sent r =
      (r ≡ with_calls [])
      × ((a.folder == "" || m.has_path) ≡ true)
      × ((a.compiling && a.baseline) ≡ false)

  abbrev Ran : Run → Type 0
  Ran r = Sent r × ((m.starts && (m.has_err && (m.no_errors && m.has_wrn))) ≡ true)

  into_folder :
      (q p : Bool) (r : Run)
      → Started r
      → Outcome
          (λ _ r'. Started r' × ((q || p) ≡ true))
          (Fails m a)
          ((if q then pure tt else if p then pure tt else raise file_not_found) r)
  into_folder true p r e = (e, refl)
  into_folder false true r e = (e, refl)
  into_folder false false r e = inl (ap (λ (x : Run). x.processed) e)

  change_path-Leads : Leads (Fails m a) Started (λ _. There) (change_path m)
  unfolding change_path
  change_path-Leads r e =
      subst (λ x. Outcome (λ _. There) (Fails m a) (change_path m x)) (sym e)
        (into_folder (a.folder == "") m.has_path (after_options a) refl)

  send_clean :
      (c b o : Bool) (model output : String) (r : Run)
      → r.processed ≡ []
      → Outcome
          (λ _ r'. (r' ≡ record r { commands = planned c b o model output }) × (c && b ≡ false))
          (Fails m a)
          (send_all c b o model output (record r { commands = [] }))
  unfolding send_all planned
  send_clean true true o model output r h = inl h
  send_clean true false true model output r h = (refl, refl)
  send_clean true false false model output r h = (refl, refl)
  send_clean false true true model output r h = (refl, refl)
  send_clean false true false model output r h = (refl, refl)
  send_clean false false true model output r h = (refl, refl)
  send_clean false false false model output r h = (refl, refl)

  flag-eq : (c : Bool) → nat_eq (flag c) 1 ≡ c
  flag-eq true = refl
  flag-eq false = refl

  send_commands-Leads : Leads (Fails m a) There (λ _. Sent) send_commands
  unfolding send_commands
  send_commands-Leads r (e, there) =
      let sent = λ (c b : Bool). send_all c b (a.output == "") a.model a.output (after_options a) in
      subst (λ x. Outcome (λ _. Sent) (Fails m a) (send_commands x)) (sym e)
        (subst (Outcome (λ _. Sent) (Fails m a))
          (sym (
            ap (λ c. sent c (nat_eq (flag a.baseline) 1)) (flag-eq a.compiling)
            ∙ ap (sent a.compiling) (flag-eq a.baseline)))
          (Outcome-map (sent a.compiling a.baseline)
            (send_clean a.compiling a.baseline (a.output == "") a.model a.output (after_options a)
              refl)
            (λ _ r' (e', one). (e', there, one)) (λ r' h. h)))

  run_clean :
      (q1 q2 q3 q4 : Bool) (r : Run)
      → r.processed ≡ []
      → Outcome
          (λ _ r'. (r' ≡ r) × ((q1 && (q2 && (q3 && q4))) ≡ true))
          (Fails m a)
          (((if q1 then pure tt else raise runtime_error)
              >> ((if q2 then pure tt else raise file_not_found)
                  >> ((if q3 then pure tt else raise (system_exit 3))
                      >> (if q4 then pure tt else raise file_not_found))))
            r)
  run_clean true true true true r h = (refl, refl)
  run_clean true true true false r h = inl h
  run_clean true true false q4 r h = inl h
  run_clean true false q3 q4 r h = inl h
  run_clean false q2 q3 q4 r h = inl h

  run_model-Leads : Leads (Fails m a) Sent (λ _. Ran) (run_model m)
  unfolding run_model
  run_model-Leads r h =
      Outcome-map (run_model m r)
        (run_clean m.starts m.has_err m.no_errors m.has_wrn r (ap (λ (x : Run). x.processed) h.0))
        (λ _ r' (e, clean). (rw e h, clean)) (λ r' f. f)

  abbrev Succeeds : String → Type 0
  Succeeds f = m.raised_by f ≡ none

  -- what is known of a run before the functions that follow
  abbrev IsReady : Type 0
  IsReady = Ran (with_calls [])

  with_calls-IsDone :
      (ps : List String) → IsReady → calls_of a ≡ ps → All Succeeds ps → IsDone m a (with_calls ps)
  with_calls-IsDone ps ((_, there, one), clean) e h = record {
    sent = refl;
    processed = sym e;
    one_flag = one;
    folder = there;
    clean = clean;
    returned = subst (All Succeeds) (sym e) h;
  }

  with_calls-Fails :
      (before : List String) (f : String) (after : List String) (x : Error)
      → calls_of a ≡ before ++ f ∷ after
      → All Succeeds before
      → m.raised_by f ≡ some x
      → Fails m a (with_calls (before ++ f ∷ []))
  with_calls-Fails before f after x e h raised = inr (record {
    sent = refl;
    before = before;
    last = f;
    after = after;
    planned_calls = e;
    processed = refl;
    returned = h;
    error = x;
    raises = raised;
  })

  abbrev called : String → Option Error → Exec Run (Unit {0})
  called f o = modify (λ r. record r { processed = r.processed ++ f ∷ [] }) >> ended_by o

  one_call :
      (o : Option Error)
      → m.raised_by "timeseries_persupernode" ≡ o
      → IsReady
      → calls_of a ≡ "timeseries_persupernode" ∷ []
      → Outcome (λ _. IsDone m a) (Fails m a) (called "timeseries_persupernode" o (with_calls []))
  one_call none e ready calls = with_calls-IsDone _ ready calls (e, tt)
  one_call (some x) e ready calls = with_calls-Fails [] _ [] x calls tt e

  two_calls :
      (o1 o2 : Option Error)
      → m.raised_by "log_gen" ≡ o1
      → m.raised_by "timeseries_gen" ≡ o2
      → IsReady
      → calls_of a ≡ "log_gen" ∷ "timeseries_gen" ∷ []
      → Outcome
          (λ _. IsDone m a)
          (Fails m a)
          (((called "log_gen" o1 >> called "timeseries_gen" o2) >> pure tt) (with_calls []))
  two_calls none none e1 e2 ready calls = with_calls-IsDone _ ready calls (e1, (e2, tt))
  two_calls none (some x) e1 e2 ready calls =
      with_calls-Fails ("log_gen" ∷ []) _ [] x calls (e1, tt) e2
  two_calls (some x) o2 e1 e2 ready calls = with_calls-Fails [] _ _ x calls tt e1

  calls-eq : (c b : Bool) → a.compiling ≡ c → a.baseline ≡ b → calls_of a ≡ followed_by c b
  calls-eq c b ec eb = ap (λ x. followed_by x a.baseline) ec ∙ ap (followed_by c) eb

  follow_calls :
      (c b : Bool)
      → a.compiling ≡ c
      → a.baseline ≡ b
      → IsReady
      → Outcome (λ _. IsDone m a) (Fails m a) (process_all m c b (with_calls []))
  unfolding process_all followed_by
  follow_calls true true ec eb ready = ground (arith, ec, eb, ready.0.2)
  follow_calls true false ec eb ready = with_calls-IsDone [] ready (calls-eq true false ec eb) tt
  follow_calls false true ec eb ready = one_call _ refl ready (calls-eq false true ec eb)
  follow_calls false false ec eb ready = two_calls _ _ refl refl ready (calls-eq false false ec eb)

  post_process-Leads : Leads (Fails m a) Ran (λ _. IsDone m a) (post_process m)
  unfolding post_process
  post_process-Leads r h =
      let all = λ (c b : Bool). process_all m c b (with_calls []) in
      subst (λ x. Outcome (λ _. IsDone m a) (Fails m a) (post_process m x)) (sym h.0.0)
        (subst (Outcome (λ _. IsDone m a) (Fails m a))
          (sym (
            ap (λ c. all c (nat_eq (flag a.baseline) 1)) (flag-eq a.compiling)
            ∙ ap (all a.compiling) (flag-eq a.baseline)))
          (follow_calls a.compiling a.baseline refl refl ((refl, h.0.1, h.0.2), h.1)))

  rest-Outcome :
      (r : Run)
      → Started r
      → Outcome
          (λ _. IsDone m a)
          (Fails m a)
          ((change_path m >> (send_commands >> (run_model m >> post_process m))) r)
  rest-Outcome =
      bind-Leads (Fails m a) Started (λ _. There) (λ _. IsDone m a) (change_path m)
        (λ _. send_commands >> (run_model m >> post_process m)) change_path-Leads
        (λ _.
          bind-Leads (Fails m a) There (λ _. Sent) (λ _. IsDone m a) send_commands
            (λ _. run_model m >> post_process m) send_commands-Leads
            (λ _.
              bind-Leads (Fails m a) Sent (λ _. Ran) (λ _. IsDone m a) (run_model m)
                (λ _. post_process m) run_model-Leads (λ _. post_process-Leads)))

-- the options that getopt finds
abbrev pub options : Machine → List (String × String)
options m = options_in m.opts

-- If the script returns, not both of -C and -B are given, it has sent exactly the commands that the
-- options ask for, GridLAB-D has started and left no errors, and exactly the functions that follow
-- such a run were called and returned. If it raises or exits, either none of them was called, or
-- those commands were sent, one of the functions raised, and it is the last one that was called.
pub main-Outcome :
    (m : Machine)
    → Outcome
        (λ _ r. IsDone m (asked_by (options m)) r)
        (λ r. Fails m (asked_by (options m)) r)
        (main m first_run)
unfolding main
main-Outcome m = from_opts m.opts refl
  where
    from_opts :
        (o : Option (List (String × String)))
        → m.opts ≡ o
        → Outcome
            (λ _ r. IsDone m (asked_by (options_in o)) r)
            (λ r. Fails m (asked_by (options_in o)) r)
            ((read_opts o >> (change_path m >> (send_commands >> (run_model m >> post_process m))))
              first_run)
    from_opts none e = inl refl
    from_opts (some []) e = inl refl
    from_opts (some (o ∷ opts)) e =
        rest-Outcome m (asked_by (o ∷ opts)) (set_options (o ∷ opts) first_run)
          (set_options-asked_by (o ∷ opts))
