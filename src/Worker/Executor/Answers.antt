-- ===== src/Worker/Executor/Answers.antt =====
-- How a turn of the executor ends: what its controller hears of the calculation.
use ccb_operator.Base.{
  ◌≡◌, refl, ◌⊎◌, inl, inr, Bool, true, false, String, Option, none, some, List, [], ◌∷◌, ◌++◌,
}
use ccb_operator.Go.{Outcome, ok, err, panic, Action, pure, panics, caught_outcome, resume, ◌>>=◌}
use ccb_operator.Go.Rules.{Ends}
use ccb_operator.Go.Answers.{
  Answer, Answers, NoError, Answers_after, Answers->>=, Answers-unless_error,
}
use ccb_operator.Api.{Kind}
use ccb_operator.Api.Calculations.{Calculation, InputFiles}
use ccb_operator.Api.Workers.{WorkerState}
use ccb_operator.Cluster.{Cluster}
use ccb_operator.Cluster.View.{View}
use ccb_operator.Cluster.Laws.{Contract}
use ccb_operator.Cluster.Modify.{Modified, Same}
use ccb_operator.Grpc.{ResultsClient}
use ccb_operator.Util.Formats.{Formats}
use ccb_operator.Util.Workers.{update_worker_status_in_pool}
use ccb_operator.Util.Workers.Update.{EntryUpdated, update_worker_status_in_pool-Modified}
use ccb_operator.Util.Labels.{calc_root_folder, calculation_name_label}
use ccb_operator.Worker.{Identity}
use ccb_operator.Worker.Machine.{Machine}
use ccb_operator.Worker.Messages.{Message, calc_error, Traced, quietly}
use ccb_operator.Worker.Executor.NoErrors.{told, run_pipeline-NoError}
use ccb_operator.Worker.Executor.{
  Life, running, returned, unless_error, report, create_symbolic_links, stage_files, stage,
  run_pipeline, finish, execute, label, set_unlimit_stack, unless_returned, ensure_directory,
}

-- A message is among those that were sent.
abbrev pub IsSent : Message → List Message → Type 0
IsSent m messages =
    (before : List Message) × (after : List Message) × (messages ≡ before ++ (m ∷ after))

-- The calculation has input files that are copied, not linked.
abbrev pub CopiesFiles : Calculation → Type 0
CopiesFiles calc =
    (inputs : InputFiles) × (calc.input_files ≡ some inputs) × (inputs.symlink ≡ false)

module _ (F : Formats) (C : Cluster) (M : Machine C.World) (G : ResultsClient C.World)
    (L : Contract C) (me : Identity) (calc : Calculation) where
  abbrev error_message : Message
  error_message = calc_error calc.meta.name

  -- The last that was done is that the worker's entry in its pool got the state `available`, or the
  -- zero worker was written if it had none.
  abbrev pub MadeAvailable : Traced C.World → Type 0
  MadeAvailable t =
      (v : View) × Modified C L Kind.pools (EntryUpdated me.nodename WorkerState.available)
        (record { namespace = me.namespace; name = me.worker_pool }) v (L.view t.world)

  abbrev pub Ended : Life → Traced C.World → Type 0
  Ended running t = IsSent error_message t.sent ⊎ MadeAvailable t
  Ended returned t = IsSent error_message t.sent × CopiesFiles calc

  -- The same for the staging of the files, after which a turn goes on if it is running.
  abbrev Staged : Life → Traced C.World → Type 0
  Staged running t = Unit
  Staged returned t = IsSent error_message t.sent × CopiesFiles calc

  IsSent-last : (t : Traced C.World) → IsSent error_message (t.sent ++ (error_message ∷ []))
  IsSent-last t = (t.sent, [], refl)

  stopped :
      (inputs : InputFiles)
      → calc.input_files ≡ some inputs
      → inputs.symlink ≡ false
      → Answers (report F C M G calc returned) Staged
  stopped inputs found e = record { answer = λ t. (IsSent-last t, (inputs, found, e)) }

  stage_files-Staged :
      (root path : String) (inputs : InputFiles) (symlink : Bool) (files : List String)
      → calc.input_files ≡ some inputs
      → inputs.symlink ≡ symlink
      → Answers (stage_files F C M G calc root path symlink files) Staged
  unfolding stage_files
  stage_files-Staged root path inputs symlink [] found e = record { answer = λ t. tt }
  stage_files-Staged root path inputs true (file ∷ files) found e =
      Answers-unless_error (quietly (create_symbolic_links M (M.join root file ∷ []) path))
        (report F C M G calc running) _ (record { answer = λ t. tt })
        λ _. stage_files-Staged root path inputs true files found e
  stage_files-Staged root path inputs false (file ∷ files) found e =
      Answers-unless_error (quietly (M.read_file (M.join root file))) _ _ (stopped inputs found e)
        λ input.
          Answers-unless_error (quietly (M.write_file (M.join path (M.split_file file)) input)) _ _
            (stopped inputs found e) λ _. stage_files-Staged root path inputs false files found e

  stage-Staged :
      (root path : String) (inputs : Option InputFiles)
      → calc.input_files ≡ inputs
      → Answers (stage F C M G calc root path inputs) Staged
  stage-Staged root path none e = record { answer = λ t. tt }
  stage-Staged root path (some inputs) e =
      stage_files-Staged root path inputs inputs.symlink inputs.files e refl

  module _
      (commands : (dir command : String) (args : List String)
        → NoError (M.run_command dir command args)) where
    mark_available : Action (Traced C.World) Life
    mark_available =
        unless_error
          (quietly (
            update_worker_status_in_pool C me.worker_pool me.nodename me.namespace
              WorkerState.available))
          (panics "failed to update worker's state in worker pool") λ _. pure running

    mark_available-Ended : Answers mark_available Ended
    unfolding mark_available
    mark_available-Ended = record {
      answer = λ t.
          let m =
            update_worker_status_in_pool C me.worker_pool me.nodename me.namespace
              WorkerState.available in
          marked (m t.world).0 (record t { world = (m t.world).1 }) (L.view t.world)
            ((update_worker_status_in_pool-Modified C L me.worker_pool me.nodename me.namespace
                WorkerState.available (L.view t.world)).run
              t.world refl);
    }
      where
        marked :
            (r : Outcome (Unit {0})) (u : Traced C.World) (v : View)
            → Ends
                (λ _ w.
                  Modified C L Kind.pools
                    (EntryUpdated me.nodename WorkerState.available)
                    (record { namespace = me.namespace; name = me.worker_pool })
                    v
                    (L.view w))
                (Same C L v)
                r
                u.world
            → let x = resume {B = Life} (caught_outcome r) u (elim [
              | inl e ↦ panics "failed to update worker's state in worker pool"
              | inr _ ↦ pure running
            ]) in
              Answer Ended x.0 x.1
        marked (ok a) u v h = inr (v, h)
        marked (err e) u v h = tt
        marked (panic s) u v h = tt

    finish-Ended : (path : String) → Answers (finish F C M G me calc path) Ended
    unfolding finish mark_available
    finish-Ended path =
        Answers->>= _ (λ _. mark_available)
          (Answers-unless_error (quietly (M.remove_all path)) _ _ (told F C M G calc commands)
            λ _. record { answer = λ t. tt })
          λ _. mark_available-Ended

    failed_early : Answers (report F C M G calc running) Ended
    failed_early = record { answer = λ t. inl (IsSent-last t) }

    after_staging :
        (root path : String) (life : Life) (t : Traced C.World)
        → Staged life t
        → let m = unless_returned F C M G life (
            run_pipeline F C M G calc root path calc.pipeline >>= λ _.
            finish F C M G me calc path) in
          Answer Ended (m t).0 (m t).1
    after_staging root path running t h =
        (Answers->>= _ _ (run_pipeline-NoError F C M G calc commands root path calc.pipeline)
            λ _. finish-Ended path).answer
          t
    after_staging root path returned t h = h

    -- With commands whose failures are values: however a turn on a calculation ends, it has no
    -- error. If it ends without a panic, its controller hears of it: an error of that calculation
    -- was sent, or the last that was done is that the worker's entry in its pool got the state
    -- `available`, or the zero worker was written if the pool had no entry for it. And the
    -- executor stops after it only with such an error, and only for a calculation with files that
    -- are copied and not linked.
    pub execute-Answers : (nfs_path : String) → Answers (execute F C M G nfs_path me calc) Ended
    unfolding execute
    execute-Answers nfs_path =
        let root = M.join nfs_path (label calc calc_root_folder) in
        Answers-unless_error (quietly (set_unlimit_stack M)) _ _ failed_early λ _.
          Answers-unless_error (quietly (M.mkdir_temp (label calc calculation_name_label))) _ _
            failed_early
            λ path.
              Answers-unless_error (quietly (ensure_directory F C M G path)) _ _ failed_early λ _.
                Answers_after _ _ (stage-Staged root path calc.input_files refl)
                  (after_staging root path)
