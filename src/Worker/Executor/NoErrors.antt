-- ===== src/Worker/Executor/NoErrors.antt =====
-- The parts of a turn of the executor that report their failures and return no error.
use ccb_operator.Base.{ℕ, suc, inl, inr, Bool-cases, String, Option, none, some, List, [], ◌∷◌}
use ccb_operator.Go.{Error, Outcome, ok, err, panic, Action}
use ccb_operator.Go.Answers.{Answer, NoError, Answers->>=, Answers-unless_error, NoError-caught}
use ccb_operator.Api.Calculations.{Calculation, Pipeline, Step, is_no_phase}
use ccb_operator.Cluster.{Cluster}
use ccb_operator.Grpc.{ResultsClient}
use ccb_operator.Util.Formats.{Formats}
use ccb_operator.Util.Labels.{calculation_name_label}
use ccb_operator.Pipelines.Vega.{new_vega_pipeline, run}
use ccb_operator.Worker.Machine.{Machine}
use ccb_operator.Worker.Messages.{Message, Traced, emit, quietly}
use ccb_operator.Worker.Executor.{
  report, report_if_failed, dump_command_output, copy_matching_files, create_symbolic_links,
  run_vega, run_steps, run_default, run_pipeline, label,
}

module _ {W : Type 0} where
  NoError-quietly : {A : Type 0} (m : Action W A) → NoError m → NoError (quietly m)
  NoError-quietly m h = record { answer = λ t. quiet (m t.world).0 _ (h.answer t.world) }
    where
      quiet :
          {A : Type 0} (r : Outcome A) (t : Traced W)
          → Answer (λ _ _. Unit {0}) r t.world
          → Answer (λ _ _. Unit {0}) r t
      quiet (ok a) t h = tt
      quiet (err e) t h = h
      quiet (panic s) t h = tt

  NoError-emit : (m : Message) → NoError (emit {W = W} m)
  NoError-emit m = record { answer = λ t. tt }

module _ (F : Formats) (C : Cluster) (M : Machine C.World) (G : ResultsClient C.World)
    (calc : Calculation)
    (commands : (dir command : String) (args : List String)
      → NoError (M.run_command dir command args)) where
  report_if_failed-NoError : (e : Option Error) → NoError (report_if_failed F C M G calc e)
  report_if_failed-NoError none = record { answer = λ t. tt }
  report_if_failed-NoError (some e) = record { answer = λ t. tt }

  run_steps-NoError :
      (path : String) (index : ℕ) (steps : List Step)
      → NoError (run_steps F C M G calc path index steps)
  unfolding run_steps
  run_steps-NoError path index [] = record { answer = λ t. tt }
  run_steps-NoError path index (step ∷ steps) = elim (Bool-cases (is_no_phase step.status)) [
    | inr e ↦ rw e (run_steps-NoError path (suc index) steps)
    | inl e ↦ rw e (
        Answers->>= _ _ (NoError-quietly _ (commands path step.command step.args))
          λ (output, error).
            Answers->>= _ _ (NoError-caught (quietly (dump_command_output M path index output)))
              λ _. Answers->>= _ _ (NoError-emit _) λ _.
                Answers->>= _ _ (report_if_failed-NoError error)
                  λ _. run_steps-NoError path (suc index) steps)
  ]

  -- A failure that is reported, and then nothing.
  abbrev pub told : NoError (report F C M G calc tt)
  told = record { answer = λ t. tt }

  run_default-NoError : (root path : String) → NoError (run_default F C M G calc root path)
  unfolding run_default
  run_default-NoError root path = Answers->>= _ _ (run_steps-NoError path 0 calc.spec.steps) λ _.
      Answers-unless_error
        (quietly (
          copy_matching_files M path (M.join root (label calc calculation_name_label))
            calc.output_files_regex))
        _ _ told λ _. record { answer = λ t. tt }

  run_vega-NoError : (root path : String) → NoError (run_vega F C M G calc root path)
  unfolding run_vega
  run_vega-NoError root path =
      let v = new_vega_pipeline calc.meta.name path calc.spec.params in
      let links = M.join root v.atlas_control_files ∷ M.join root v.atlas_data_files ∷ [] in
      Answers-unless_error (quietly (create_symbolic_links M links path)) _ _ told λ _.
        Answers-unless_error (run F M v) _ _ told λ _.
          Answers-unless_error (quietly (M.read_file (M.join path "fort.7"))) _ _ told λ data_read.
            Answers-unless_error
              (quietly (
                G.store_data
                  (("teff", F.format_float 6 calc.spec.params.teff)
                    ∷ ("log_g", F.format_float 6 calc.spec.params.log_g)
                    ∷ [])
                  (M.text_of data_read)))
              _ _ told λ _. record { answer = λ t. tt }

  pub run_pipeline-NoError :
      (root path : String) (pipeline : Pipeline)
      → NoError (run_pipeline F C M G calc root path pipeline)
  run_pipeline-NoError root path Pipeline.vega = run_vega-NoError root path
  run_pipeline-NoError root path Pipeline.no_pipeline = run_default-NoError root path
  run_pipeline-NoError root path (Pipeline.other_pipeline s) = run_default-NoError root path
