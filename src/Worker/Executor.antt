-- ===== src/Worker/Executor.antt =====
-- pkg/worker/executor/executor.go: runs the steps of one calculation in a temporary directory.
pub mod Steps
pub mod NoErrors
pub mod Answers
use ccb_operator.Base.{
  ℕ, zero, suc, Bool, true, false, if◌then◌else◌, String, ◌<>◌, Option, none, some, List, [], ◌∷◌,
  ◌⊎◌, inl, inr,
}
use ccb_operator.Base.Bytes.{Bytes}
use ccb_operator.Base.Maps.{Entries, index}
use ccb_operator.Go.{
  Error, text, Action, pure, fail, panics, wrapping, caught, unless_error, ◌>>=◌, ◌>>◌,
}
use ccb_operator.Api.Calculations.{
  CalculationPhase, Calculation, InputFiles, Params, Pipeline, Step, is_no_phase,
}
use ccb_operator.Api.Workers.{WorkerState}
use ccb_operator.Cluster.{Cluster}
use ccb_operator.Grpc.{ResultsClient}
use ccb_operator.Util.Formats.{Formats}
use ccb_operator.Util.Labels.{calc_root_folder, calculation_name_label}
use ccb_operator.Util.Workers.{update_worker_status_in_pool}
use ccb_operator.Worker.{Identity}
use ccb_operator.Worker.Machine.{Machine, Visit, visit, unreadable}
use ccb_operator.Worker.Messages.{Result, Message, step_result, calc_error, Traced, emit, quietly}
use ccb_operator.Pipelines.Vega.{new_vega_pipeline, failed_with, run}

-- Whether the loop of Run goes on, or has returned.
pub data Life : Type 0 where
  running returned : Life

abbrev or_empty : Option String → String
or_empty none = ""
or_empty (some s) = s

abbrev pub label : Calculation → String → String
label calc key = or_empty (index calc.meta.labels key)

module _ {W : Type 0} (M : Machine W) where
  unfoldable pub set_unlimit_stack : Action W (Unit {0})
  set_unlimit_stack =
      unless_error M.set_rlimit_stack (fail (text "error Setting Rlimit")) λ _. pure tt

  unfoldable pub dump_command_output : String → ℕ → Bytes → Action W (Unit {0})
  dump_command_output calc_path step data_written =
      unless_error (M.write_file (M.join calc_path (M.step_file step)) data_written)
        (fail (text "couldn't generate the command output file")) λ _. pure tt

  unfoldable pub link_visits : String → List Visit → Action W (Unit {0})
  link_visits to_path [] = pure tt
  link_visits to_path (unreadable path e ∷ visits) = fail e
  link_visits to_path (visit path name true ∷ visits) = link_visits to_path visits
  link_visits to_path (visit path name false ∷ visits) = do
    M.symlink path (M.join to_path (M.base path))
    link_visits to_path visits

  unfoldable pub create_symbolic_links : List String → String → Action W (Unit {0})
  unfolding link_visits
  create_symbolic_links [] to_path = pure tt
  create_symbolic_links (path ∷ paths) to_path = do
    visits ← M.walk path
    link_visits to_path visits
    create_symbolic_links paths to_path

  unfoldable pub copy_file : String → String → Action W (Unit {0})
  copy_file src dest = do M.open_file src; M.create_file dest; M.copy src dest

  unfoldable pub copy_visits : (String → Bool) → String → List Visit → Action W (Unit {0})
  unfolding copy_file
  copy_visits matches dest_dir [] = pure tt
  copy_visits matches dest_dir (unreadable path e ∷ visits) = fail e
  copy_visits matches dest_dir (visit path name true ∷ visits) = copy_visits matches dest_dir visits
  copy_visits matches dest_dir (visit path name false ∷ visits) = do
    (if matches name then copy_file path (M.join dest_dir name) else pure tt)
    copy_visits matches dest_dir visits

  unfoldable pub copy_matching_files : String → String → String → Action W (Unit {0})
  unfolding copy_visits
  copy_matching_files src_dir dest_dir pattern = elim (M.compile pattern) [
    | inl e ↦ fail e
    | inr matches ↦ (do
      M.mkdir_all dest_dir
      visits ← M.walk src_dir
      copy_visits matches dest_dir visits)
  ]

module _ (F : Formats) (C : Cluster) (M : Machine C.World) (G : ResultsClient C.World) where
  -- `e.calcErrorChan <- calc.Name`, and then `a`.
  abbrev pub report : {A : Type 0} → Calculation → A → Action (Traced C.World) A
  report calc a = emit (calc_error calc.meta.name) >> pure a

  -- The loop over the input files. A failed link leaves this loop alone, while a file that cannot
  -- be copied returns from Run.
  unfoldable pub stage_files :
      Calculation → String → String → Bool → List String → Action (Traced C.World) Life
  unfolding create_symbolic_links
  stage_files calc root calc_path symlink [] = pure running
  stage_files calc root calc_path true (file ∷ files) =
      unless_error (quietly (create_symbolic_links M (M.join root file ∷ []) calc_path))
        (report calc running) λ _. stage_files calc root calc_path true files
  stage_files calc root calc_path false (file ∷ files) =
      unless_error (quietly (M.read_file (M.join root file))) (report calc returned) λ input.
        unless_error (quietly (M.write_file (M.join calc_path (M.split_file file)) input))
          (report calc returned) λ _. stage_files calc root calc_path false files

  abbrev pub stage :
      Calculation → String → String → Option InputFiles → Action (Traced C.World) Life
  stage calc root calc_path none = pure running
  stage calc root calc_path (some inputs) =
      stage_files calc root calc_path inputs.symlink inputs.files

  unfoldable pub run_vega : Calculation → String → String → Action (Traced C.World) (Unit {0})
  unfolding create_symbolic_links new_vega_pipeline run
  run_vega calc root calc_path =
      let v = new_vega_pipeline calc.meta.name calc_path calc.spec.params in
      let links = M.join root v.atlas_control_files ∷ M.join root v.atlas_data_files ∷ [] in
      unless_error (quietly (create_symbolic_links M links calc_path)) (report calc tt) λ _.
        unless_error (run F M v) (report calc tt) λ _.
          unless_error (quietly (M.read_file (M.join calc_path "fort.7"))) (report calc tt)
            λ data_read.
              unless_error
                (quietly (
                  G.store_data
                    (("teff", F.format_float 6 calc.spec.params.teff)
                      ∷ ("log_g", F.format_float 6 calc.spec.params.log_g)
                      ∷ [])
                    (M.text_of data_read)))
                (report calc tt) λ _. pure tt

  abbrev pub report_if_failed : Calculation → Option Error → Action (Traced C.World) (Unit {0})
  report_if_failed calc none = pure tt
  report_if_failed calc (some e) = report calc tt

  -- The loop over the steps of any other pipeline, from an index. It goes on after a failed step.
  unfoldable pub run_steps :
      Calculation → String → ℕ → List Step → Action (Traced C.World) (Unit {0})
  unfolding dump_command_output
  run_steps calc calc_path index [] = pure tt
  run_steps calc calc_path index (step ∷ steps) =
      if is_no_phase step.status
      then (do
        (output, error) ← quietly (M.run_command calc_path step.command step.args)
        _ ← caught (quietly (dump_command_output M calc_path index output))
        emit (
            step_result (record {
              calc_name = calc.meta.name;
              step = index;
              status = failed_with error;
              stdout_stderr = output;
              command_error = error;
            }))
        report_if_failed calc error
        run_steps calc calc_path (suc index) steps)
      else run_steps calc calc_path (suc index) steps

  unfoldable pub run_default : Calculation → String → String → Action (Traced C.World) (Unit {0})
  unfolding run_steps copy_matching_files
  run_default calc root calc_path = do
    run_steps calc calc_path 0 calc.spec.steps
    unless_error
        (quietly (
          copy_matching_files M calc_path (M.join root (label calc calculation_name_label))
            calc.output_files_regex))
        (report calc tt) λ _. pure tt

  abbrev pub run_pipeline :
      Calculation → String → String → Pipeline → Action (Traced C.World) (Unit {0})
  run_pipeline calc root calc_path Pipeline.vega = run_vega calc root calc_path
  run_pipeline calc root calc_path _ = run_default calc root calc_path

  -- The end of a turn: a worker whose state cannot be updated panics.
  unfoldable pub finish : Identity → Calculation → String → Action (Traced C.World) Life
  unfolding update_worker_status_in_pool
  finish me calc calc_path = do
    unless_error (quietly (M.remove_all calc_path)) (report calc tt) λ _. pure tt
    unless_error
        (quietly (
          update_worker_status_in_pool C me.worker_pool me.nodename me.namespace
            WorkerState.available))
        (panics "failed to update worker's state in worker pool") λ _. pure running

  abbrev pub unless_returned : Life → Action (Traced C.World) Life → Action (Traced C.World) Life
  unless_returned running rest = rest
  unless_returned returned rest = pure returned

  -- `if _, err := os.Stat(path); err != nil { os.MkdirAll(path) }`
  abbrev pub ensure_directory : String → Action C.World (Unit {0})
  ensure_directory path = unless_error (M.stat path) (M.mkdir_all path) λ _. pure tt

  -- One turn of Run's loop, on the calculation that it received.
  unfoldable pub execute : String → Identity → Calculation → Action (Traced C.World) Life
  unfolding set_unlimit_stack stage_files run_vega run_default finish
  execute nfs_path me calc = unless_error (quietly (set_unlimit_stack M)) (report calc running) λ _.
      let root = M.join nfs_path (label calc calc_root_folder) in
      unless_error (quietly (M.mkdir_temp (label calc calculation_name_label)))
        (report calc running)
        λ calc_path. unless_error (quietly (ensure_directory calc_path)) (report calc running) λ _.
          do
            life ← stage calc root calc_path calc.input_files
            unless_returned life
                (do run_pipeline calc root calc_path calc.pipeline; finish me calc calc_path)

  -- Run, on the calculations that it receives one after the other.
  unfoldable pub execute_all : String → Identity → List Calculation → Action (Traced C.World) Life
  unfolding execute
  execute_all nfs_path me [] = pure running
  execute_all nfs_path me (calc ∷ calcs) = do
    life ← execute nfs_path me calc
    unless_returned life (execute_all nfs_path me calcs)
