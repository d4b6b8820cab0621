-- ===== src/Pipelines/Vega.antt =====
-- pkg/pipelines/vega.go: the three steps of a stellar model and the files between them.
pub mod Progress
use ccb_operator.Base.{
  ℕ, zero, suc, ◌+◌, Bool, true, false, if◌then◌else◌, String, ◌<>◌, Option, none, some, List, [],
  ◌∷◌, ◌++◌, ◌⊎◌, inl, inr,
}
use ccb_operator.Base.Maps.{Entries}
use ccb_operator.Base.Bytes.{Bytes, bytes, has_prefix, same_byte, split, join}
use ccb_operator.Go.{
  Error, text, wrap, Action, pure, fail, panics, wrapping, describing, caught, or_panic, ◌>>=◌,
  ◌>>◌,
}
use ccb_operator.Api.Calculations.{CalculationPhase, Params, Step, is_no_phase}
use ccb_operator.Util.Formats.{Formats}
use ccb_operator.Util.Calculations.{vega_steps}
use ccb_operator.Worker.Machine.{Machine, Visit, visit, unreadable}
use ccb_operator.Worker.Messages.{Result, Message, step_result, Traced, emit, quietly}
use ccb_operator.Pipelines.Text.{rewrite_line}

abbrev pub vega_calculation_steps : List Step
vega_calculation_steps = vega_steps

pub record VegaPipeline : Type 0 where
  pub calc_path : String
  pub calc_name : String
  pub atlas_control_files : String
  pub atlas_data_files : String
  pub kuruz_model_template_file : String
  pub synspec_input_template_file : String
  pub params : Params

unfoldable pub new_vega_pipeline : String → String → Params → VegaPipeline
new_vega_pipeline calc_name calc_path params = record {
  calc_path = calc_path;
  calc_name = calc_name;
  atlas_control_files = "atlas-control-files";
  atlas_data_files = "atlas-data-files";
  kuruz_model_template_file = "kuruz-model-template-file";
  synspec_input_template_file = "synspec-input-template-file";
  params = params;
}

abbrev pub failed_with : Option Error → CalculationPhase
failed_with none = CalculationPhase.completed
failed_with (some _) = CalculationPhase.failed

-- `lines[0] = line`; strings.Split returns at least one line.
abbrev replace_first : Bytes → List Bytes → List Bytes
replace_first line [] = []
replace_first line (_ ∷ lines) = line ∷ lines

module _ (F : Formats) {W : Type 0} (M : Machine W) (v : VegaPipeline) where
  -- "TEFF %6d.  GRAVITY %.5f LTE "
  unfoldable pub construct_kuruz_input_file_line : Bytes
  construct_kuruz_input_file_line =
      bytes "TEFF "
      ++ (bytes (F.format_teff v.params.teff)
          ++ (bytes ".  GRAVITY " ++ (bytes (F.format_float 5 v.params.log_g) ++ bytes " LTE ")))

  unfoldable pub generate_kuruz_input_file : Action W (Unit {0})
  unfolding construct_kuruz_input_file_line split join
  generate_kuruz_input_file = do
    data_read ←
        describing "could not read file"
          (M.read_file (M.join v.calc_path v.kuruz_model_template_file))
    let lines = replace_first construct_kuruz_input_file_line (split 10 data_read)
    describing "couldn't generate the new input file"
        (M.write_file (M.join v.calc_path "t10000_400_72.mod.7011870916") (join (10 ∷ []) lines))

  -- The lines of one file, each rewritten and ended, behind what was written before.
  unfoldable pub rewrite_lines : Bytes → List Bytes → Action W Bytes
  unfolding rewrite_line
  rewrite_lines contents [] = pure contents
  rewrite_lines contents (line ∷ lines) = do
    to_append ← or_panic (rewrite_line line) "index out of range"
    rewrite_lines (contents ++ (to_append ++ (10 ∷ []))) lines

  abbrev is_model : Visit → Option String
  is_model (visit path name true) = none
  is_model (visit path name false) =
      if has_prefix (bytes (M.base path)) (bytes "t10000_400_72_strat.mod") then some path else none
  is_model (unreadable path e) = none

  -- A file that cannot be opened ends the process by log.Fatal.
  unfoldable pub rewrite_model : Bytes → Option String → Action W Bytes
  unfolding rewrite_lines
  rewrite_model contents none = pure contents
  rewrite_model contents (some path) = do
    opened ← caught (M.open_file path)
    elim opened [
      | inl e ↦ panics "log.Fatal"
      | inr _ ↦ (do
        (lines, error) ← M.scan_lines path
        contents' ← rewrite_lines contents lines
        elim error [ none ↦ pure contents' | some e ↦ fail e ])
    ]

  -- The callback reads `info` of a path that could not be read, which is nil.
  unfoldable pub rewrite_models : Bytes → List Visit → Action W Bytes
  unfolding rewrite_model has_prefix
  rewrite_models contents [] = pure contents
  rewrite_models contents (unreadable path e ∷ visits) =
      panics "invalid memory address or nil pointer dereference"
  rewrite_models contents (visit path name is_dir ∷ visits) = do
    contents' ← rewrite_model contents (is_model (visit path name is_dir))
    rewrite_models contents' visits

  unfoldable pub reconstruct_synspec_input_file : Action W (Unit {0})
  unfolding rewrite_models
  reconstruct_synspec_input_file = do
    visits ← M.walk v.calc_path
    answer ← caught (rewrite_models [] visits)
    elim answer [
      | inl e ↦ fail (text "error while walking to path")
      | inr contents ↦
          wrapping "couldn't generate the new input file"
            (M.write_file (M.join v.calc_path "fort.8") contents)
    ]

  unfoldable pub parse_template : Bytes → Entries String → Error ⊎ Bytes
  parse_template data_read vars = elim (M.parse data_read) [
    | inl e ↦ inl (text "error while parsing the template's data")
    | inr execute ↦ elim (execute vars) [
      | inl e ↦ inl (text "error while executing the template")
      | inr contents ↦ inr contents
    ]
  ]

  unfoldable pub generate_synspec_input_runtime_file : Action W (Unit {0})
  unfolding parse_template
  generate_synspec_input_runtime_file = do
    data_read ← M.read_file (M.join v.calc_path v.synspec_input_template_file)
    let vars =
        ("Teff", F.format_float 4 v.params.teff) ∷ ("LogG", F.format_float 4 v.params.log_g) ∷ []
    elim (parse_template data_read vars) [
      | inl e ↦ fail e
      | inr contents ↦ (do
        describing "couldn't generate the new input file"
            (M.write_file (M.join v.calc_path "input_tlusty_fortfive") contents)
        describing "couldn't generate the new input file"
            (M.write_file (M.join v.calc_path "fort.95") contents))
    ]

  unfoldable pub dump_command_output : ℕ → Bytes → Action W (Unit {0})
  dump_command_output step output =
      describing "couldn't generate the command output file"
        (M.write_file (M.join v.calc_path (M.step_file step)) output)

  -- What is made before the step at an index.
  unfoldable pub prepare : ℕ → Action W (Unit {0})
  unfolding generate_kuruz_input_file reconstruct_synspec_input_file
      generate_synspec_input_runtime_file
  prepare index =
      if same_byte index 0
      then wrapping "couldn't generate kuruz input file" generate_kuruz_input_file
      else if same_byte index 2
      then (do
        wrapping "couldn't generate the Synspec's input file" reconstruct_synspec_input_file
        wrapping "couldn't generate the Synspec's Runtime input file"
            generate_synspec_input_runtime_file)
      else pure tt

  -- Only the output of a failed command is dumped, and an error of that is logged.
  unfoldable pub dump_failed : ℕ → Bytes → Option Error → Action W (Unit {0})
  unfolding dump_command_output
  dump_failed index output none = pure tt
  dump_failed index output (some e) = do _ ← caught (dump_command_output index output); pure tt

  abbrev pub result_of : ℕ → Bytes → Option Error → Result
  result_of index output error = record {
    calc_name = v.calc_name;
    step = index;
    status = failed_with error;
    stdout_stderr = output;
    command_error = error;
  }

  abbrev pub stop_if_failed :
      Option Error → Action (Traced W) (Unit {0}) → Action (Traced W) (Unit {0})
  stop_if_failed none rest = rest
  stop_if_failed (some _) rest = fail (text "one or more steps failed")

  unfoldable pub run_from : ℕ → List Step → Action (Traced W) (Unit {0})
  unfolding prepare dump_failed
  run_from index [] = pure tt
  run_from index (step ∷ steps) =
      if is_no_phase step.status
      then (do
        quietly (prepare index)
        (output, error) ← quietly (M.run_command v.calc_path step.command step.args)
        quietly (dump_failed index output error)
        emit (step_result (result_of index output error))
        stop_if_failed error (run_from (suc index) steps))
      else run_from (suc index) steps

  unfoldable pub run : Action (Traced W) (Unit {0})
  unfolding run_from
  run = run_from 0 vega_calculation_steps
