-- ===== src/Api/Calculations.antt =====
-- pkg/apis/calculations/v1/types.go
use ccb_operator.Base.{Bool, true, false, String, Option, none, List, []}
use ccb_operator.Api.Meta.{Time, Float64, ObjectMeta, no_meta}

-- `no_phase` is the empty text; `other` is any text that has no constant.
pub data CalculationPhase : Type 0 where
  no_phase created processing completed failed cached : CalculationPhase
  other : String → CalculationPhase

abbrev pub is_no_phase : CalculationPhase → Bool
is_no_phase CalculationPhase.no_phase = true
is_no_phase _ = false

abbrev pub is_created : CalculationPhase → Bool
is_created CalculationPhase.created = true
is_created _ = false

abbrev pub is_processing : CalculationPhase → Bool
is_processing CalculationPhase.processing = true
is_processing _ = false

abbrev pub is_completed : CalculationPhase → Bool
is_completed CalculationPhase.completed = true
is_completed _ = false

abbrev pub is_failed : CalculationPhase → Bool
is_failed CalculationPhase.failed = true
is_failed _ = false

pub data Pipeline : Type 0 where
  no_pipeline vega : Pipeline
  other_pipeline : String → Pipeline

pub record Params : Type 0 where
  pub log_g : Float64
  pub teff : Float64

pub record Step : Type 0 where
  pub command : String
  pub args : List String
  pub status : CalculationPhase

pub record InputFiles : Type 0 where
  pub files : List String
  pub symlink : Bool

pub record CalculationSpec : Type 0 where
  pub steps : List Step
  pub params : Params

pub record CalculationStatus : Type 0 where
  pub start_time : Time
  pub pending_time : Option Time
  pub completion_time : Option Time

pub record Calculation : Type 0 where
  pub meta : ObjectMeta
  pub spec : CalculationSpec
  pub pipeline : Pipeline
  pub assign : String
  pub worker_pool : String
  pub input_files : Option InputFiles
  pub output_files_regex : String
  pub status : CalculationStatus
  pub phase : CalculationPhase

-- Go's zero values.
abbrev pub no_params : Params
no_params = record { log_g = 0; teff = 0 }

abbrev pub no_status : CalculationStatus
no_status = record { start_time = 0; pending_time = none; completion_time = none }

abbrev pub zero_calculation : Calculation
zero_calculation = record {
  meta = no_meta;
  spec = record { steps = []; params = no_params };
  pipeline = Pipeline.no_pipeline;
  assign = "";
  worker_pool = "";
  input_files = none;
  output_files_regex = "";
  status = no_status;
  phase = CalculationPhase.no_phase;
}
