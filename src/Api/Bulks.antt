-- ===== src/Api/Bulks.antt =====
-- pkg/apis/calculationbulk/v1/types.go. Its `Calculation` is `BulkCalculation` here.
use ccb_operator.Base.{String, Option, none, List, []}
use ccb_operator.Base.Maps.{GoMap}
use ccb_operator.Api.Meta.{Time, ObjectMeta, no_meta}
use ccb_operator.Api.Calculations.{CalculationPhase, Pipeline, Params, Step, InputFiles, no_params}

pub data CalculationBulkState : Type 0 where
  no_state available processing unknown : CalculationBulkState
  other : String → CalculationBulkState

pub record BulkCalculation : Type 0 where
  pub pipeline : Pipeline
  pub params : Params
  pub steps : List Step
  pub phase : CalculationPhase
  pub input_files : Option InputFiles

pub record CalculationBulkStatus : Type 0 where
  pub created_time : Time
  pub completion_time : Option Time
  pub state : CalculationBulkState

pub record CalculationBulk : Type 0 where
  pub meta : ObjectMeta
  pub root_folder : String
  pub worker_pool : String
  pub input_files : Option InputFiles
  pub output_files_regex : String
  pub calculations : GoMap BulkCalculation
  pub post_calculation : Option BulkCalculation
  pub status : CalculationBulkStatus

-- Go's zero values.
abbrev pub zero_bulk_calculation : BulkCalculation
zero_bulk_calculation = record {
  pipeline = Pipeline.no_pipeline;
  params = no_params;
  steps = [];
  phase = CalculationPhase.no_phase;
  input_files = none;
}

abbrev pub zero_bulk : CalculationBulk
zero_bulk = record {
  meta = no_meta;
  root_folder = "";
  worker_pool = "";
  input_files = none;
  output_files_regex = "";
  calculations = none;
  post_calculation = none;
  status = record {
    created_time = 0;
    completion_time = none;
    state = CalculationBulkState.no_state;
  };
}
