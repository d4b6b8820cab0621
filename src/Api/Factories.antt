-- ===== src/Api/Factories.antt =====
-- pkg/apis/calculationbulkfactory/v1/types.go
use ccb_operator.Base.{Bool, String, Option, List}
use ccb_operator.Api.Meta.{Time, ObjectMeta}
use ccb_operator.Api.Calculations.{InputFiles}

-- metav1.Condition, as far as the program writes it.
pub record Condition : Type 0 where
  pub condition_type : String
  pub status : String
  pub reason : String
  pub last_transition_time : Time

pub record CalculationBulkFactoryStatus : Type 0 where
  pub created_time : Time
  pub completion_time : Option Time
  pub conditions : List Condition
  pub bulk_created : Bool

pub record CalculationBulkFactory : Type 0 where
  pub meta : ObjectMeta
  pub root_folder : String
  pub input_files : Option InputFiles
  pub worker_pool : String
  pub bulk_output : String
  pub command : String
  pub args : List String
  pub status : CalculationBulkFactoryStatus
