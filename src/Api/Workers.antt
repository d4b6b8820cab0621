-- ===== src/Api/Workers.antt =====
-- pkg/apis/workers/v1/types.go. Its `CalculationBulk` is `RegisteredBulk` here.
use ccb_operator.Base.{ℕ, Bool, true, false, String, Option, none}
use ccb_operator.Base.Maps.{GoMap}
use ccb_operator.Api.Meta.{Time, ObjectMeta}
use ccb_operator.Api.Bulks.{CalculationBulkState}

pub data WorkerState : Type 0 where
  no_state available reserved processing unknown : WorkerState
  other : String → WorkerState

abbrev pub is_available : WorkerState → Bool
is_available WorkerState.available = true
is_available _ = false

pub record RegisteredBulk : Type 0 where
  pub name : String
  pub registered_time : Option Time
  pub state : CalculationBulkState

pub record Worker : Type 0 where
  pub name : String
  pub node : String
  pub registered_time : Option Time
  pub last_update_time : Option Time
  pub calculations_processed : ℕ  -- int64
  pub state : WorkerState

pub record WorkerPoolStatus : Type 0 where
  pub creation_time : Option Time
  pub pending_time : Option Time
  pub completion_time : Option Time

pub record WorkerPool : Type 0 where
  pub meta : ObjectMeta
  pub workers : GoMap Worker
  pub status : WorkerPoolStatus

-- Go's zero value.
abbrev pub zero_worker : Worker
zero_worker = record {
  name = "";
  node = "";
  registered_time = none;
  last_update_time = none;
  calculations_processed = 0;
  state = WorkerState.no_state;
}
