-- ===== src/Worker.antt =====
-- pkg/worker
pub mod Machine
pub mod Messages
pub mod Pools
pub mod Controller
pub mod Executor
pub mod Operator
use ccb_operator.Base.{String}

-- What the controllers and the executor of one worker know of it: its pod, its node, and its pool.
pub record Identity : Type 0 where
  pub hostname : String
  pub nodename : String
  pub namespace : String
  pub worker_pool : String
