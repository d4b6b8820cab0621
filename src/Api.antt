-- ===== src/Api.antt =====
-- The custom resources of the operator (pkg/apis), and the kinds of object that the API server holds.
pub mod Meta
pub mod Calculations
pub mod Bulks
pub mod Factories
pub mod Workers
use ccb_operator.Base.{String}
use Meta.{ObjectMeta, ObjectKey, meta_key}
use Calculations.{Calculation}
use Bulks.{CalculationBulk}
use Factories.{CalculationBulkFactory}
use Workers.{WorkerPool}

-- corev1.Pod, as far as the program reads it.
pub record Pod : Type 0 where
  pub meta : ObjectMeta
  pub phase : String

pub data Kind : Type 0 where
  calculations bulks factories pools pods : Kind

abbrev pub Obj : Kind → Type 0
Obj Kind.calculations = Calculation
Obj Kind.bulks = CalculationBulk
Obj Kind.factories = CalculationBulkFactory
Obj Kind.pools = WorkerPool
Obj Kind.pods = Pod

abbrev pub meta_of : (k : Kind) → Obj k → ObjectMeta
meta_of Kind.calculations o = o.meta
meta_of Kind.bulks o = o.meta
meta_of Kind.factories o = o.meta
meta_of Kind.pools o = o.meta
meta_of Kind.pods o = o.meta

abbrev pub key_of : (k : Kind) → Obj k → ObjectKey
key_of k o = meta_key (meta_of k o)
