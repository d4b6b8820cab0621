-- ===== src/Cluster.antt =====
-- What the program takes from outside: the API server behind ctrlruntimeclient.Client, the clock,
-- and client-go's RetryOnConflict. `World` is all that they may read and change.
pub mod View
pub mod Laws
pub mod Modify
pub mod Keeps
pub mod Stored
pub mod Ready
use ccb_operator.Base.{Bool, String, Option, List}
use ccb_operator.Go.{Error, Action}
use ccb_operator.Api.{Kind, Obj}
use ccb_operator.Api.Meta.{Time, ObjectKey}
use ccb_operator.Api.Calculations.{Calculation}

pub record Cluster : Type 1 where
  pub World : Type 0
  -- time.Now, and the wait between two attempts
  pub now : Action World Time
  pub back_off : World → World
  -- the client
  pub get : (k : Kind) → ObjectKey → Action World (Obj k)
  pub list : (k : Kind) → Action World (List (Obj k))
  pub list_labelled : String → String → Action World (List Calculation)
  pub create : (k : Kind) → Obj k → Action World (Unit {0})
  pub update : (k : Kind) → Obj k → Action World (Unit {0})
  pub delete : (k : Kind) → Obj k → Action World (Unit {0})
  -- The value is what an attempt leaves in the variables that its closure captures.
  pub retry_on_conflict : (A : Type 0) → Action World A → Action World A
  -- the tests of k8s.io/apimachinery on errors, and its aggregate
  pub is_conflict : Error → Bool
  pub is_not_found : Error → Bool
  pub is_unauthorized : Error → Bool
  pub is_forbidden : Error → Bool
  pub is_internal_error : Error → Bool
  pub new_aggregate : List Error → Option Error
