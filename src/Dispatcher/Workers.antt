-- ===== src/Dispatcher/Workers.antt =====
-- pkg/dispatcher/workers/controller.go: when a worker's pod is gone, its state becomes unknown and
-- the calculations assigned to it are deleted and freed in their bulks.
pub mod Freed
pub mod Forgotten
pub mod Waiting
pub mod Recovered
use ccb_operator.Base.{
  Bool, true, false, ◌||◌, ◌==◌, if◌then◌else◌, String, ◌<>◌, Option, none, some, List, [], ◌∷◌,
  ◌⊎◌, inl, inr, select,
}
use ccb_operator.Base.Maps.{GoMap, Entries, entries, index, lookup, insert}
use ccb_operator.Go.{Error, wrap, text, Action, pure, fail, panics, wrapping, caught, ◌>>=◌, ◌>>◌}
use ccb_operator.Api.{Kind, Pod}
use ccb_operator.Api.Meta.{Time, ObjectMeta, ObjectKey, meta_key}
use ccb_operator.Api.Calculations.{CalculationPhase, Calculation, is_created, is_processing}
use ccb_operator.Api.Workers.{Worker, WorkerState, WorkerPool, zero_worker}
use ccb_operator.Cluster.{Cluster}
use ccb_operator.Cluster.Modify.{modify}
use ccb_operator.Events.{Event, create, update, delete, generic, Requests}
use ccb_operator.Util.Labels.{bulk_label, calculation_name_label, assign_worker_label}
use ccb_operator.Util.Workers.{write_worker}
use ccb_operator.Dispatcher.Phases.{write_phase}

abbrev is_deleted : Option Time → Bool
is_deleted none = false
is_deleted (some _) = true

-- A pod passes with no labels at all, or with the name of the workers.
abbrev pub is_worker_name : Option String → Bool
is_worker_name none = false
is_worker_name (some v) = v == "vega-worker"

abbrev pub passes : GoMap String → Bool
passes none = true
passes (some labels) = is_worker_name (lookup "name" labels)

-- The methods of podHandler.
unfoldable pub handle : String → Event Pod → Requests
handle namespace (create o) =
    if namespace == o.meta.namespace
    then if passes o.meta.labels then meta_key o.meta ∷ [] else []
    else []
handle namespace (update _ o) =
    if namespace == o.meta.namespace
    then if is_deleted o.meta.deletion_timestamp
      then []
      else if passes o.meta.labels
      then meta_key o.meta ∷ []
      else []
    else []
handle namespace (delete _) = []
handle namespace (generic _) = []

-- `workerToUpdate := workers[name]; workerToUpdate.State = unknown`.
abbrev pub with_unknown_state : Option Worker → Worker
with_unknown_state none = record zero_worker { state = WorkerState.unknown }
with_unknown_state (some worker) = record worker { state = WorkerState.unknown }

abbrev pub is_active : Calculation → Bool
is_active c = is_created c.phase || is_processing c.phase

module _ (C : Cluster) where
  unfoldable pub forget_worker : ObjectKey → String → Action C.World (Unit {0})
  unfolding write_worker
  forget_worker pool_key node =
      modify C Kind.pools pool_key "failed to get the calculation" "failed to update worker pool "
        (write_worker C node with_unknown_state)

  -- The two loops of reconcileWorkerInPools.
  unfoldable pub forget_in_pool : ObjectKey → String → Entries Worker → Action C.World (Unit {0})
  unfolding forget_worker
  forget_in_pool pool_key pod_name [] = pure tt
  forget_in_pool pool_key pod_name ((node, worker) ∷ workers) =
      if worker.name == pod_name
      then (do forget_worker pool_key node; forget_in_pool pool_key pod_name workers)
      else forget_in_pool pool_key pod_name workers

  unfoldable pub forget_in_pools : String → List WorkerPool → Action C.World (Unit {0})
  unfolding forget_in_pool
  forget_in_pools pod_name [] = pure tt
  forget_in_pools pod_name (pool ∷ pools) = do
    forget_in_pool (meta_key pool.meta) pod_name (entries pool.workers)
    forget_in_pools pod_name pools

  -- The error of a list is formatted with `%v`, which keeps its text alone.
  unfoldable pub reconcile_worker_in_pools : String → Action C.World (Unit {0})
  unfolding forget_in_pools
  reconcile_worker_in_pools pod_name = do
    answer ← caught (C.list Kind.pools)
    elim answer [
      | inl e ↦ fail (text "couldn't get a list of worker pools")
      | inr pools ↦ forget_in_pools pod_name pools
    ]

  unfoldable pub free_calculation :
      String → Option String → Option String → Action C.World (Unit {0})
  unfolding write_phase
  free_calculation namespace (some bulk_name) (some calc_name) =
      modify C Kind.bulks (record { namespace = namespace; name = bulk_name })
        "failed to get the calculation" "failed to update calculation bulk "
        (write_phase C calc_name CalculationPhase.no_phase)
  free_calculation namespace none calc_name = pure tt
  free_calculation namespace (some bulk_name) none = pure tt

  unfoldable pub delete_calculations : List Calculation → Action C.World (Unit {0})
  unfolding free_calculation
  delete_calculations [] = pure tt
  delete_calculations (calc ∷ calcs) = do
    answer ← caught (C.delete Kind.calculations calc)
    elim answer [
      | inl e ↦ fail (text "couldn't delete the calculation")
      | inr _ ↦ (do
        free_calculation calc.meta.namespace (index calc.meta.labels bulk_label)
            (index calc.meta.labels calculation_name_label)
        delete_calculations calcs)
    ]

  unfoldable pub delete_assigned_calculations : String → Action C.World (Unit {0})
  unfolding delete_calculations
  delete_assigned_calculations assigned = do
    answer ← caught (C.list_labelled assign_worker_label assigned)
    elim answer [
      | inl e ↦ fail (text "couldn't get a list of calculations")
      | inr calcs ↦ delete_calculations (select is_active calcs)
    ]

  -- A pod that is there only has its phase logged.
  unfoldable pub reconcile : ObjectKey → Action C.World (Unit {0})
  unfolding reconcile_worker_in_pools delete_assigned_calculations
  reconcile req = do
    answer ← caught (C.get Kind.pods req)
    elim answer [
      | inr pod ↦ pure tt
      | inl e ↦
          if C.is_not_found e
          then (do reconcile_worker_in_pools req.name; delete_assigned_calculations req.name)
          else fail
              (wrap ("failed to get pod: " <> req.name <> " in namespace " <> req.namespace) e)
    ]
