-- ===== src/Worker/Controller.antt =====
-- pkg/worker/controller.go: takes the calculations that are assigned to this worker, and writes
-- down what the executor reports of them.
pub mod Reports
pub mod Kept
pub mod Received
pub mod Taken
pub mod Ran
pub mod Replay
use ccb_operator.Base.{
  ℕ, Bool, true, false, ◌==◌, ◌&&◌, if◌then◌else◌, String, ◌<>◌, Option, none, some, List, [], ◌∷◌,
  ◌⊎◌, inl, inr, get_elem?, set,
}
use ccb_operator.Go.{
  Error, wrap, fail, or_panic, Action, pure, panics, wrapping, caught, ◌>>=◌, ◌>>◌,
}
use ccb_operator.Api.{Kind}
use ccb_operator.Api.Meta.{Time, ObjectKey, meta_key}
use ccb_operator.Api.Calculations.{CalculationPhase, Calculation, Step, is_created}
use ccb_operator.Api.Workers.{WorkerState}
use ccb_operator.Cluster.{Cluster}
use ccb_operator.Cluster.Modify.{modify}
use ccb_operator.Events.{Event, create, update, delete, generic, Requests}
use ccb_operator.Util.Workers.{update_worker_status_in_pool}
use ccb_operator.Worker.{Identity}
use ccb_operator.Worker.Messages.{Message, Result, step_result, calc_error}

-- The methods of calculationHandler.
unfoldable pub handle : String → Event Calculation → Requests
handle namespace (create o) = if namespace == o.meta.namespace then meta_key o.meta ∷ [] else []
handle namespace (update _ _) = []
handle namespace (delete _) = []
handle namespace (generic _) = []

unfoldable pub in_process : Time → Calculation → Calculation
in_process now calc = record calc {
  phase = CalculationPhase.processing;
  status = record (calc.status) { pending_time = some now };
}

unfoldable pub in_failure : Time → Calculation → Calculation
in_failure now calc = record calc {
  phase = CalculationPhase.failed;
  status = record (calc.status) { completion_time = some now };
}

-- `calculation.Spec.Steps[r.Step].Status = r.Status`, if there is such a step.
abbrev pub with_step_status : CalculationPhase → ℕ → Calculation → Option Step → Option Calculation
with_step_status status index calc none = none
with_step_status status index calc (some step) = some (record calc {
  spec = record (calc.spec) { steps = set calc.spec.steps index (record step { status = status }) };
})

unfoldable pub with_result : Result → Calculation → Option Calculation
with_result r calc = with_step_status r.status r.step calc (get_elem? calc.spec.steps r.step)

-- What resultUpdater's select receives.
pub data Signal : Type 0 where
  message : Message → Signal
  stop : Signal

module _ (C : Cluster) (me : Identity) where
  unfoldable pub mark_worker : WorkerState → Action C.World (Unit {0})
  unfolding update_worker_status_in_pool
  mark_worker state = update_worker_status_in_pool C me.worker_pool me.nodename me.namespace state

  unfoldable pub start_processing : ObjectKey → Action C.World (Unit {0})
  unfolding in_process
  start_processing req =
      modify C Kind.calculations req "failed to get the calculation" "failed to update calculation "
        λ calc. do now ← C.now; pure (in_process now calc)

  -- `send` is `executeChan <- calculation`, which waits for the executor to take it.
  unfoldable pub reconcile :
      (send : Calculation → Action C.World (Unit {0})) → ObjectKey → Action C.World (Unit {0})
  unfolding mark_worker start_processing
  reconcile send req = do
    answer ← caught (C.get Kind.calculations req)
    elim answer [
      | inl e ↦
          if C.is_not_found e
          then pure tt
          else fail (
              wrap ("failed to get calculation: " <> req.name <> " in namespace " <> req.namespace)
                e)
      | inr calculation ↦
          if calculation.assign == me.hostname && is_created calculation.phase
          then (do
            wrapping "failed to update worker's state in worker pool"
                (mark_worker WorkerState.processing)
            send calculation
            start_processing req)
          else pure tt
    ]

  abbrev calculation_key : String → ObjectKey
  calculation_key name = record { namespace = me.namespace; name = name }

  unfoldable pub update_error_calculation : String → Action C.World (Unit {0})
  unfolding in_failure
  update_error_calculation name =
      modify C Kind.calculations (calculation_key name) "failed to get the calculation"
        "failed to update calculation " λ calc. do now ← C.now; pure (in_failure now calc)

  unfoldable pub update_calculation : Result → Action C.World (Unit {0})
  unfolding with_result
  update_calculation r =
      modify C Kind.calculations (calculation_key r.calc_name) "failed to get the calculation"
        "failed to update calculation " λ calc. or_panic (with_result r calc) "index out of range"

  -- One turn of the loop. Errors are logged; a panic ends the process.
  unfoldable pub receive : Message → Action C.World (Unit {0})
  unfolding update_calculation update_error_calculation mark_worker
  receive (step_result r) = do _ ← caught (update_calculation r); pure tt
  receive (calc_error name) = do
    _ ← caught (update_error_calculation name)
    _ ← caught (mark_worker WorkerState.available)
    pure tt

  unfoldable pub result_updater : List Signal → Action C.World (Unit {0})
  unfolding receive
  result_updater [] = pure tt
  result_updater (stop ∷ signals) = pure tt
  result_updater (message m ∷ signals) = do receive m; result_updater signals
