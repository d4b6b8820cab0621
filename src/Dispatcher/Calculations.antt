-- ===== src/Dispatcher/Calculations.antt =====
-- pkg/dispatcher/calculations/controller.go: follows the phase of a calculation and tells its bulk
-- or its factory.
pub mod Propagated
pub mod Settled
pub mod Progress
pub mod Completed
pub mod Delivered
pub mod Told
use ccb_operator.Base.{
  Bool, true, false, ◌==◌, if◌then◌else◌, String, ◌<>◌, Option, none, some, List, [], ◌∷◌, ◌++◌,
}
use ccb_operator.Base.Maps.{GoMap, index}
use ccb_operator.Go.{Action, pure, panics, wrapping, ◌>>=◌, ◌>>◌}
use ccb_operator.Api.{Kind}
use ccb_operator.Api.Meta.{Time, ObjectKey, meta_key}
use ccb_operator.Api.Calculations.{
  CalculationPhase, Calculation, is_created, is_processing, is_completed,
}
use ccb_operator.Api.Bulks.{CalculationBulk, BulkCalculation}
use ccb_operator.Api.Factories.{Condition, CalculationBulkFactory}
use ccb_operator.Cluster.{Cluster}
use ccb_operator.Cluster.Modify.{modify}
use ccb_operator.Events.{Event, create, update, delete, generic, Requests}
use ccb_operator.Util.Labels.{
  bulk_label, calculation_name_label, post_calculation_label, factory_label,
}
use ccb_operator.Util.Calculations.{is_finished_calculation, get_calculation_final_phase}
use ccb_operator.Dispatcher.Phases.{write_phase}

-- The methods of calculationHandler.
unfoldable pub handle : String → Event Calculation → Requests
handle namespace (create o) = if namespace == o.meta.namespace then meta_key o.meta ∷ [] else []
handle namespace (update _ o) = if namespace == o.meta.namespace then meta_key o.meta ∷ [] else []
handle namespace (delete _) = []
handle namespace (generic _) = []

abbrev pub settle : CalculationPhase → Time → Calculation → Calculation
settle phase now calc = record calc {
  phase = phase;
  status = record (calc.status) { completion_time = some now };
}

-- The condition that a calculation of a factory puts on it.
abbrev pub factory_condition : CalculationPhase → Time → Condition
factory_condition phase now =
    if is_completed phase
    then record {
      condition_type = "Available";
      status = "True";
      reason = "Completed";
      last_transition_time = now;
    }
    else record {
      condition_type = "Unavailable";
      status = "False";
      reason = "Failed";
      last_transition_time = now;
    }

abbrev pub tell : CalculationPhase → Time → CalculationBulkFactory → CalculationBulkFactory
tell phase now factory = record factory {
  status = record (factory.status) {
    completion_time = some now;
    conditions = factory.status.conditions ++ (factory_condition phase now ∷ []);
  };
}

module _ (C : Cluster) where
  unfoldable pub finish_processing : Calculation → Action C.World (Unit {0})
  finish_processing calc =
      if is_processing calc.phase
      then if is_finished_calculation calc.spec.steps
        then wrapping "failed to update the calculation phase" (
            modify C Kind.calculations (meta_key calc.meta) "failed to get the calculation"
              "failed to update calculation "
              λ calculation. do
                now ← C.now
                pure (settle (get_calculation_final_phase calc.spec.steps) now calculation))
        else pure tt
      else pure tt

  unfoldable pub update_factory : Calculation → String → Action C.World (Unit {0})
  update_factory calc factory_name = wrapping "failed to update the calculation bulk factory" (
      modify C Kind.factories (record { namespace = calc.meta.namespace; name = factory_name })
        "failed to get the calculation bulk factory" "failed to update calculation bulk factory "
        λ factory. do now ← C.now; pure (tell calc.phase now factory))

  unfoldable pub update_calculation_bulk :
      String → String → String → CalculationPhase → Action C.World (Unit {0})
  unfolding write_phase
  update_calculation_bulk namespace bulk_name calc_name phase =
      modify C Kind.bulks (record { namespace = namespace; name = bulk_name })
        "failed to get the calculation bulk" "failed to update calculation bulk "
        (write_phase C calc_name phase)

  -- A bulk without a post calculation is a nil dereference.
  unfoldable pub write_post_phase :
      CalculationPhase → CalculationBulk → Action C.World CalculationBulk
  write_post_phase phase bulk = elim bulk.post_calculation [
    | none ↦ panics "invalid memory address or nil pointer dereference"
    | some post ↦ pure (record bulk { post_calculation = some (record post { phase = phase }) })
  ]

  unfoldable pub update_post_calculation_bulk :
      String → String → CalculationPhase → Action C.World (Unit {0})
  unfolding write_post_phase
  update_post_calculation_bulk namespace bulk_name phase =
      modify C Kind.bulks (record { namespace = namespace; name = bulk_name })
        "failed to get the calculation bulk" "failed to update calculation bulk "
        (write_post_phase phase)

  unfoldable pub update_named :
      String → String → CalculationPhase → Option String → Action C.World (Unit {0})
  unfolding update_calculation_bulk
  update_named namespace bulk_name phase none = pure tt
  update_named namespace bulk_name phase (some calc_name) =
      update_calculation_bulk namespace bulk_name calc_name phase

  unfoldable pub update_labelled :
      String → Calculation → Option String → Option String → Action C.World (Unit {0})
  unfolding update_post_calculation_bulk update_named
  update_labelled namespace calc none post = pure tt
  update_labelled namespace calc (some bulk_name) (some _) =
      update_post_calculation_bulk namespace bulk_name calc.phase
  update_labelled namespace calc (some bulk_name) none =
      update_named namespace bulk_name calc.phase (index calc.meta.labels calculation_name_label)

  -- The part of `reconcile` below the update of the calculation itself.
  unfoldable pub propagate : String → Calculation → Option String → Action C.World (Unit {0})
  unfolding update_factory update_labelled
  propagate namespace calc (some factory_name) =
      if is_created calc.phase then pure tt else update_factory calc factory_name
  propagate namespace calc none =
      update_labelled namespace calc (index calc.meta.labels bulk_label)
        (index calc.meta.labels post_calculation_label)

  unfoldable pub reconcile : ObjectKey → Action C.World (Unit {0})
  unfolding finish_processing propagate
  reconcile req = do
    calc ←
        wrapping ("failed to get calculation: " <> req.name <> " in namespace " <> req.namespace)
          (C.get Kind.calculations req)
    finish_processing calc
    propagate req.namespace calc (index calc.meta.labels factory_label)
