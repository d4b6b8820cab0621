-- ===== src/Examples/DispatcherTests.antt =====
-- The theorems on the helpers, the dispatcher and the janitor at concrete inputs.
use ccb_operator.Base.{
  List, zip, String, Listed, String-discrete, ◌+◌, ◌<◌, ◌≡◌, refl, ◌↔◌, true, inr, none, some,
  arith, [], ◌∷◌, All, Distinct,
}
use ccb_operator.Base.Maps.{entries, lookup}
use ccb_operator.Base.Sort.{IsSorted, text_le}
use ccb_operator.Go.{ok}
use ccb_operator.Go.Rules.{Runs}
use ccb_operator.Api.{Kind}
use ccb_operator.Api.Calculations.{CalculationPhase}
use ccb_operator.Cluster.Modify.{Modified, Same}
use ccb_operator.Util.Calculations.{
  Item, get_sorted_created_calculations, is_finished_calculation, get_calculation_final_phase,
  is_all_finished_calculations,
}
use ccb_operator.Util.Calculations.Sorted.{
  names, IsWaiting, IsEntry, get_sorted_created_calculations_lem,
}
use ccb_operator.Util.Calculations.Phases.{
  Succeeded, IsOver, final_phase_completed_iff, is_all_finished_calculations_iff,
}
use ccb_operator.Util.Workers.{values, get_first_available_worker}
use ccb_operator.Util.Workers.First.{StandsFor, get_first_available_worker_lem}
use ccb_operator.Examples.Data.{workers}
use ccb_operator.Examples.Slices.{slices, slices-Sorts}
use ccb_operator.Dispatcher.Bulks
use ccb_operator.Dispatcher.Bulks.{
  assign_calculations_to_workers, available_workers, judge, mark_cached,
}
use ccb_operator.Dispatcher.Bulks.Assigned.{
  AreWaiting, AreAvailable, AreMadeOf, assign_calculations_to_workers_lem,
}
use ccb_operator.Dispatcher.Bulks.Reconciled.{OnlyAdds, reconcile-OnlyAdds}
use ccb_operator.Dispatcher.Bulks.Verdicts.{IsOlder, judge_cached_iff}
use ccb_operator.Dispatcher.Calculations
use ccb_operator.Dispatcher.Calculations.{update_factory, update_calculation_bulk}
use ccb_operator.Dispatcher.Calculations.Settled.{Ended, Settles, reconcile-Settles}
use ccb_operator.Dispatcher.Calculations.Told.{PhaseWritten, update_calculation_bulk-PhaseWritten}
use ccb_operator.Dispatcher.Workers
use ccb_operator.Dispatcher.Workers.Freed.{OnlyFrees, reconcile-OnlyFrees}
use ccb_operator.Dispatcher.Factory
use ccb_operator.Dispatcher.Factory.Made.{Made, reconcile-Made}
use ccb_operator.Janitor.{pos, is_due, max_duration, clean}
use ccb_operator.Janitor.Cleaned.{clean-Gone}
use ccb_operator.Examples.Serving.{memory-Serves}
use ccb_operator.Janitor.Removals.{OnlyRemoves, IsCollected, is_due_iff, clean-OnlyRemoves}
use ccb_operator.Examples.Memory.{Memory, find, memory}
use ccb_operator.Examples.Contract.{memory-Contract}
use ccb_operator.Examples.Data.{
  formats, a_bulk, a_pool, bulk_calculations, cluster, service, outside, at, old_calculation,
  done_step,
}

assign_calculations_to_workers_lem_example :
    Runs
      (λ (w : Memory). w.objects ≡ cluster.objects)
      (assign_calculations_to_workers formats memory.now a_bulk a_pool "vega")
      (λ calcs w.
        ((items : List Item) × (nodes : List String) × AreWaiting
            (entries a_bulk.calculations)
            items
          × AreAvailable (entries a_pool.workers) nodes
          × AreMadeOf a_bulk a_pool "vega" (zip items nodes) calcs)
        × (w.objects ≡ cluster.objects))
      (λ _. ⊥)
unfolding lookup String-discrete
assign_calculations_to_workers_lem_example =
    assign_calculations_to_workers_lem a_bulk a_pool "vega" formats memory.now
      (record { run = λ w h. h }) (refl, (refl, (refl, tt))) (refl, (refl, tt))

reconcile-OnlyAdds_example :
    OnlyAdds
      (memory-Contract.view cluster)
      (memory-Contract.view (Bulks.reconcile formats memory service (at "bulk") cluster).1)
reconcile-OnlyAdds_example =
    reconcile-OnlyAdds formats memory service memory-Contract (λ q w. refl) (at "bulk") cluster

reconcile-Settles_example :
    Settles Ended
      (at "calc")
      (memory-Contract.view cluster)
      (memory-Contract.view (Calculations.reconcile memory (at "calc") cluster).1)
reconcile-Settles_example = reconcile-Settles memory memory-Contract (at "calc") cluster

reconcile-OnlyFrees_example :
    OnlyFrees "pod-1"
      (memory-Contract.view cluster)
      (memory-Contract.view (Workers.reconcile memory (at "pod-1") cluster).1)
reconcile-OnlyFrees_example = reconcile-OnlyFrees memory memory-Contract (at "pod-1") cluster

reconcile-Made_example :
    Made
      (at "factory")
      (memory-Contract.view cluster)
      (memory-Contract.view (Factory.reconcile memory outside "/nfs" (at "factory") cluster).1)
reconcile-Made_example =
    reconcile-Made memory memory-Contract outside "/nfs" (λ path w. refl) (λ calc w. refl)
      (at "factory") cluster

clean-OnlyRemoves_example :
    OnlyRemoves
      (memory-Contract.view cluster)
      (memory-Contract.view (clean memory (pos 10) cluster).1)
clean-OnlyRemoves_example = clean-OnlyRemoves memory memory-Contract (pos 10) cluster

-- The old calculation that the cluster holds is gone after one cleaning.
clean-Gone_example :
    ((clean memory (pos 10) cluster).0 ≡ ok tt)
    × (memory-Contract.view (clean memory (pos 10) cluster).1 Kind.calculations (at "old") ≡ none)
unfolding memory-Contract memory-Serves find String-discrete lookup
clean-Gone_example =
    clean-Gone memory memory-Contract memory-Serves 10 old_calculation cluster refl refl
      (omega arith) (omega arith) refl

is_due_iff_example : (is_due (pos 10) 1000 old_calculation ≡ true) ↔ (
    (old_calculation.status.start_time + 10 < 1000)
    × (10 < max_duration)
    × IsCollected old_calculation)
is_due_iff_example = is_due_iff 10 1000 old_calculation

update_calculation_bulk-PhaseWritten_example :
    Runs
      (Same memory memory-Contract (memory-Contract.view cluster))
      (update_calculation_bulk memory "vega" "bulk" "a" CalculationPhase.completed)
      (λ _ w.
        Modified memory memory-Contract Kind.bulks
          (PhaseWritten "a" CalculationPhase.completed)
          (at "bulk")
          (memory-Contract.view cluster)
          (memory-Contract.view w))
      (Same memory memory-Contract (memory-Contract.view cluster))
update_calculation_bulk-PhaseWritten_example =
    update_calculation_bulk-PhaseWritten memory memory-Contract (memory-Contract.view cluster)
      "vega" "bulk" "a" CalculationPhase.completed

get_sorted_created_calculations_lem_example :
    IsSorted text_le (names (get_sorted_created_calculations (some bulk_calculations)))
    × Distinct (names (get_sorted_created_calculations (some bulk_calculations)))
    × All (IsEntry bulk_calculations) (get_sorted_created_calculations (some bulk_calculations))
    × ((k : String)
        → IsWaiting bulk_calculations k
        → Listed k (names (get_sorted_created_calculations (some bulk_calculations))))
unfolding lookup String-discrete
get_sorted_created_calculations_lem_example =
    get_sorted_created_calculations_lem (some bulk_calculations) (refl, (refl, (refl, tt)))

get_first_available_worker_lem_example :
    StandsFor (values workers) (get_first_available_worker slices (some workers))
get_first_available_worker_lem_example =
    get_first_available_worker_lem slices slices-Sorts (some workers)

judge_cached_iff_example :
    (judge formats (λ e. true) "a" 9 (inr (some (record { results = "x"; created_at = "then" })))
      ≡ mark_cached)
    ↔ IsOlder formats 9 (inr (some (record { results = "x"; created_at = "then" })))
judge_cached_iff_example =
    judge_cached_iff formats (λ e. true) "a" 9
      (inr (some (record { results = "x"; created_at = "then" })))

final_phase_completed_iff_example :
    ((is_finished_calculation (done_step ∷ []) ≡ true)
      × (get_calculation_final_phase (done_step ∷ []) ≡ CalculationPhase.completed))
    ↔ All Succeeded (done_step ∷ [])
final_phase_completed_iff_example = final_phase_completed_iff (done_step ∷ [])

is_all_finished_calculations_iff_example :
    (is_all_finished_calculations a_bulk.calculations ≡ true)
    ↔ All (λ e. IsOver e.1.phase) (entries a_bulk.calculations)
is_all_finished_calculations_iff_example = is_all_finished_calculations_iff a_bulk.calculations
