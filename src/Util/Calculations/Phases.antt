-- ===== src/Util/Calculations/Phases.antt =====
-- What the tests on steps and phases of pkg/util/calculations.go decide.
use ccb_operator.Base.{◌≡◌, refl, ◌≢◌, ◌↔◌, true, List, [], ◌∷◌, All, arith}
use ccb_operator.Base.Maps.{GoMap, Entries, entries}
use ccb_operator.Api.Calculations.{CalculationPhase, Step}
use ccb_operator.Api.Bulks.{BulkCalculation}
use ccb_operator.Util.Calculations.{
  is_finished_calculation, get_calculation_final_phase, all_finished, is_all_finished_calculations,
}

abbrev pub HasStatus : Step → Type 0
HasStatus step = step.status ≢ CalculationPhase.no_phase

-- A step that was run and did not fail.
abbrev pub Succeeded : Step → Type 0
Succeeded step = HasStatus step × (step.status ≢ CalculationPhase.failed)

-- A calculation is finished, and its final phase is `completed`, exactly when every step has a
-- status and none has failed.
pub final_phase_completed_iff :
    (steps : List Step)
    → ((is_finished_calculation steps ≡ true)
        × (get_calculation_final_phase steps ≡ CalculationPhase.completed))
      ↔ All Succeeded steps
unfolding is_finished_calculation get_calculation_final_phase
final_phase_completed_iff [] = (λ _. tt, λ _. (refl, refl))
final_phase_completed_iff (step ∷ steps) = ground (arith, final_phase_completed_iff steps)

abbrev pub IsOver : CalculationPhase → Type 0
IsOver phase = (phase ≢ CalculationPhase.no_phase) × (phase ≢ CalculationPhase.processing)

all_finished_iff :
    (calcs : Entries BulkCalculation)
    → (all_finished calcs ≡ true) ↔ All (λ e. IsOver e.1.phase) calcs
unfolding all_finished
all_finished_iff [] = (λ _. tt, λ _. refl)
all_finished_iff (e ∷ calcs) = ground (arith, all_finished_iff calcs)

-- A bulk counts as finished exactly when no calculation of it is without a phase or processing.
pub is_all_finished_calculations_iff :
    (calcs : GoMap BulkCalculation)
    → (is_all_finished_calculations calcs ≡ true) ↔ All (λ e. IsOver e.1.phase) (entries calcs)
unfolding is_all_finished_calculations
is_all_finished_calculations_iff calcs = all_finished_iff (entries calcs)
