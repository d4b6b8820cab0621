-- ===== src/Dispatcher/Phases.antt =====
-- The change of one calculation's phase in a bulk, which two controllers write out:
-- `calc := bulk.Calculations[name]; calc.Phase = phase; bulk.Calculations[name] = calc`.
use ccb_operator.Base.{◌≡◌, refl, String, Option, none, some}
use ccb_operator.Base.Maps.{Entries, lookup, insert}
use ccb_operator.Go.{Action, pure, panics}
use ccb_operator.Api.Calculations.{CalculationPhase}
use ccb_operator.Api.Bulks.{CalculationBulk, BulkCalculation}
use ccb_operator.Cluster.{Cluster}
use ccb_operator.Cluster.View.{View}
use ccb_operator.Cluster.Laws.{Contract}
use ccb_operator.Cluster.Modify.{Same}
use ccb_operator.Go.Rules.{Runs-pure}
use ccb_operator.Go.Success.{Succeeds}
use ccb_operator.Util.Calculations.{or_zero}

-- A missing calculation reads as the zero value, and the assignment to a nil map panics.
abbrev pub with_phase : CalculationPhase → Option BulkCalculation → BulkCalculation
with_phase phase old = record (or_zero old) { phase = phase }

module _ (C : Cluster) where
  unfoldable pub write_phase :
      String → CalculationPhase → CalculationBulk → Action C.World CalculationBulk
  write_phase name phase bulk = elim bulk.calculations [
    | none ↦ panics "assignment to entry in nil map"
    | some calcs ↦ pure (record bulk {
      calculations = some (insert name (with_phase phase (lookup name calcs)) calcs);
    })
  ]

-- The bulk with the phase of one calculation of its map written.
abbrev pub bulk_in_phase :
    CalculationPhase → String → CalculationBulk → Entries BulkCalculation → CalculationBulk
bulk_in_phase phase name bulk m = record bulk {
  calculations = some (insert name (with_phase phase (lookup name m)) m);
}

pub write_phase-Succeeds :
    (C : Cluster) (L : Contract C) (v : View) (phase : CalculationPhase) (name : String)
    (bulk : CalculationBulk) (m : Entries BulkCalculation)
    → bulk.calculations ≡ some m
    → Succeeds
        (Same C L v)
        (write_phase C name phase bulk)
        (λ b w. (b ≡ bulk_in_phase phase name bulk m) × Same C L v w)
unfolding write_phase
write_phase-Succeeds C L v phase name bulk m has =
    rw (has, write_phase) (Runs-pure _ λ w same. (refl, same))
