-- ===== src/Dispatcher/Calculations/Told.antt =====
-- What a calculation tells its bulk.
use ccb_operator.Base.{◌≡◌, refl, ◌≢◌, String, none, some, arith}
use ccb_operator.Base.Maps.{GoMap, Entries, index, lookup, lookup-insert}
use ccb_operator.Go.Rules.{Runs, Runs-pure, Runs-panics}
use ccb_operator.Api.{Kind}
use ccb_operator.Api.Calculations.{CalculationPhase}
use ccb_operator.Api.Bulks.{CalculationBulk, BulkCalculation}
use ccb_operator.Cluster.{Cluster}
use ccb_operator.Cluster.View.{View}
use ccb_operator.Cluster.Laws.{Contract}
use ccb_operator.Cluster.Modify.{Modified, Runs-modify, Same}
use ccb_operator.Util.Calculations.{or_zero}
use ccb_operator.Dispatcher.Phases.{write_phase, with_phase}
use ccb_operator.Dispatcher.Calculations.{update_calculation_bulk}

-- The calculation has the phase in the bulk's map, which was not nil, and is otherwise as before,
-- or the zero value if it was missing. All else of the bulk is as before.
abbrev pub PhaseWritten : String → CalculationPhase → CalculationBulk → CalculationBulk → Type 0
PhaseWritten name phase bulk bulk' =
    (calcs : Entries BulkCalculation) × (bulk.calculations ≡ some calcs)
    × (index bulk'.calculations name
        ≡ some (record (or_zero (lookup name calcs)) { phase = phase }))
    × ((other : String) → other ≢ name → index bulk'.calculations other ≡ lookup other calcs)
    × (bulk' ≡ record bulk { calculations = bulk'.calculations })

module _ (C : Cluster) (L : Contract C) (v : View) where
  write_phase-PhaseWritten :
      (name : String) (phase : CalculationPhase) (u : View) (bulk : CalculationBulk)
      (calcs : GoMap BulkCalculation)
      → bulk.calculations ≡ calcs
      → Runs
          (Same C L u)
          (write_phase C name phase bulk)
          (λ bulk' w. PhaseWritten name phase bulk bulk' × Same C L u w)
          (Same C L u)
  unfolding write_phase
  write_phase-PhaseWritten name phase u bulk none e = rw (e, write_phase) (Runs-panics _)
  write_phase-PhaseWritten name phase u bulk (some calcs) e =
      let written = with_phase phase (lookup name calcs) in
      rw (e, write_phase)
        (Runs-pure _ λ w same. (
          (
            calcs,
            refl,
            rw (lookup-insert name name written calcs) (ground arith),
            λ other differs. rw (lookup-insert other name written calcs) (ground arith),
            refl,
          ),
          same,
        ))

  -- Telling a bulk either leaves the cluster alone, or changes that bulk alone: the calculation's
  -- phase in its map, and nothing else of it.
  pub update_calculation_bulk-PhaseWritten :
      (namespace bulk_name calc_name : String) (phase : CalculationPhase)
      → Runs
          (Same C L v)
          (update_calculation_bulk C namespace bulk_name calc_name phase)
          (λ _ w.
            Modified C L Kind.bulks
              (PhaseWritten calc_name phase)
              (record { namespace = namespace; name = bulk_name })
              v
              (L.view w))
          (Same C L v)
  unfolding update_calculation_bulk
  update_calculation_bulk-PhaseWritten namespace bulk_name calc_name phase =
      Runs-modify C L Kind.bulks _ _ _ _ _
        (λ u bulk. write_phase-PhaseWritten calc_name phase u bulk bulk.calculations refl) v
