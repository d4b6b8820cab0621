-- ===== src/Dispatcher/Calculations/Delivered.antt =====
-- Two reconciliations of a calculation in any phase, over a cluster whose calls succeed.
use ccb_operator.Base.{◌≡◌, refl, sym, ◌∙◌, ap, subst, inl, inr, String, some, false}
use ccb_operator.Base.Maps.{Entries, index, lookup}
use ccb_operator.Go.{ok}
use ccb_operator.Go.Rules.{Runs-map}
use ccb_operator.Go.Success.{Succeeds, ok_of_Succeeds}
use ccb_operator.Api.{Kind}
use ccb_operator.Api.Meta.{ObjectKey, meta_key}
use ccb_operator.Api.Calculations.{CalculationPhase, Calculation}
use ccb_operator.Api.Bulks.{CalculationBulk, BulkCalculation}
use ccb_operator.Cluster.{Cluster}
use ccb_operator.Cluster.View.{View, put}
use ccb_operator.Cluster.Laws.{Contract}
use ccb_operator.Cluster.Modify.{Same}
use ccb_operator.Cluster.Ready.{Ready}
use ccb_operator.Util.Calculations.{is_finished_calculation}
use ccb_operator.Dispatcher.Phases.{bulk_in_phase}
use ccb_operator.Dispatcher.Calculations.{reconcile}
use ccb_operator.Dispatcher.Calculations.Progress.{Advanced}
use ccb_operator.Dispatcher.Calculations.Completed.{
  NamedIn, InPhase, Finishing, Told, bulk_key, told, told-InPhase, bulk_there, reconcile-Told,
  again-Completes,
}

module _ (C : Cluster) (L : Contract C) (ready : Ready C L) (req : ObjectKey) (calc : Calculation)
    (bulk_name calc_name : String) (bulk : CalculationBulk) (m : Entries BulkCalculation) where
  abbrev pub home : ObjectKey
  home = bulk_key C L ready req calc bulk_name calc_name bulk m

  -- The calculation has advanced, and its bulk has its phase.
  abbrev pub Delivered : View → Type 0
  Delivered v =
      (calc' : Calculation) × (v Kind.calculations req ≡ some calc')
      × Advanced calc calc'
      × (b : CalculationBulk) × (v Kind.bulks home ≡ some b)
      × InPhase calc'.phase (index b.calculations calc_name)

  module _ (v : View) (key : meta_key calc.meta ≡ req) (own : meta_key bulk.meta ≡ home)
      (named : NamedIn bulk_name calc_name calc)
      (stored : v Kind.calculations req ≡ some calc) where
    abbrev first_told : CalculationBulk
    first_told = bulk_in_phase calc.phase calc_name bulk m

    abbrev entries_told : Entries BulkCalculation
    entries_told = told C L ready req calc bulk_name calc_name bulk m

    again-Delivered :
        (calc.phase ≡ CalculationPhase.processing → is_finished_calculation calc.spec.steps ≡ false)
        → Succeeds
            (Same C L (put v Kind.bulks first_told))
            (reconcile C req)
            (λ _ w. Delivered (L.view w))
    again-Delivered early =
        Runs-map (λ _ w (u, finishing, after). subst Delivered (sym after) (waits u finishing))
          (reconcile-Told C L ready req bulk_name calc_name calc named first_told entries_told refl
            own (put v Kind.bulks first_told) stored key (there v first_told own))
      where
        there :
            (u : View) (b : CalculationBulk)
            → meta_key b.meta ≡ home
            → put u Kind.bulks b Kind.bulks home ≡ some b
        there = bulk_there C L ready req calc bulk_name calc_name bulk m v key own named

        waits :
            (u : View)
            → Finishing C L ready req bulk_name calc_name calc (put v Kind.bulks first_told) u
            → Delivered
                (put u Kind.bulks (bulk_in_phase calc.phase calc_name first_told entries_told))
        waits u (inr (processing, finished, _, _)) = absurd (cc (early processing, finished))
        waits u (inl (_, e)) = (
          calc,
          ap (λ x. x Kind.calculations req) e ∙ stored,
          inr (early, refl),
          _,
          there u (bulk_in_phase calc.phase calc_name first_told entries_told) own,
          told-InPhase calc.phase calc_name (lookup calc_name entries_told) entries_told,
        )

    after_Told :
        (w : C.World)
        → Told C L ready req bulk_name calc_name calc bulk m v (L.view w)
        → let second = reconcile C req w in (second.0 ≡ ok tt) × Delivered (L.view second.1)
    after_Told w (u, inl (early, e), after) =
        let (_, ended, delivered) =
          ok_of_Succeeds (again-Delivered early) w
            (after ∙ ap (λ x. put x Kind.bulks first_told) e) in
        (ended, delivered)
    after_Told w (u, inr (processing, finished, now, e), after) =
        let (_, ended, ((later, found), b, there, phase)) =
          ok_of_Succeeds
            (again-Completes C L ready req calc bulk_name calc_name bulk m v key own named now) w
            (after ∙ ap (λ x. put x Kind.bulks first_told) e) in
        (ended, (_, found, inl (later, processing, finished, refl), b, there, phase))

    -- Both end without an error, and then the bulk has the phase that the calculation has.
    pub reconcile_twice-Delivered :
        v Kind.bulks home ≡ some bulk
        → bulk.calculations ≡ some m
        → (w : C.World) → L.view w ≡ v
        → let first = reconcile C req w in
          let second = reconcile C req first.1 in
          (first.0 ≡ ok tt) × (second.0 ≡ ok tt) × Delivered (L.view second.1)
    reconcile_twice-Delivered found mapped w same =
        let (_, ended, told_first) =
          ok_of_Succeeds
            (reconcile-Told C L ready req bulk_name calc_name calc named bulk m mapped own v stored
              key found)
            w same in
        let (ended_again, delivered) = after_Told (reconcile C req w).1 told_first in
        (ended, ended_again, delivered)
