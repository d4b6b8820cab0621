-- ===== src/Dispatcher/Calculations/Completed.antt =====
-- How a finished calculation reaches its bulk over a cluster whose calls succeed. A reconciliation
-- tells the bulk the phase that it has read, so the final phase is told by the next one.
use ccb_operator.Base.{
  ◌≡◌, refl, sym, ◌∙◌, ap, subst, ◌⊎◌, ◌==◌, inl, inr, String, Option, none, some, arith, true,
  false,
}
use ccb_operator.Base.Maps.{Entries, index, lookup, insert, lookup-insert}
use ccb_operator.Go.Rules.{Runs->>=, Runs-wrapping, Runs_given, Runs-map}
use ccb_operator.Go.Success.{Succeeds}
use ccb_operator.Api.{Kind}
use ccb_operator.Api.Meta.{Time, ObjectKey, meta_key}
use ccb_operator.Api.Calculations.{CalculationPhase, Calculation}
use ccb_operator.Api.Bulks.{CalculationBulk, BulkCalculation}
use ccb_operator.Cluster.{Cluster}
use ccb_operator.Cluster.View.{View, put, assign_in_self}
use ccb_operator.Cluster.Laws.{Contract}
use ccb_operator.Cluster.Modify.{Same}
use ccb_operator.Cluster.Ready.{Ready, Runs_at_view, get-Succeeds, modify-Succeeds}
use ccb_operator.Util.Labels.{
  bulk_label, calculation_name_label, post_calculation_label, factory_label,
}
use ccb_operator.Util.Calculations.{is_finished_calculation, get_calculation_final_phase}
use ccb_operator.Dispatcher.Phases.{with_phase, bulk_in_phase, write_phase-Succeeds}
use ccb_operator.Dispatcher.Calculations.{
  settle, update_calculation_bulk, update_named, update_labelled, propagate, reconcile,
}
use ccb_operator.Dispatcher.Calculations.Progress.{finish_processing-Succeeds}

-- The labels of a calculation of a bulk that is no post calculation and of no factory.
pub record NamedIn (bulk_name calc_name : String) (calc : Calculation) : Type 0 where
  pub in_bulk : index calc.meta.labels bulk_label ≡ some bulk_name
  pub by_name : index calc.meta.labels calculation_name_label ≡ some calc_name
  pub of_no_factory : index calc.meta.labels factory_label ≡ none
  pub no_post : index calc.meta.labels post_calculation_label ≡ none

module _ (C : Cluster) (L : Contract C) (ready : Ready C L) (req : ObjectKey)
    (bulk_name calc_name : String) where
  abbrev pub home : ObjectKey
  home = record { namespace = req.namespace; name = bulk_name }

  -- The view after the update of the calculation itself.
  abbrev pub Finishing : Calculation → View → View → Type 0
  Finishing calc v u =
      ((calc.phase ≡ CalculationPhase.processing → is_finished_calculation calc.spec.steps ≡ false)
        × (u ≡ v))
      ⊎ ((calc.phase ≡ CalculationPhase.processing)
          × (is_finished_calculation calc.spec.steps ≡ true)
          × (now : Time) × (u
              ≡ put v Kind.calculations
                  (settle (get_calculation_final_phase calc.spec.steps) now calc)))

  abbrev pub Told : Calculation → CalculationBulk → Entries BulkCalculation → View → View → Type 0
  Told calc bulk m v u' =
      (u : View) × Finishing calc v u
      × (u' ≡ put u Kind.bulks (bulk_in_phase calc.phase calc_name bulk m))

  module _ (calc : Calculation) (named : NamedIn bulk_name calc_name calc) (bulk : CalculationBulk)
      (m : Entries BulkCalculation) (mapped : bulk.calculations ≡ some m)
      (own : meta_key bulk.meta ≡ home) where
    propagate-Tells :
        (u : View)
        → u Kind.bulks home ≡ some bulk
        → Succeeds
            (Same C L u)
            (propagate C req.namespace calc (index calc.meta.labels factory_label))
            (λ _ w. L.view w ≡ put u Kind.bulks (bulk_in_phase calc.phase calc_name bulk m))
    unfolding propagate update_labelled update_named update_calculation_bulk
    propagate-Tells u found =
        rw (named.of_no_factory, named.in_bulk, named.no_post, named.by_name)
          (Runs-map (λ _ w (b, made, after). after ∙ ap (put u Kind.bulks) made)
            (modify-Succeeds C L ready u Kind.bulks home _ _ _ bulk
              (λ b. b ≡ bulk_in_phase calc.phase calc_name bulk m) found
              (λ b e. ap (λ x. meta_key x.meta) e ∙ own)
              (write_phase-Succeeds C L u calc.phase calc_name bulk m mapped)))

    pub reconcile-Told :
        (v : View)
        → v Kind.calculations req ≡ some calc
        → meta_key calc.meta ≡ req
        → v Kind.bulks home ≡ some bulk
        → Succeeds (Same C L v) (reconcile C req) (λ _ w. Told calc bulk m v (L.view w))
    unfolding reconcile
    reconcile-Told v stored key found =
        Runs->>= _ _ (Runs-wrapping _ (get-Succeeds C L ready v Kind.calculations req calc stored))
          λ x.
            Runs_given (x ≡ calc) (λ w p. p)
              λ same. rw same (
                Runs->>= _ _
                  (finish_processing-Succeeds C L ready req calc v
                    (λ w. Finishing calc v (L.view w)) stored key (λ early w e. inl (early, e))
                    (λ phase finished now w e. inr (phase, finished, now, e)))
                  λ _.
                    Runs_at_view C L (Finishing calc v)
                      λ u h. Runs-map (λ _ w after. (u, h, after)) (propagate-Tells u (still u h)))
      where
        still : (u : View) → Finishing calc v u → u Kind.bulks home ≡ some bulk
        still u (inl (_, e)) = ap (λ x. x Kind.bulks home) e ∙ found
        still u (inr (_, _, now, e)) = ap (λ x. x Kind.bulks home) e ∙ found

-- The entry of a calculation in its bulk, when the phase was told.
abbrev pub InPhase : CalculationPhase → Option BulkCalculation → Type 0
InPhase phase none = ⊥
InPhase phase (some calc) = calc.phase ≡ phase

pub told-InPhase :
    (phase : CalculationPhase) (name : String) (old : Option BulkCalculation)
    (m : Entries BulkCalculation)
    → InPhase phase (lookup name (insert name (with_phase phase old) m))
told-InPhase phase name old m =
    let t : (name == name) ≡ true = ground arith in
    rw (lookup-insert name name (with_phase phase old) m, t) refl

module _ (C : Cluster) (L : Contract C) (ready : Ready C L) (req : ObjectKey) (calc : Calculation)
    (bulk_name calc_name : String) (bulk : CalculationBulk) (m : Entries BulkCalculation) where
  abbrev pub bulk_key : ObjectKey
  bulk_key = home C L ready req bulk_name calc_name

  abbrev pub final : CalculationPhase
  final = get_calculation_final_phase calc.spec.steps

  -- The calculation has its final phase, and its bulk has been told.
  abbrev pub Completes : View → Type 0
  Completes v =
      ((now : Time) × (v Kind.calculations req ≡ some (settle final now calc)))
      × (b : CalculationBulk) × (v Kind.bulks bulk_key ≡ some b)
      × InPhase final (index b.calculations calc_name)

  -- The view after the first reconciliation.
  abbrev pub once : View → Time → View
  once v now =
      put (put v Kind.calculations (settle final now calc)) Kind.bulks
        (bulk_in_phase calc.phase calc_name bulk m)

  abbrev pub told : Entries BulkCalculation
  told = insert calc_name (with_phase calc.phase (lookup calc_name m)) m

  abbrev told_again : CalculationBulk
  told_again = bulk_in_phase final calc_name (bulk_in_phase calc.phase calc_name bulk m) told

  module _ (v : View) (key : meta_key calc.meta ≡ req) (own : meta_key bulk.meta ≡ bulk_key)
      (named : NamedIn bulk_name calc_name calc) where
    calculation_there :
        (u : View) (now : Time)
        → put u Kind.calculations (settle final now calc) Kind.calculations req
          ≡ some (settle final now calc)
    calculation_there u now =
        subst
          (λ j.
            put u Kind.calculations (settle final now calc) Kind.calculations j
            ≡ some (settle final now calc))
          key
          (assign_in_self u Kind.calculations (meta_key calc.meta) (some (settle final now calc)))

    pub bulk_there :
        (u : View) (b : CalculationBulk)
        → meta_key b.meta ≡ bulk_key
        → put u Kind.bulks b Kind.bulks bulk_key ≡ some b
    bulk_there u b same =
        subst (λ j. put u Kind.bulks b Kind.bulks j ≡ some b) same
          (assign_in_self u Kind.bulks (meta_key b.meta) (some b))

    pub again-Completes :
        (now : Time)
        → Succeeds (Same C L (once v now)) (reconcile C req) (λ _ w. Completes (L.view w))
    again-Completes now =
        Runs-map (λ _ w (u, finishing, after). subst Completes (sym after) (settled u finishing))
          (reconcile-Told C L ready req bulk_name calc_name (settle final now calc)
            (record {
              in_bulk = named.in_bulk;
              by_name = named.by_name;
              of_no_factory = named.of_no_factory;
              no_post = named.no_post;
            })
            (bulk_in_phase calc.phase calc_name bulk m) _ refl own (once v now)
            (calculation_there v now) key
            (bulk_there (put v Kind.calculations (settle final now calc)) _ own))
      where
        settled :
            (u : View)
            → Finishing C L ready req bulk_name calc_name (settle final now calc) (once v now) u
            → Completes (put u Kind.bulks told_again)
        settled u (inl (_, e)) = (
          (now, ap (λ x. x Kind.calculations req) e ∙ calculation_there v now),
          told_again,
          bulk_there u told_again own,
          told-InPhase final calc_name (lookup calc_name told) told,
        )
        settled u (inr (_, _, later, e)) = (
          (later, ap (λ x. x Kind.calculations req) e ∙ calculation_there (once v now) later),
          told_again,
          bulk_there u told_again own,
          told-InPhase final calc_name (lookup calc_name told) told,
        )
