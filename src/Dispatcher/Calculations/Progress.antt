-- ===== src/Dispatcher/Calculations/Progress.antt =====
-- What one reconciliation of a calculation achieves over a cluster whose calls succeed.
use ccb_operator.Base.{
  ◌≡◌, refl, ◌∙◌, ap, subst, ◌⊎◌, inl, inr, true, false, some, arith, Bool-cases,
}
use ccb_operator.Go.Rules.{Runs, Runs->>=, Runs-wrapping, Runs_given, Runs-pure, Runs-map}
use ccb_operator.Go.Success.{Succeeds, Runs_of_Succeeds}
use ccb_operator.Api.{Kind}
use ccb_operator.Api.Meta.{Time, ObjectKey, meta_key}
use ccb_operator.Api.Calculations.{CalculationPhase, Calculation, is_processing}
use ccb_operator.Cluster.{Cluster}
use ccb_operator.Cluster.View.{View, put, assign_in_self}
use ccb_operator.Cluster.Laws.{Contract}
use ccb_operator.Cluster.Modify.{Same}
use ccb_operator.Cluster.Ready.{Ready, get-Succeeds, now-Succeeds, modify-Succeeds}
use ccb_operator.Util.Calculations.{is_finished_calculation, get_calculation_final_phase}
use ccb_operator.Dispatcher.Calculations.{settle, finish_processing, reconcile}
use ccb_operator.Dispatcher.Calculations.Propagated.{propagate-Keeps}
use ccb_operator.Dispatcher.Calculations.Settled.{Finished}

-- It has finished, or it was not due for it and is as it was.
abbrev pub Advanced : Calculation → Calculation → Type 0
Advanced calc calc' =
    Finished calc calc'
    ⊎ ((calc.phase ≡ CalculationPhase.processing → is_finished_calculation calc.spec.steps ≡ false)
        × (calc' ≡ calc))

module _ (C : Cluster) (L : Contract C) (ready : Ready C L) (req : ObjectKey)
    (calc : Calculation) where
  -- What is stored for it.
  abbrev pub Stored : View → Type 0
  Stored v = (calc' : Calculation) × (v Kind.calculations req ≡ some calc') × Advanced calc calc'

  abbrev settled_at : Time → Calculation
  settled_at now = settle (get_calculation_final_phase calc.spec.steps) now calc

  pub finish_processing-Succeeds :
      (v : View) (Q : C.World → Type 0)
      → v Kind.calculations req ≡ some calc
      → meta_key calc.meta ≡ req
      → ((calc.phase ≡ CalculationPhase.processing
            → is_finished_calculation calc.spec.steps ≡ false)
          → (w : C.World) → L.view w ≡ v
          → Q w)
      → (calc.phase ≡ CalculationPhase.processing
          → is_finished_calculation calc.spec.steps ≡ true
          → (now : Time) (w : C.World) → L.view w ≡ put v Kind.calculations (settled_at now)
          → Q w)
      → Succeeds (Same C L v) (finish_processing C calc) (λ _. Q)
  unfolding finish_processing
  finish_processing-Succeeds v Q stored key waits finishes =
      elim (Bool-cases (is_processing calc.phase)) [
        | inr e ↦ rw e (Runs-pure _ (waits (λ p. absurd (cc (e, ap is_processing p)))))
        | inl e ↦ rw e (elim (Bool-cases (is_finished_calculation calc.spec.steps)) [
          | inr f ↦ rw f (Runs-pure _ (waits (λ p. f)))
          | inl f ↦ rw f (
              Runs-wrapping _ (
                Runs-map
                  (λ _ w (calc', (now, made), after).
                    finishes (processing_of calc.phase e) f now w
                      (after ∙ ap (put v Kind.calculations) made))
                  (modify-Succeeds C L ready v Kind.calculations (meta_key calc.meta) _ _ _ calc
                    (λ o. (now : Time) × (o ≡ settled_at now))
                    (ap (v Kind.calculations) key ∙ stored)
                    (λ o (now, made). ap (λ c. meta_key c.meta) made)
                    (Runs->>= _ _ (now-Succeeds C L ready v)
                      λ now. Runs-pure _ λ w same. ((now, refl), same)))))
        ])
      ]
    where
      processing_of :
          (p : CalculationPhase) → is_processing p ≡ true → p ≡ CalculationPhase.processing
      processing_of p e = ground arith

  finish_processing-Stored :
      (v : View)
      → v Kind.calculations req ≡ some calc
      → meta_key calc.meta ≡ req
      → Succeeds (Same C L v) (finish_processing C calc) (λ _ w. Stored (L.view w))
  finish_processing-Stored v stored key =
      finish_processing-Succeeds v (λ w. Stored (L.view w)) stored key
        (λ early w same. (calc, ap (λ u. u Kind.calculations req) same ∙ stored, inr (early, refl)))
        (λ phase finished now w after. (
          settled_at now,
          ap (λ u. u Kind.calculations req) after
              ∙ subst
                  (λ j.
                    put v Kind.calculations (settled_at now) Kind.calculations j
                    ≡ some (settled_at now))
                  key
                  (assign_in_self v Kind.calculations (meta_key calc.meta) (some (settled_at now))),
          inl (now, phase, finished, refl),
        ))

  pub reconcile-Stored :
      Runs
        (λ w. L.view w Kind.calculations req ≡ some calc)
        (reconcile C req)
        (λ _ w. Stored (L.view w))
        (λ w. Stored (L.view w))
  unfolding reconcile
  reconcile-Stored = record { run = λ w stored. (reconciled w stored).run w refl }
    where
      reconciled :
          (u : C.World)
          → L.view u Kind.calculations req ≡ some calc
          → Runs
              (Same C L (L.view u))
              (reconcile C req)
              (λ _ w. Stored (L.view w))
              (λ w. Stored (L.view w))
      reconciled u stored =
          Runs->>= _ _
            (Runs-wrapping _ (
              Runs_of_Succeeds
                (get-Succeeds C L ready (L.view u) Kind.calculations req calc stored)))
            λ x.
              Runs_given (x ≡ calc) (λ w p. p)
                λ same. rw same (
                  Runs->>= _ _
                    (Runs_of_Succeeds (
                      finish_processing-Stored (L.view u) stored
                        (L.view-key u Kind.calculations req calc stored)))
                    λ _. propagate-Keeps C L req.namespace Stored (λ o v s. s) (λ o v s. s) calc _)
