-- ===== src/Dispatcher/Calculations/Settled.antt =====
-- What one reconciliation of a calculation does to the cluster.
use ccb_operator.Base.{
  ◌≡◌, refl, sym, ◌∙◌, ap, subst, ◌⊎◌, inl, inr, true, String, Option, some, arith, Bool-cases,
  List, [], ◌∷◌, All, Listed,
}
use ccb_operator.Go.Rules.{Runs, Runs->>=, Runs-wrapping, Runs_given, Runs-pure, Runs-weaken, ended}
use ccb_operator.Api.{Kind, Obj}
use ccb_operator.Api.Meta.{Time, ObjectKey, meta_key}
use ccb_operator.Api.Calculations.{CalculationPhase, Calculation, Step, is_processing, is_failed}
use ccb_operator.Api.Bulks.{CalculationBulk}
use ccb_operator.Cluster.{Cluster}
use ccb_operator.Cluster.View.{View, put}
use ccb_operator.Cluster.Laws.{Contract}
use ccb_operator.Cluster.Modify.{Modified, Runs-modify, Runs-get, Runs-now, Same}
use ccb_operator.Cluster.Keeps.{Keeps}
use ccb_operator.Util.Calculations.{
  is_finished_calculation, get_calculation_final_phase, has_failed_step,
}
use ccb_operator.Util.Calculations.Phases.{HasStatus, Succeeded, final_phase_completed_iff}
use ccb_operator.Dispatcher.Calculations.Propagated.{propagate-Keeps}
use ccb_operator.Dispatcher.Calculations.{settle, finish_processing, propagate, reconcile}

-- A calculation that was processing and whose steps all have a status got its final phase and a
-- completion time.
abbrev pub Finished : Calculation → Calculation → Type 0
Finished calc calc' =
    (now : Time) × (calc.phase ≡ CalculationPhase.processing)
    × (is_finished_calculation calc.spec.steps ≡ true)
    × (calc' ≡ settle (get_calculation_final_phase calc.spec.steps) now calc)

-- The phase that steps with a status lead to.
abbrev pub IsFinal : List Step → CalculationPhase → Type 0
IsFinal steps phase =
    ((phase ≡ CalculationPhase.completed) × All Succeeded steps)
    ⊎ ((phase ≡ CalculationPhase.failed)
        × All HasStatus steps
        × (step : Step) × Listed step steps
        × (step.status ≡ CalculationPhase.failed))

-- A calculation that was processing got the phase that its steps lead to and a completion time.
abbrev pub Ended : Calculation → Calculation → Type 0
Ended calc calc' =
    (now : Time) × (calc.phase ≡ CalculationPhase.processing)
    × IsFinal calc.spec.steps calc'.phase
    × (calc' ≡ record calc {
      phase = calc'.phase;
      status = record (calc.status) { completion_time = some now };
    })

-- The calculations are as before, or the one at `key` is so related to what it was; pools and pods
-- are as before.
pub record Settles (R : Calculation → Calculation → Type 0) (key : ObjectKey) (before after : View)
    : Type 0 where
  pub pools : after Kind.pools ≡ before Kind.pools
  pub pods : after Kind.pods ≡ before Kind.pods
  pub calculations :
      (after Kind.calculations ≡ before Kind.calculations)
      ⊎ ((calc : Calculation) × (calc' : Calculation) × (before Kind.calculations key ≡ some calc)
          × R calc calc'
          × (after Kind.calculations ≡ put before Kind.calculations calc' Kind.calculations))

put_bulk-Settles :
    (key : ObjectKey) (v u : View) (o : CalculationBulk)
    → Settles Finished key v u
    → Settles Finished key v (put u Kind.bulks o)
put_bulk-Settles key v u o h = record {
  pools = h.pools;
  pods = h.pods;
  calculations = h.calculations;
}

put_factory-Settles :
    (key : ObjectKey) (v u : View) (o : Obj Kind.factories)
    → Settles Finished key v u
    → Settles Finished key v (put u Kind.factories o)
put_factory-Settles key v u o h = record {
  pools = h.pools;
  pods = h.pods;
  calculations = h.calculations;
}

module _ (C : Cluster) (L : Contract C) (req : ObjectKey) (v : View) where
  abbrev P : View → Type 0
  P = Settles Finished req v

  propagate-P :
      (calc : Calculation) (factory : Option String)
      → Keeps C L P (propagate C req.namespace calc factory)
  propagate-P =
      propagate-Keeps C L req.namespace P (λ o u. put_bulk-Settles req v u o)
        (λ o u. put_factory-Settles req v u o)

  unchanged : Settles Finished req v v
  unchanged = record { pools = refl; pods = refl; calculations = inl refl }

  -- The calculation that was read: it is stored under the key of the request, which is its own.
  abbrev Read : Calculation → Type 0
  Read calc = (v Kind.calculations req ≡ some calc) × (meta_key calc.meta ≡ req)

  Modified-Settles :
      (calc : Calculation)
      → Read calc
      → calc.phase ≡ CalculationPhase.processing
      → is_finished_calculation calc.spec.steps ≡ true
      → (u : View)
      → Modified C L Kind.calculations
          (λ o o'. (now : Time) × (o' ≡ settle (get_calculation_final_phase calc.spec.steps) now o))
          (meta_key calc.meta)
          v
          u
      → Settles Finished req v u
  Modified-Settles calc (stored, key) phase finished u (o, o', found, (now, made), after) =
      let same : o ≡ calc = cc (stored, found, ap (v Kind.calculations) key) in
      record {
        pools = ap (λ x. x Kind.pools) after;
        pods = ap (λ x. x Kind.pods) after;
        calculations = inr (
          calc,
          o',
          stored,
          (
            now,
            phase,
            finished,
            made ∙ ap (settle (get_calculation_final_phase calc.spec.steps) now) same,
          ),
          ap (λ x. x Kind.calculations) after,
        );
      }

  kept-Same : (w : C.World) → Same C L v w → P (L.view w)
  kept-Same w same = subst P (sym same) unchanged

  finish_processing-Settles :
      (calc : Calculation)
      → Read calc
      → Runs (Same C L v) (finish_processing C calc) (λ _ w. P (L.view w)) (λ w. P (L.view w))
  unfolding finish_processing
  finish_processing-Settles calc found = elim (Bool-cases (is_processing calc.phase)) [
    | inr e ↦ rw e (Runs-pure _ kept-Same)
    | inl e ↦ rw e (elim (Bool-cases (is_finished_calculation calc.spec.steps)) [
      | inr f ↦ rw f (Runs-pure _ kept-Same)
      | inl f ↦ rw f (
          Runs-wrapping _ (
            Runs-weaken (λ _ w. Modified-Settles calc found (processing_of _ e) f (L.view w))
              kept-Same
              (Runs-modify C L Kind.calculations _ _ _ _ _
                (λ u o.
                  Runs->>= _ _ (Runs-now C L u) λ now. Runs-pure _ (λ w same. ((now, refl), same)))
                v)))
    ])
  ]
    where
      processing_of :
          (p : CalculationPhase) → is_processing p ≡ true → p ≡ CalculationPhase.processing
      processing_of p e = ground arith

  reconcile-Settles_from : (w : C.World) → L.view w ≡ v → P (L.view (reconcile C req w).1)
  unfolding reconcile
  reconcile-Settles_from w same = ended reconciled w same
    where
      read :
          Runs
            (Same C L v)
            (C.get Kind.calculations req)
            (λ calc u. Read calc × Same C L v u)
            (λ u. P (L.view u))
      read =
          Runs-weaken
            (λ calc u (found, same). (
              (
                found,
                L.view-key u Kind.calculations req calc
                    (subst (λ x. x Kind.calculations req ≡ some calc) (sym same) found),
              ),
              same,
            ))
            kept-Same (Runs-get C L v Kind.calculations req)

      reconciled : Runs (Same C L v) (reconcile C req) (λ _ u. P (L.view u)) (λ u. P (L.view u))
      reconciled = Runs->>= _ _ (Runs-wrapping _ read) λ calc.
          Runs_given (Read calc) (λ u p. p)
            λ found. Runs->>= _ _ (finish_processing-Settles calc found) λ _. propagate-P calc _

pub reconcile-Finished :
    (C : Cluster) (L : Contract C) (req : ObjectKey) (w : C.World)
    → Settles Finished req (L.view w) (L.view (reconcile C req w).1)
reconcile-Finished C L req w = reconcile-Settles_from C L req (L.view w) w refl

finished-HasStatus :
    (steps : List Step) → is_finished_calculation steps ≡ true → All HasStatus steps
unfolding is_finished_calculation
finished-HasStatus [] e = tt
finished-HasStatus (step ∷ steps) e = (ground arith, finished-HasStatus steps (ground arith))

failed_step :
    (steps : List Step)
    → has_failed_step steps ≡ true
    → (step : Step) × Listed step steps × (step.status ≡ CalculationPhase.failed)
unfolding has_failed_step
failed_step [] e = absurd (cc e)
failed_step (step ∷ steps) e = elim (Bool-cases (is_failed step.status)) [
  | inl f ↦ (step, inl refl, ground arith)
  | inr f ↦ let (s, l, failed) = failed_step steps (ground arith) in (s, inr l, failed)
]

phase-IsFinal :
    (steps : List Step)
    → is_finished_calculation steps ≡ true
    → IsFinal steps (get_calculation_final_phase steps)
unfolding get_calculation_final_phase
phase-IsFinal steps e = elim (Bool-cases (has_failed_step steps)) [
  | inl f ↦
      let (step, listed, failed) = failed_step steps f in
      inr (rw f refl, finished-HasStatus steps e, step, listed, failed)
  | inr f ↦ inl (rw f refl, (final_phase_completed_iff steps).0 (e, rw f refl))
]

Settles-Ended : (key : ObjectKey) (v u : View) → Settles Finished key v u → Settles Ended key v u
Settles-Ended key v u h = record {
  pools = h.pools;
  pods = h.pods;
  calculations = elim h.calculations [
    | inl same ↦ inl same
    | inr (calc, calc', stored, (now, processing, finished, made), after) ↦ inr (
      calc,
      calc',
      stored,
      subst (Ended calc) (sym made) (now, processing, phase-IsFinal calc.spec.steps finished, refl),
      after,
    )
  ];
}

-- However the reconciliation of a calculation ends, pools and pods are as before, and so are all
-- calculations, but for the one at the request's key: if it was processing and each of its steps
-- has a status, it may have got a completion time, and the phase `failed` if a step has failed and
-- `completed` if none has.
pub reconcile-Settles :
    (C : Cluster) (L : Contract C) (req : ObjectKey) (w : C.World)
    → Settles Ended req (L.view w) (L.view (reconcile C req w).1)
reconcile-Settles C L req w = Settles-Ended req _ _ (reconcile-Finished C L req w)
