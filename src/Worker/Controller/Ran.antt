-- ===== src/Worker/Controller/Ran.antt =====
-- What the worker's controller makes of a calculation, step by step.
use mathlib.Core.List.{append_assoc}
use ccb_operator.Base.{
  suc, ◌≡◌, refl, ◌∙◌, ap, true, false, Bool, Option, none, some, List, [], ◌∷◌, ◌++◌, ◌⊎◌, inl,
  inr, length, length-append, get_elem?, get_elem?-append, set, set-append, arith,
}
use ccb_operator.Go.{Error}
use ccb_operator.Api.Meta.{Time}
use ccb_operator.Api.Calculations.{CalculationPhase, Calculation, Step, is_no_phase}
use ccb_operator.Util.Calculations.{has_failed_step}
use ccb_operator.Pipelines.Vega.{failed_with}
use ccb_operator.Worker.Messages.{Result, calc_error}
use ccb_operator.Worker.Executor.Steps.{alarm}
use ccb_operator.Worker.Controller.{in_failure, with_result, with_step_status}

-- A fresh step was run and has a status; any other is as it was.
abbrev pub RanIf : (fresh : Bool) → Step → Step → Type 0
RanIf true s s' =
    (s' ≡ record s { status = CalculationPhase.completed })
    ⊎ (s' ≡ record s { status = CalculationPhase.failed })
RanIf false s s' = s' ≡ s

-- Fresh is what has no status.
abbrev pub Ran : Step → Step → Type 0
Ran s s' = RanIf (is_no_phase s.status) s s'

abbrev pub AllRan : List Step → List Step → Type 0
AllRan [] [] = Unit
AllRan (s ∷ ss) (s' ∷ ss') = Ran s s' × AllRan ss ss'
AllRan _ _ = ⊥

-- The calculation has failed, with a time, and so has a step of it; or its phase and its times are
-- as they were.
abbrev pub IsMarked : Calculation → List Step → Calculation → Type 0
IsMarked calc steps calc' =
    ((calc'.phase ≡ calc.phase) × (calc'.status ≡ calc.status))
    ⊎ ((calc'.phase ≡ CalculationPhase.failed)
        × ((now : Time) × (calc'.status.completion_time ≡ some now))
        × (has_failed_step steps ≡ true))

-- Nothing but the phase, the time of completion and the steps has changed.
abbrev pub IsRestKept : Calculation → Calculation → Type 0
IsRestKept calc calc' = calc' ≡ record calc {
  phase = calc'.phase;
  status = record (calc.status) { completion_time = calc'.status.completion_time };
  spec = record (calc.spec) { steps = calc'.spec.steps };
}

abbrev pub Replayed : List Step → List Step → Calculation → Calculation → Type 0
Replayed done todo calc calc' =
    (steps : List Step) × (calc'.spec.steps ≡ done ++ steps)
    × AllRan todo steps
    × IsMarked calc steps calc'
    × IsRestKept calc calc'

pub failed_cons :
    (s : Step) (steps : List Step)
    → has_failed_step steps ≡ true
    → has_failed_step (s ∷ steps) ≡ true
unfolding has_failed_step
failed_cons s steps h = ground arith

failed_here :
    (s : Step) (steps : List Step)
    → s.status ≡ CalculationPhase.failed
    → has_failed_step (s ∷ steps) ≡ true
unfolding has_failed_step
failed_here s steps h = ground arith

pub Ran-kept : (s : Step) → is_no_phase s.status ≡ false → Ran s s
Ran-kept s e = rw e refl

pub Ran-reported :
    (s : Step) (error : Option Error) (status : CalculationPhase)
    → is_no_phase s.status ≡ true
    → status ≡ failed_with error
    → Ran s (record s { status = status })
Ran-reported s none status e h = rw e (inl (ap (λ p. record s { status = p }) h))
Ran-reported s (some x) status e h = rw e (inr (ap (λ p. record s { status = p }) h))

abbrev pub with_steps : Calculation → List Step → Calculation
with_steps calc steps = record calc { spec = record (calc.spec) { steps = steps } }

pub with_result-at :
    (r : Result) (calc : Calculation) (done : List Step) (s : Step) (ss : List Step)
    → calc.spec.steps ≡ done ++ (s ∷ ss)
    → r.step ≡ length done
    → with_result r calc
      ≡ some (with_steps calc ((done ++ (record s { status = r.status } ∷ [])) ++ ss))
unfolding with_result
with_result-at r calc done s ss e at_end =
    let s' = record s { status = r.status } in
    let found : get_elem? calc.spec.steps r.step ≡ some s =
      ap (λ l. get_elem? l r.step) e
      ∙ ap (get_elem? (done ++ (s ∷ ss))) at_end
      ∙ get_elem?-append done s ss in
    ap (with_step_status r.status r.step calc) found
    ∙ ap (λ l. some (with_steps calc l))
        (ap (λ l. set l r.step s') e
          ∙ ap (λ i. set (done ++ (s ∷ ss)) i s') at_end
          ∙ set-append done s ss s')

pub alarm_cases :
    (r : Result) (x : Option Error)
    → r.command_error ≡ x
    → r.status ≡ failed_with x
    → ((alarm r ≡ []) × (r.status ≡ CalculationPhase.completed))
      ⊎ ((alarm r ≡ calc_error r.calc_name ∷ []) × (r.status ≡ CalculationPhase.failed))
alarm_cases r none e h = inl (rw e refl, h)
alarm_cases r (some y) e h = inr (rw e refl, h)

pub length-snoc : (done : List Step) (s : Step) → length (done ++ (s ∷ [])) ≡ suc (length done)
length-snoc done s = omega (arith, length-append done (s ∷ []))

-- The first of the steps that are left is `s'` now, and then the others ran.
pub Replayed-cons :
    (done ss : List Step) (s s' : Step) (calc calc' : Calculation)
    → Ran s s'
    → Replayed (done ++ (s' ∷ [])) ss calc calc'
    → Replayed done (s ∷ ss) calc calc'
Replayed-cons done ss s s' calc calc' ran (steps, e, others, marked, kept) = (
  s' ∷ steps,
  e ∙ append_assoc done (s' ∷ []) steps,
  (ran, others),
  elim marked [
    | inl same ↦ inl same
    | inr (phase, time, failed) ↦ inr (phase, time, failed_cons s' steps failed)
  ],
  kept,
)

-- The same behind a failure at `now`.
pub Replayed-failed :
    (done ss : List Step) (s s' : Step) (calc calc' : Calculation) (now : Time)
    → Ran s s'
    → s'.status ≡ CalculationPhase.failed
    → Replayed (done ++ (s' ∷ [])) ss (in_failure now calc) calc'
    → Replayed done (s ∷ ss) calc calc'
unfolding in_failure
Replayed-failed done ss s s' calc calc' now ran failed (steps, e, others, marked, kept) = (
  s' ∷ steps,
  e ∙ append_assoc done (s' ∷ []) steps,
  (ran, others),
  inr (elim marked [
    | inl (phase, status) ↦
        (phase, (now, ap (λ t. t.completion_time) status), failed_here s' steps failed)
    | inr (phase, time, again) ↦ (phase, time, failed_cons s' steps again)
  ]),
  kept,
)
