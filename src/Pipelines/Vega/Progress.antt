-- ===== src/Pipelines/Vega/Progress.antt =====
-- How far the vega pipeline gets, and what it sends.
use mathlib.Core.List.{append_assoc, append-nil}
use ccb_operator.Base.{
  ℕ, suc, ◌≡◌, refl, sym, ◌∙◌, ap, true, Option, none, some, List, [], ◌∷◌, ◌++◌, map, All,
}
use ccb_operator.Base.Bytes.{Bytes}
use ccb_operator.Go.{Error, Outcome, ok, err, panic, Action}
use ccb_operator.Go.Rules.{Ends, Runs, Runs->>=, Runs-pure, Runs-fail, Runs-weaken}
use ccb_operator.Api.Calculations.{CalculationPhase, Step, is_no_phase}
use ccb_operator.Util.Formats.{Formats}
use ccb_operator.Worker.Machine.{Machine}
use ccb_operator.Worker.Messages.{Result, Message, step_result, Traced, emit, quietly}
use ccb_operator.Pipelines.Vega.{
  VegaPipeline, result_of, stop_if_failed, prepare, dump_failed, run_from, run,
  vega_calculation_steps,
}

-- Results that come after one another, all with the outcome that lets the next step run.
abbrev pub AreCompleted : List Result → Type 0
AreCompleted = All (λ r. (r.status ≡ CalculationPhase.completed) × (r.command_error ≡ none))

-- The same, but for the last one.
abbrev pub AreCompletedBeforeLast : List Result → Type 0
AreCompletedBeforeLast [] = Unit
AreCompletedBeforeLast (r ∷ []) = Unit
AreCompletedBeforeLast (r ∷ next ∷ rs) =
    (r.status ≡ CalculationPhase.completed) × AreCompletedBeforeLast (next ∷ rs)

module _ {W : Type 0} (s : List Message) where
  -- All steps at these indexes were run and completed.
  abbrev pub Passed : List ℕ → Traced W → Type 0
  Passed indexes t =
      (results : List Result) × (t.sent ≡ s ++ map step_result results)
      × (map (λ r. r.step) results ≡ indexes)
      × AreCompleted results

  -- The first of these steps were run, and all but the last of them completed.
  abbrev pub Stopped : List ℕ → Traced W → Type 0
  Stopped indexes t =
      (results : List Result) × (others : List ℕ) × (t.sent ≡ s ++ map step_result results)
      × (map (λ r. r.step) results ++ others ≡ indexes)
      × AreCompletedBeforeLast results

  Sent-either :
      {A : Type 0} (r : Outcome A) (t : Traced W)
      → t.sent ≡ s
      → Ends (λ _ u. u.sent ≡ s) (λ u. u.sent ≡ s) r t
  Sent-either (ok a) t h = h
  Sent-either (err e) t h = h
  Sent-either (panic m) t h = h

  quietly-Sent :
      {A : Type 0} (m : Action W A) (indexes : List ℕ)
      → Runs (λ t. t.sent ≡ s) (quietly m) (λ _ t. t.sent ≡ s) (Stopped indexes)
  quietly-Sent m indexes =
      Runs-weaken (λ a t h. h) (λ t h. ([], indexes, h ∙ sym (append-nil s), refl, tt))
        (record { run = λ t h. Sent-either (m t.world).0 _ h })

abbrev pub upto : ℕ → List Step → List ℕ
upto i [] = []
upto i (step ∷ steps) = i ∷ upto (suc i) steps

module _ (F : Formats) {W : Type 0} (M : Machine W) (v : VegaPipeline) where
  after_result :
      (index : ℕ) (output : Bytes) (error : Option Error) (indexes : List ℕ) (s : List Message)
      (rest : Action (Traced W) (Unit {0}))
      → ((s' : List Message)
          → Runs (λ t. t.sent ≡ s') rest (λ _. Passed s' indexes) (Stopped s' indexes))
      → Runs
          (λ t. t.sent ≡ s ++ (step_result (result_of F M v index output error) ∷ []))
          (stop_if_failed F M v error rest)
          (λ _. Passed s (index ∷ indexes))
          (Stopped s (index ∷ indexes))
  after_result index output none indexes s rest ih =
      let r = result_of F M v index output none in
      Runs-weaken
        (λ a t (results, sent, steps, each). (
          r ∷ results,
          sent ∙ append_assoc s (step_result r ∷ []) (map step_result results),
          ap (λ x. index ∷ x) steps,
          ((refl, refl), each),
        ))
        (λ t (results, others, sent, steps, each). (
          r ∷ results,
          others,
          sent ∙ append_assoc s (step_result r ∷ []) (map step_result results),
          ap (λ x. index ∷ x) steps,
          first_completed r results refl each,
        ))
        (ih _)
    where
      first_completed :
          (r : Result) (results : List Result)
          → r.status ≡ CalculationPhase.completed
          → AreCompletedBeforeLast results
          → AreCompletedBeforeLast (r ∷ results)
      first_completed r [] e h = tt
      first_completed r (next ∷ results) e h = (e, h)
  after_result index output (some e) indexes s rest ih =
      let r = result_of F M v index output (some e) in
      Runs-weaken (λ a t h. h) (λ t h. (r ∷ [], indexes, h, refl, tt)) (Runs-fail _)

  emit-Sent :
      (message : Message) (indexes : List ℕ) (s : List Message)
      → Runs
          (λ t. t.sent ≡ s)
          (emit message)
          (λ _ t. t.sent ≡ s ++ (message ∷ []))
          (Stopped {W = W} s indexes)
  emit-Sent message indexes s = record { run = λ t h. ap (λ x. x ++ (message ∷ [])) h }

  run_from-Runs :
      (index : ℕ) (steps : List Step) (s : List Message)
      → All (λ step. is_no_phase step.status ≡ true) steps
      → Runs
          (λ t. t.sent ≡ s)
          (run_from F M v index steps)
          (λ _. Passed s (upto index steps))
          (Stopped s (upto index steps))
  unfolding run_from
  run_from-Runs index [] s h = Runs-pure tt λ t sent. ([], sent ∙ sym (append-nil s), refl, tt)
  run_from-Runs index (step ∷ steps) s (fresh, h) =
      let indexes = upto index (step ∷ steps) in
      rw fresh (
        Runs->>= _ _ (quietly-Sent s (prepare F M v index) indexes) λ _.
          Runs->>= _ _ (quietly-Sent s (M.run_command v.calc_path step.command step.args) indexes)
            λ (output, error).
              Runs->>= _ _ (quietly-Sent s (dump_failed F M v index output error) indexes) λ _.
                Runs->>= _ _
                  (emit-Sent (step_result (result_of F M v index output error)) indexes s)
                  λ _.
                    after_result index output error (upto (suc index) steps) s _
                      (λ s'. run_from-Runs (suc index) steps s' h))

-- If the vega pipeline ends without an error, one result was sent for each of its steps 0, 1 and 2,
-- in this order, all with the phase `completed`. If it fails or panics, the results that were sent
-- are those of the first of these steps, all of them completed but perhaps the last.
pub run-Passed :
    (F : Formats) {W : Type 0} (M : Machine W) (v : VegaPipeline) (s : List Message)
    → Runs
        (λ t. t.sent ≡ s)
        (run F M v)
        (λ _. Passed s (0 ∷ 1 ∷ 2 ∷ []))
        (Stopped s (0 ∷ 1 ∷ 2 ∷ []))
unfolding run
run-Passed F M v s = run_from-Runs F M v 0 vega_calculation_steps s (refl, (refl, (refl, tt)))
