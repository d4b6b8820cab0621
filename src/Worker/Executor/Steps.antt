-- ===== src/Worker/Executor/Steps.antt =====
-- The steps of a calculation that is not of the vega pipeline: what the executor sends of them.
use ccb_operator.Base.{
  ℕ, suc, ◌≡◌, refl, sym, ◌∙◌, ap, if◌then◌else◌, String, Option, none, some, List, [], ◌∷◌, ◌++◌,
  map, All, Bool-cases, ◌⊎◌, inl, inr,
}
use mathlib.Core.List.{append_assoc, append-nil}
use ccb_operator.Base.Bytes.{Bytes}
use ccb_operator.Go.{
  Error, Outcome, ok, err, panic, Action, ◌>>◌, pure, fail, text, resume, caught, caught_outcome,
}
use ccb_operator.Go.Rules.{Ends, Runs, Runs->>=, Runs-pure, Runs-map, Runs_given}
use ccb_operator.Api.Calculations.{Calculation, Step, is_no_phase}
use ccb_operator.Cluster.{Cluster}
use ccb_operator.Grpc.{ResultsClient}
use ccb_operator.Util.Formats.{Formats}
use ccb_operator.Worker.Machine.{Machine}
use ccb_operator.Worker.Messages.{Result, Message, step_result, calc_error, Traced, emit, quietly}
use ccb_operator.Worker.Executor.{run_steps, report_if_failed, dump_command_output}
use ccb_operator.Pipelines.Vega.{failed_with}

-- An action that may fail but does not panic, and one that always answers.
abbrev pub Calm : {W A : Type 0} → Action W A → Type 0
Calm {W} m = (w : W) → Ends (λ _ _. Unit {0}) (λ _. ⊥) (caught_outcome (m w).0) (m w).1

abbrev pub Sure : {W A : Type 0} → Action W A → Type 0
Sure {W} m = (w : W) → Ends (λ _ _. Unit {0}) (λ _. ⊥) (m w).0 (m w).1

-- The indexes of the steps without a status, from one on.
abbrev pub pending : ℕ → List Step → List ℕ
pending i [] = []
pending i (step ∷ steps) =
    if is_no_phase step.status then i ∷ pending (suc i) steps else pending (suc i) steps

-- One result, and the error of its calculation if its command failed.
abbrev pub alarm : Result → List Message
alarm r = elim r.command_error [ none ↦ [] | some e ↦ calc_error r.calc_name ∷ [] ]

abbrev pub told : List Result → List Message
told [] = []
told (r ∷ rs) = step_result r ∷ (alarm r ++ told rs)

-- The status of a result is `failed` if its command had an error, and `completed` if not.
abbrev pub IsResultOf : String → Result → Type 0
IsResultOf name r = (r.calc_name ≡ name) × (r.status ≡ failed_with r.command_error)

-- The steps without a status.
abbrev pub fresh : List Step → List Step
fresh [] = []
fresh (step ∷ steps) = if is_no_phase step.status then step ∷ fresh steps else fresh steps

-- Each result has the output and the error with which the command of its step has answered, run in
-- this directory.
abbrev pub AreAnswers : {W : Type 0} → Machine W → String → List Step → List Result → Type 0
AreAnswers M path [] [] = Unit
AreAnswers {W} M path (step ∷ steps) (r ∷ rs) =
    ((w : W) × ((M.run_command path step.command step.args w).0
        ≡ ok (r.stdout_stderr, r.command_error)))
    × AreAnswers M path steps rs
AreAnswers M path _ _ = ⊥

-- What was sent beyond `before` is one result for each index and step, in order.
abbrev pub Tells :
    {W : Type 0}
    → Machine W
    → String
    → String
    → List Message
    → List ℕ
    → List Step
    → Traced W
    → Type 0
Tells M path name before indexes steps t =
    (results : List Result) × (t.sent ≡ before ++ told results)
    × (map (λ r. r.step) results ≡ indexes)
    × All (IsResultOf name) results
    × AreAnswers M path steps results

module _ {W : Type 0} (s : List Message) where
  abbrev Sent : Traced W → Type 0
  Sent t = t.sent ≡ s

  Sent-ends :
      {A : Type 0} (r : Outcome A) (t : Traced W)
      → Sent t
      → Ends (λ _ _. Unit {0}) (λ _. ⊥) r t.world
      → Ends (λ _. Sent) (λ _. ⊥) r t
  Sent-ends (ok a) t h sure = h
  Sent-ends (err e) t h sure = sure
  Sent-ends (panic m) t h sure = sure

  Sent-answers :
      {A : Type 0} (m : Action W A) (w : W) (r : Outcome A) (t : Traced W)
      → (m w).0 ≡ r
      → Sent t
      → Ends (λ _ _. Unit {0}) (λ _. ⊥) r t.world
      → Ends (λ a u. ((w : W) × ((m w).0 ≡ ok a)) × Sent u) (λ _. ⊥) r t
  Sent-answers m w (ok a) t e h sure = ((w, e), h)
  Sent-answers m w (err x) t e h sure = sure
  Sent-answers m w (panic x) t e h sure = sure

  Runs-answered :
      {A : Type 0} (m : Action W A)
      → Sure m
      → Runs Sent (quietly m) (λ a t. ((w : W) × ((m w).0 ≡ ok a)) × Sent t) (λ _. ⊥)
  Runs-answered m sure = record {
    run = λ t h. Sent-answers m t.world (m t.world).0 _ refl h (sure t.world);
  }

  Runs-Calm :
      {A : Type 0} (m : Action W A) → Calm m → Runs Sent (caught (quietly m)) (λ _. Sent) (λ _. ⊥)
  Runs-Calm m calm = record {
    run = λ t h. Sent-ends (caught_outcome (m t.world).0) _ h (calm t.world);
  }

  Runs-emit :
      (message : Message) → Runs Sent (emit message) (λ _ t. t.sent ≡ s ++ (message ∷ [])) (λ _. ⊥)
  Runs-emit message = record { run = λ t h. ap (λ x. x ++ (message ∷ [])) h }

dump_command_output-Calm :
    {W : Type 0} (M : Machine W) (path : String) (index : ℕ) (output : Bytes)
    → ((p : String) (b : Bytes) → Calm (M.write_file p b))
    → Calm (dump_command_output M path index output)
unfolding dump_command_output
dump_command_output-Calm {W} M path index output calm w =
    answer (M.write_file (M.join path (M.step_file index)) output w) (calm _ _ w)
  where
    then_fails : Error ⊎ Unit {0} → Action W (Unit {0})
    then_fails r = elim r [
      | inl e ↦ fail (text "couldn't generate the command output file")
      | inr _ ↦ pure tt
    ]

    answer :
        (x : Outcome (Unit {0}) × W)
        → Ends (λ _ _. Unit {0}) (λ _. ⊥) (caught_outcome x.0) x.1
        → let y = resume (caught_outcome x.0) x.1 then_fails in
          Ends (λ _ _. Unit {0}) (λ _. ⊥) (caught_outcome y.0) y.1
    answer (ok a, u) h = tt
    answer (err e, u) h = tt
    answer (panic s, u) h = h

append_nested :
    (s : List Message) (m : Message) (rest : List Message)
    → (s ++ (m ∷ [])) ++ rest ≡ s ++ (m ∷ rest)
append_nested s m rest = append_assoc s (m ∷ []) rest

module _ (F : Formats) (C : Cluster) (M : Machine C.World) (G : ResultsClient C.World)
    (sure : (dir command : String) (args : List String) → Sure (M.run_command dir command args))
    (calm : (path : String) (b : Bytes) → Calm (M.write_file path b)) (calc : Calculation)
    (path : String) where
  abbrev name : String
  name = calc.meta.name

  abbrev result_at : ℕ → Bytes → Option Error → Result
  result_at index output error = record {
    calc_name = name;
    step = index;
    status = failed_with error;
    stdout_stderr = output;
    command_error = error;
  }

  -- One more result in front.
  Tells-cons :
      (s : List Message) (r : Result) (indexes : List ℕ) (step : Step) (steps : List Step)
      (t : Traced C.World)
      → IsResultOf name r
      → ((w : C.World) × ((M.run_command path step.command step.args w).0
            ≡ ok (r.stdout_stderr, r.command_error)))
      → Tells M path name (s ++ (step_result r ∷ alarm r)) indexes steps t
      → Tells M path name s (r.step ∷ indexes) (step ∷ steps) t
  Tells-cons s r indexes step steps t is answer (results, sent, at, each, answers) = (
    r ∷ results,
    sent ∙ append_assoc s (step_result r ∷ alarm r) (told results),
    ap (λ x. r.step ∷ x) at,
    (is, each),
    (answer, answers),
  )

  -- What follows the result of a command: the alarm, if there is one, and the other steps.
  report-Runs :
      (index : ℕ) (output : Bytes) (error : Option Error)
      (rest : Action (Traced C.World) (Unit {0})) (indexes : List ℕ) (step : Step)
      (steps : List Step) (s : List Message)
      → ((w : C.World) × ((M.run_command path step.command step.args w).0 ≡ ok (output, error)))
      → ((s' : List Message)
          → Runs (λ t. t.sent ≡ s') rest (λ _. Tells M path name s' indexes steps) (λ _. ⊥))
      → Runs
          (λ t. t.sent ≡ s ++ (step_result (result_at index output error) ∷ []))
          (report_if_failed F C M G calc error >> rest)
          (λ _. Tells M path name s (index ∷ indexes) (step ∷ steps))
          (λ _. ⊥)
  report-Runs index output none rest indexes step steps s answer ih =
      Runs->>= _ _ (Runs-pure tt λ t h. h) λ _.
        Runs-map
          (λ _ t.
            Tells-cons s (result_at index output none) indexes step steps t (refl, refl) answer)
          (ih _)
  report-Runs index output (some e) rest indexes step steps s answer ih =
      let r = result_at index output (some e) in
      let before = s ++ (step_result r ∷ []) in
      Runs->>= _ _
        (Runs->>= _ _ (Runs-emit before (calc_error name))
          λ _. Runs-pure tt λ t h. h ∙ append_nested s (step_result r) (calc_error name ∷ []))
        λ _. Runs-map (λ _ t. Tells-cons s r indexes step steps t (refl, refl) answer) (ih _)

  run_steps-Runs :
      (index : ℕ) (steps : List Step) (s : List Message)
      → Runs
          (λ t. t.sent ≡ s)
          (run_steps F C M G calc path index steps)
          (λ _. Tells M path name s (pending index steps) (fresh steps))
          (λ _. ⊥)
  unfolding run_steps
  run_steps-Runs index [] s = Runs-pure _ λ t h. ([], h ∙ sym (append-nil s), refl, tt, tt)
  run_steps-Runs index (step ∷ steps) s = elim (Bool-cases (is_no_phase step.status)) [
    | inr e ↦ rw e (run_steps-Runs (suc index) steps s)
    | inl e ↦ rw e (
        Runs->>= _ _ (Runs-answered s _ (sure path step.command step.args)) λ (output, error).
          Runs_given
            ((w : C.World) × ((M.run_command path step.command step.args w).0 ≡ ok (output, error)))
            (λ t p. p)
            λ answer.
              Runs->>= _ _ (Runs-Calm s _ (dump_command_output-Calm M path index output calm)) λ _.
                Runs->>= _ _ (Runs-emit s (step_result (result_at index output error))) λ _.
                  report-Runs index output error _ (pending (suc index) steps) step (fresh steps) s
                    answer (run_steps-Runs (suc index) steps))
  ]

-- With commands that always answer, and files whose writing may fail: the steps of a calculation
-- run without an error or a panic. For each step without a status, in order and whether or not an
-- earlier one failed, its command is run with its arguments in the directory, and one result with
-- its index and with the output and the error of that command is sent, whose status is `failed` if
-- there was an error and `completed` if not; a failed one is followed by one error of the
-- calculation.
pub run_steps-Tells :
    (F : Formats) (C : Cluster) (M : Machine C.World) (G : ResultsClient C.World)
    → ((dir command : String) (args : List String) → Sure (M.run_command dir command args))
    → ((path : String) (b : Bytes) → Calm (M.write_file path b))
    → (calc : Calculation) (path : String) (index : ℕ) (steps : List Step) (s : List Message)
    → Runs
        (λ t. t.sent ≡ s)
        (run_steps F C M G calc path index steps)
        (λ _. Tells M path calc.meta.name s (pending index steps) (fresh steps))
        (λ _. ⊥)
run_steps-Tells F C M G sure calm calc path index steps s =
    run_steps-Runs F C M G sure calm calc path index steps s
