-- ===== src/System/Execution.antt =====
-- One calculation from its executor to its final phase: what the executor sends is received by the
-- worker's controller, and then the dispatcher reconciles the calculation.
use ccb_operator.Base.{
  ◌≡◌, refl, sym, ◌∙◌, ap, subst, inl, inr, true, false, Bool, if◌then◌else◌, String, some, List,
  [], ◌∷◌, map, All, arith,
}
use ccb_operator.Base.Bytes.{Bytes}
use ccb_operator.Go.{ok, Action}
use ccb_operator.Go.Rules.{ended}
use ccb_operator.Go.Success.{Succeeds, ok_of_Succeeds}
use ccb_operator.Api.{Kind}
use ccb_operator.Api.Meta.{Time, ObjectKey}
use ccb_operator.Api.Calculations.{CalculationPhase, Calculation, Step, is_no_phase}
use ccb_operator.Cluster.{Cluster}
use ccb_operator.Cluster.Laws.{Contract}
use ccb_operator.Cluster.Ready.{Ready}
use ccb_operator.Grpc.{ResultsClient}
use ccb_operator.Util.Formats.{Formats}
use ccb_operator.Util.Calculations.{
  is_finished_calculation, has_failed_step, get_calculation_final_phase,
}
use ccb_operator.Worker.{Identity}
use ccb_operator.Worker.Machine.{Machine}
use ccb_operator.Worker.Messages.{Result, Message, Traced}
use ccb_operator.Worker.Executor.{run_steps}
use ccb_operator.Worker.Executor.Steps.{Sure, Calm, pending, told, IsResultOf, run_steps-Tells}
use ccb_operator.Worker.Controller
use ccb_operator.Worker.Controller.{message, result_updater, in_process}
use ccb_operator.Worker.Controller.Taken.{reconcile-Takes}
use ccb_operator.Worker.Controller.Received.{Holds}
use ccb_operator.Worker.Controller.Ran.{Ran, RanIf, AllRan, IsRestKept, Replayed}
use ccb_operator.Worker.Controller.Replay.{replay-Becomes}
use ccb_operator.Dispatcher.Calculations.{reconcile, settle}
use ccb_operator.Dispatcher.Calculations.Progress.{Advanced, reconcile-Stored}

-- What a calculation is when it has been executed: each step without a status was run, the phase
-- is `failed` if a step has failed and `completed` if none has, there is a time of completion, and
-- nothing else of it has changed.
pub record Executed (calc calc' : Calculation) : Type 0 where
  pub steps : AllRan calc.spec.steps calc'.spec.steps
  pub phase : calc'.phase ≡ (
      if has_failed_step calc'.spec.steps
      then CalculationPhase.failed
      else CalculationPhase.completed)
  pub time : (now : Time) × (calc'.status.completion_time ≡ some now)
  pub rest : IsRestKept calc calc'

Ran-HasStatus : (s s' : Step) → Ran s s' → is_no_phase s'.status ≡ false
Ran-HasStatus s s' ran = by_status (is_no_phase s.status) refl ran
  where
    by_status :
        (fresh : Bool)
        → is_no_phase s.status ≡ fresh
        → RanIf fresh s s'
        → is_no_phase s'.status ≡ false
    by_status true e (inl h) = ap (λ x. is_no_phase x.status) h
    by_status true e (inr h) = ap (λ x. is_no_phase x.status) h
    by_status false e h = ap (λ x. is_no_phase x.status) h ∙ e

AllRan-HasStatus :
    (steps steps' : List Step) → AllRan steps steps' → is_finished_calculation steps' ≡ true
unfolding is_finished_calculation
AllRan-HasStatus [] [] ran = refl
AllRan-HasStatus [] (s' ∷ steps') ran = absurd ran
AllRan-HasStatus (s ∷ steps) [] ran = absurd ran
AllRan-HasStatus (s ∷ steps) (s' ∷ steps') (ran, others) =
    ground (arith, Ran-HasStatus s s' ran, AllRan-HasStatus steps steps' others)

-- Received, and then reconciled.
pub Executed-of :
    (calc mid calc' : Calculation)
    → calc.phase ≡ CalculationPhase.processing
    → Replayed [] calc.spec.steps calc mid
    → Advanced mid calc'
    → Executed calc calc'
unfolding get_calculation_final_phase
Executed-of calc mid calc' phase (steps, e, ran, marked, kept) (inl (now, _, _, made)) =
    subst (Executed calc) (sym made) (record {
      steps = subst (AllRan calc.spec.steps) (sym e) ran;
      phase = refl;
      time = (now, refl);
      rest = ap (settle (get_calculation_final_phase mid.spec.steps) now) kept;
    })
Executed-of calc mid calc' phase (steps, e, ran, marked, kept) (inr (early, same)) =
    subst (Executed calc) (sym same) (elim marked [
      | inl (as_before, _) ↦
          absurd (cc (early (as_before ∙ phase), AllRan-HasStatus calc.spec.steps steps ran))
      | inr (failed, time, step_failed) ↦ record {
        steps = subst (AllRan calc.spec.steps) (sym e) ran;
        phase =
            failed
            ∙ ap (λ b. if b then CalculationPhase.failed else CalculationPhase.completed)
                (sym (ap has_failed_step e ∙ step_failed));
        time = time;
        rest = kept;
      }
    ])

module _ (C : Cluster) (L : Contract C) (ready : Ready C L) (me : Identity)
    (calc : Calculation) where
  abbrev pub key : ObjectKey
  key = record { namespace = me.namespace; name = calc.meta.name }

  abbrev pub EndsWell : List Message → C.World → Type 0
  EndsWell sent w =
      let received = result_updater C me (map message sent) w in
      (received.0 ≡ ok tt)
      × (calc' : Calculation) × (L.view (reconcile C key received.1).1 Kind.calculations key
          ≡ some calc')
      × Executed calc calc'

  told-Executed :
      (results : List Result)
      → map (λ r. r.step) results ≡ pending 0 calc.spec.steps
      → All (IsResultOf calc.meta.name) results
      → calc.phase ≡ CalculationPhase.processing
      → (w : C.World) → Holds C L ready me calc.meta.name calc (L.view w)
      → EndsWell (told results) w
  told-Executed results indexes each phase w holds =
      let (_, e, (mid, replayed, (stored, pooled))) =
        ok_of_Succeeds
          (replay-Becomes C L ready me calc.meta.name calc.spec.steps [] results calc refl indexes
            each)
          w holds in
      let (calc', found, advanced) =
        ended (reconcile-Stored C L ready key mid)
          (result_updater C me (map message (told results)) w).1 stored in
      (e, calc', found, Executed-of calc mid calc' phase replayed advanced)

-- What the executor has sent when the steps of a calculation were run.
abbrev pub sent_by :
    (F : Formats) (C : Cluster)
    → Machine C.World
    → ResultsClient C.World
    → Calculation
    → String
    → Traced C.World
    → List Message
sent_by F C M G calc path t = (run_steps F C M G calc path 0 calc.spec.steps t).1.sent

-- Over a cluster whose calls succeed, and with commands that always answer: a calculation that is
-- created and assigned to a worker, and that stays as it is while the worker waits for its
-- executor, is taken without an error. It is processing then, with a pending time, and it has been
-- executed once its steps are run, all that the executor sent is received and the dispatcher has
-- reconciled it. The worker's pool is stored and has a map.
pub reconcile-Executed :
    (F : Formats) (C : Cluster) (L : Contract C) (M : Machine C.World) (G : ResultsClient C.World)
    (ready : Ready C L)
    → ((dir command : String) (args : List String) → Sure (M.run_command dir command args))
    → ((path : String) (b : Bytes) → Calm (M.write_file path b))
    → (me : Identity) (calc : Calculation) (path : String) (t : Traced C.World) → t.sent ≡ []
    → (send : Calculation → Action C.World (Unit {0}))
    → Succeeds
        (λ w. Holds C L ready me calc.meta.name calc (L.view w))
        (send calc)
        (λ _ w. Holds C L ready me calc.meta.name calc (L.view w))
    → calc.assign ≡ me.hostname
    → calc.phase ≡ CalculationPhase.created
    → (w : C.World) → Holds C L ready me calc.meta.name calc (L.view w)
    → let taken = Controller.reconcile C me send (key C L ready me calc) w in
      (taken.0 ≡ ok tt)
      × (now : Time) × EndsWell C L ready me
          (in_process now calc)
          (sent_by F C M G calc path t)
          taken.1
unfolding in_process
reconcile-Executed F C L M G ready sure calm me calc path t nothing send sends mine created w
      holds =
    let (_, e, (now, taken)) =
      ok_of_Succeeds (reconcile-Takes C L ready me calc.meta.name send calc sends mine created) w
        holds in
    let (_, _, (results, sent, indexes, each, _)) =
      ok_of_Succeeds (run_steps-Tells F C M G sure calm calc path 0 calc.spec.steps []) t nothing in
    (
      e,
      now,
      subst
          (λ messages.
            EndsWell C L ready me (in_process now calc) messages
              (Controller.reconcile C me send (key C L ready me calc) w).1)
          (sym sent)
          (told-Executed C L ready me (in_process now calc) results indexes each refl _ taken),
    )
