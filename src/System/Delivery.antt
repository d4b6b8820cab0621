-- ===== src/System/Delivery.antt =====
-- One calculation of a bulk, from the worker that takes it to its entry in the bulk.
use ccb_operator.Base.{◌≡◌, refl, sym, ◌∙◌, ap, subst, String, some, List, [], map, All}
use ccb_operator.Base.Bytes.{Bytes}
use ccb_operator.Base.Maps.{Entries, index}
use ccb_operator.Go.{ok, Action}
use ccb_operator.Go.Success.{Succeeds, ok_of_Succeeds}
use ccb_operator.Api.{Kind}
use ccb_operator.Api.Meta.{Time, ObjectKey}
use ccb_operator.Api.Calculations.{CalculationPhase, Calculation}
use ccb_operator.Api.Bulks.{CalculationBulk, BulkCalculation}
use ccb_operator.Cluster.{Cluster}
use ccb_operator.Cluster.View.{View}
use ccb_operator.Cluster.Laws.{Contract}
use ccb_operator.Cluster.Keeps.{Keeps-of_ended, kept}
use ccb_operator.Cluster.Ready.{Ready}
use ccb_operator.Grpc.{ResultsClient}
use ccb_operator.Util.Labels.{
  bulk_label, calculation_name_label, post_calculation_label, factory_label,
}
use ccb_operator.Util.Formats.{Formats}
use ccb_operator.Worker.{Identity}
use ccb_operator.Worker.Machine.{Machine}
use ccb_operator.Worker.Messages.{Result, Message, Traced}
use ccb_operator.Worker.Executor.Steps.{Sure, Calm, pending, told, IsResultOf, run_steps-Tells}
use ccb_operator.Worker.Controller
use ccb_operator.Worker.Controller.{message, result_updater, in_process}
use ccb_operator.Worker.Controller.Kept.{result_updater-Kept, reconcile-Kept}
use ccb_operator.Worker.Controller.Taken.{reconcile-Takes}
use ccb_operator.Worker.Controller.Received.{Holds}
use ccb_operator.Worker.Controller.Replay.{replay-Becomes}
use ccb_operator.Dispatcher.Calculations.{reconcile}
use ccb_operator.Dispatcher.Calculations.Completed.{NamedIn, InPhase}
use ccb_operator.Dispatcher.Calculations.Delivered.{reconcile_twice-Delivered}
use ccb_operator.System.Execution.{Executed, Executed-of, key, sent_by}

-- A calculation with the same metadata has the same names.
same_meta-NamedIn :
    (bulk_name calc_name : String) (calc calc' : Calculation)
    → calc'.meta ≡ calc.meta
    → NamedIn bulk_name calc_name calc
    → NamedIn bulk_name calc_name calc'
same_meta-NamedIn bulk_name calc_name calc calc' e named = record {
  in_bulk = ap (λ m. index m.labels bulk_label) e ∙ named.in_bulk;
  by_name = ap (λ m. index m.labels calculation_name_label) e ∙ named.by_name;
  of_no_factory = ap (λ m. index m.labels factory_label) e ∙ named.of_no_factory;
  no_post = ap (λ m. index m.labels post_calculation_label) e ∙ named.no_post;
}

module _ (C : Cluster) (L : Contract C) (ready : Ready C L) (me : Identity)
    (bulk_name calc_name : String) (bulk : CalculationBulk) (m : Entries BulkCalculation) where
  abbrev pub home : ObjectKey
  home = record { namespace = me.namespace; name = bulk_name }

  abbrev pub HasBulk : View → Type 0
  HasBulk v = v Kind.bulks home ≡ some bulk

  -- What was sent is received, and two reconciliations of the calculation follow: nothing fails,
  -- the calculation has been executed, and its entry in the bulk has its phase.
  abbrev pub IsDelivered : Calculation → List Message → C.World → Type 0
  IsDelivered calc sent w =
      let received = result_updater C me (map message sent) w in
      let first = reconcile C (key C L ready me calc) received.1 in
      let second = reconcile C (key C L ready me calc) first.1 in
      (received.0 ≡ ok tt)
      × (first.0 ≡ ok tt)
      × (second.0 ≡ ok tt)
      × (calc' : Calculation) × (L.view second.1 Kind.calculations (key C L ready me calc)
          ≡ some calc')
      × Executed calc calc'
      × (b : CalculationBulk) × (L.view second.1 Kind.bulks home ≡ some b)
      × InPhase calc'.phase (index b.calculations calc_name)

  told-IsDelivered :
      (calc : Calculation) (results : List Result)
      → map (λ r. r.step) results ≡ pending 0 calc.spec.steps
      → All (IsResultOf calc.meta.name) results
      → calc.phase ≡ CalculationPhase.processing
      → NamedIn bulk_name calc_name calc
      → bulk.calculations ≡ some m
      → (w : C.World) → Holds C L ready me calc.meta.name calc (L.view w)
      → HasBulk (L.view w)
      → IsDelivered calc (told results) w
  told-IsDelivered calc results indexes each phase named mapped w holds has =
      let signals = map message (told results) in
      let req = key C L ready me calc in
      let (_, e, (mid, (steps, same_steps, ran, marked, rest), (stored, pooled))) =
        ok_of_Succeeds
          (replay-Becomes C L ready me calc.meta.name calc.spec.steps [] results calc refl indexes
            each)
          w holds in
      let after = (result_updater C me signals w).1 in
      let still : HasBulk (L.view after) =
        kept C L HasBulk
          (result_updater-Kept C L HasBulk (λ v j c now found p. p) (λ v j c now found p. p)
            (λ v j r c c' found reported p. p) (λ v pool p. p) me signals)
          w has in
      let (first, second, (calc', found, advanced, b, there, told_phase)) =
        reconcile_twice-Delivered C L ready req mid bulk_name calc_name bulk m (L.view after)
          (L.view-key after Kind.calculations req mid stored)
          (L.view-key after Kind.bulks home bulk still)
          (same_meta-NamedIn bulk_name calc_name calc mid (ap (λ c. c.meta) rest) named) stored
          still mapped after refl in
      (
        e,
        first,
        second,
        calc',
        found,
        Executed-of calc mid calc' phase (steps, same_steps, ran, marked, rest) advanced,
        b,
        there,
        told_phase,
      )

-- Over a cluster whose calls succeed, and with commands that always answer: a calculation that is
-- created and assigned to a worker, that names its stored bulk and itself in it, and that stays as
-- it is, as its bulk does, while the worker waits for its executor, is taken without an error.
-- Once its steps are run, all that the executor sent is received and the dispatcher has reconciled
-- it twice, none of which fails, it has been executed, and its entry in the bulk has its phase.
-- The worker's pool is stored, and it and the bulk have maps.
pub reconcile-Delivers :
    (F : Formats) (C : Cluster) (L : Contract C) (M : Machine C.World) (G : ResultsClient C.World)
    (ready : Ready C L)
    → ((dir command : String) (args : List String) → Sure (M.run_command dir command args))
    → ((path : String) (b : Bytes) → Calm (M.write_file path b))
    → (me : Identity) (calc : Calculation) (path : String) (t : Traced C.World) → t.sent ≡ []
    → (bulk_name calc_name : String) (bulk : CalculationBulk) (m : Entries BulkCalculation)
      (send : Calculation → Action C.World (Unit {0}))
    → Succeeds
        (λ w. Holds C L ready me calc.meta.name calc (L.view w))
        (send calc)
        (λ _ w. Holds C L ready me calc.meta.name calc (L.view w))
    → ((c : Calculation) (w : C.World)
        → HasBulk C L ready me bulk_name calc_name bulk m (L.view w)
        → HasBulk C L ready me bulk_name calc_name bulk m (L.view (send c w).1))
    → calc.assign ≡ me.hostname
    → calc.phase ≡ CalculationPhase.created
    → NamedIn bulk_name calc_name calc
    → bulk.calculations ≡ some m
    → (w : C.World) → Holds C L ready me calc.meta.name calc (L.view w)
    → HasBulk C L ready me bulk_name calc_name bulk m (L.view w)
    → let taken = Controller.reconcile C me send (key C L ready me calc) w in
      (taken.0 ≡ ok tt)
      × (now : Time) × IsDelivered C L ready me bulk_name calc_name bulk m
          (in_process now calc)
          (sent_by F C M G calc path t)
          taken.1
unfolding in_process
reconcile-Delivers F C L M G ready sure calm me calc path t nothing bulk_name calc_name bulk m send
      sends leaves mine created named mapped w holds has =
    let P = HasBulk C L ready me bulk_name calc_name bulk m in
    let req = key C L ready me calc in
    let (_, e, (now, taken)) =
      ok_of_Succeeds (reconcile-Takes C L ready me calc.meta.name send calc sends mine created) w
        holds in
    let (_, _, (results, sent, indexes, each, _)) =
      ok_of_Succeeds (run_steps-Tells F C M G sure calm calc path 0 calc.spec.steps []) t nothing in
    let still : P (L.view (Controller.reconcile C me send req w).1) =
      kept C L P
        (reconcile-Kept C L P (λ v j c now found p. p) (λ v j c now found p. p)
          (λ v j r c c' found reported p. p) (λ v pool p. p) me send req
          (λ c. Keeps-of_ended C L P (send c) (leaves c)))
        w has in
    (
      e,
      now,
      subst
          (λ messages.
            IsDelivered C L ready me bulk_name calc_name bulk m (in_process now calc) messages
              (Controller.reconcile C me send req w).1)
          (sym sent)
          (told-IsDelivered C L ready me bulk_name calc_name bulk m (in_process now calc) results
            indexes each refl
            (same_meta-NamedIn bulk_name calc_name calc (in_process now calc) refl named) mapped _
            taken still),
    )
