-- ===== src/Examples/SystemTests.antt =====
-- The theorems on the whole program, its executor and its commands at concrete inputs.
use ccb_operator.Base.{
  inr, ◌∷◌, ◌==◌, if◌then◌else◌, String-discrete, ◌≡◌, refl, subst, String, Option, none, some, [],
}
use ccb_operator.Go.{Action}
use ccb_operator.Go.Answers.{Answers}
use ccb_operator.Go.Rules.{Runs}
use ccb_operator.Api.{Kind}
use ccb_operator.Api.Meta.{Time}
use ccb_operator.Api.Bulks.{CalculationBulk}
use ccb_operator.Util.Workers.Update.{IsUsable}
use ccb_operator.Api.Calculations.{CalculationPhase, Calculation}
use ccb_operator.Base.Maps.{index, lookup}
use ccb_operator.Cluster.Modify.{modify}
use ccb_operator.Util.Hash.{input_hash}
use ccb_operator.Util.Calculations.{get_sorted_created_calculations, new_calculation}
use ccb_operator.Worker.{Identity}
use ccb_operator.Worker.Messages.{calc_error}
use ccb_operator.Worker.Controller
use ccb_operator.Dispatcher.Bulks
use ccb_operator.System.{
  Reaches, here, turn, calculation_taken, client_created, bulk_reconciled, report_received,
}
use ccb_operator.System.Timed.{AllWellTimed}
use ccb_operator.System.Invariant.{Reaches-AllWellTimed}
use ccb_operator.Base.Bytes.{bytes}
use ccb_operator.Go.{ok, external}
use ccb_operator.Util.Calculations.{new_step}
use ccb_operator.Worker.Machine.{Machine}
use ccb_operator.Worker.Messages.{Traced}
use ccb_operator.System.Delivery.{IsDelivered, reconcile-Delivers}
use ccb_operator.System.Execution.{EndsWell, key, sent_by, reconcile-Executed}
use ccb_operator.Dispatcher.Workers
use ccb_operator.Dispatcher.Workers.Waiting.{IsWaiting, HasMap}
use ccb_operator.Dispatcher.Workers.Recovered.{IsInOrder, NamesBulk, reconcile-Recovers}
use ccb_operator.Examples.Serving.{memory-Ready, memory-Recovers, find-All}
use ccb_operator.Examples.Memory.{Memory, memory, view, find}
use ccb_operator.Examples.Contract.{memory-Contract}
use ccb_operator.Worker.Executor.{execute}
use ccb_operator.Worker.Executor.Answers.{Ended, execute-Answers}
use ccb_operator.Worker.Pools.Abstract.{leaves, perform, Happened, abstraction, perform-Happened}
use ccb_operator.Cluster.Modify.{Same}
use ccb_operator.Examples.Data.{
  machine, done_step, cluster, a_calculation, formats, service, outside, a_pool, a_bulk, at,
  bulk_calculations,
}

abbrev empty : Memory
empty = record { clock = 1000; objects = λ k. []; answers = [] }

abbrev worker_1 : Identity
worker_1 = record {
  hostname = "pod-1";
  nodename = "node-1";
  namespace = "vega";
  worker_pool = "pool";
}

-- While the worker waits, its executor has taken the calculation and has reported its failure.
abbrev send_then_fail : Calculation → Action Memory (Unit {0})
send_then_fail calc = Controller.receive memory worker_1 (calc_error calc.meta.name)

abbrev dispatched : Memory
dispatched =
    (Bulks.reconcile formats memory service (at "bulk")
      (memory.create Kind.bulks a_bulk (memory.create Kind.pools a_pool empty).1).1).1

abbrev taken : Memory
taken = (Controller.reconcile memory worker_1 send_then_fail (at "calc-hash") dispatched).1

taken-Reaches : Reaches formats memory service outside "/nfs" empty taken
taken-Reaches = turn (client_created Kind.pools a_pool empty (λ e. absurd (cc e))) (
    turn (client_created Kind.bulks a_bulk _ (λ e. absurd (cc e))) (
      turn (bulk_reconciled (at "bulk") _) (
        calculation_taken worker_1 send_then_fail (at "calc-hash")
          (λ calc v. turn (report_received worker_1 (calc_error calc.meta.name) v) here) here)))

Reaches-AllWellTimed_example : AllWellTimed (memory-Contract.view taken)
unfolding find memory-Contract
Reaches-AllWellTimed_example =
    Reaches-AllWellTimed formats memory service outside "/nfs" memory-Contract (λ q w. refl)
      (λ path w. refl) (λ calc w. refl) empty taken taken-Reaches (λ key calc e. absurd (cc e))

abbrev phase_and_end : Option Calculation → Option (CalculationPhase × Option Time)
phase_and_end none = none
phase_and_end (some calc) = some (calc.phase, calc.status.completion_time)

-- The phase that the report wrote is overwritten, and the time of its completion stays.
failure_overwritten :
    phase_and_end (view taken Kind.calculations (at "calc-hash"))
    ≡ some (CalculationPhase.processing, some 1002)
unfolding find String-discrete Bulks.reconcile Bulks.assign_calculations_to_workers
    Bulks.new_calculation_for_bulk get_sorted_created_calculations new_calculation lookup input_hash
    modify Controller.reconcile Controller.receive
failure_overwritten = refl

-- The machine cannot write the files of the first calculation's steps, and its commands fail.
execute-Answers_example :
    Answers
      (execute formats memory machine service "/nfs" worker_1 a_calculation)
      (Ended formats memory machine service memory-Contract worker_1 a_calculation)
execute-Answers_example =
    execute-Answers formats memory machine service memory-Contract worker_1 a_calculation
      (λ dir command args. record { answer = λ m. tt }) "/nfs"

perform-Happened_example :
    Runs
      (Same memory memory-Contract (memory-Contract.view cluster))
      (perform "vega" "pool" memory (leaves "node-1"))
      (λ _ w.
        Happened "vega" "pool"
          (leaves "node-1")
          (abstraction "vega" "pool" (memory-Contract.view cluster))
          (abstraction "vega" "pool" (memory-Contract.view w)))
      (Same memory memory-Contract (memory-Contract.view cluster))
perform-Happened_example =
    perform-Happened "vega" "pool" memory memory-Contract (memory-Contract.view cluster)
      (leaves "node-1")

-- A machine on which `make` succeeds and every other command fails.
abbrev maker : Machine Memory
maker = record machine {
  run_command = λ d c args m.
      (ok (bytes "out", if c == "make" then none else some (external "exit status 1")), m);
}

abbrev started : Calculation
started = record a_calculation {
  spec = record (a_calculation.spec) {
    steps = new_step "make" [] ∷ done_step ∷ new_step "ls" [] ∷ [];
  };
}

abbrev waiting : Calculation
waiting = record started { phase = CalculationPhase.created }

abbrev assigned_to_me : Memory
assigned_to_me = record cluster {
  objects = elim [ Kind.calculations ↦ waiting ∷ [] | k ↦ cluster.objects k ];
}

abbrev quiet_traces : Traced Memory
quiet_traces = record { world = assigned_to_me; sent = [] }

abbrev received_at_once : Calculation → Action Memory (Unit {0})
received_at_once calc m = (ok tt, m)

reconcile-Executed_example :
    let taken =
      Controller.reconcile memory worker_1 received_at_once
        (key memory memory-Contract memory-Ready worker_1 waiting)
        assigned_to_me in
    (taken.0 ≡ ok tt)
    × (now : Time) × EndsWell memory memory-Contract memory-Ready worker_1
        (Controller.in_process now waiting)
        (sent_by formats memory maker service waiting "/tmp/calc" quiet_traces)
        taken.1
unfolding memory-Contract find String-discrete lookup
reconcile-Executed_example =
    reconcile-Executed formats memory memory-Contract maker service memory-Ready (λ d c args w. tt)
      (λ path b w. tt) worker_1 waiting "/tmp/calc" quiet_traces refl received_at_once
      (record { run = λ w h. h }) refl refl assigned_to_me (refl, (a_pool, refl, (_, refl)))

cluster-IsInOrder : IsInOrder (memory-Contract.view cluster)
unfolding memory-Contract find String-discrete lookup
cluster-IsInOrder = record {
  pools_usable = λ j p found.
      find-All Kind.pools IsUsable (cluster.objects Kind.pools) j p ((_, refl), tt) found;
  bulks_mapped = λ j b found.
      find-All Kind.bulks HasMap (cluster.objects Kind.bulks) j b ((_, refl), tt) found;
  bulks_named = λ j c found.
      find-All Kind.calculations (NamesBulk (memory-Contract.view cluster))
        (cluster.objects Kind.calculations) j c (calc_bulk, (calc_bulk, tt)) found;
}
  where
    calc_bulk :
        (b : String)
        → ◌≡◌ {A = Option String} (some "bulk") (some b)
        → (bulk : CalculationBulk) × (view cluster Kind.bulks (at b) ≡ some bulk)
    calc_bulk b e =
        let same : "bulk" ≡ b = cc e in
        subst (λ x. (bulk : CalculationBulk) × (view cluster Kind.bulks (at x) ≡ some bulk)) same
          (a_bulk, refl)

reconcile-Recovers_example :
    let after = Workers.reconcile memory (at "pod-1") cluster in
    (after.0 ≡ ok tt)
    × (view after.1 Kind.calculations (at "calc") ≡ none)
    × (bulk : CalculationBulk) × (view after.1 Kind.bulks (at "bulk") ≡ some bulk)
    × IsWaiting (index bulk.calculations "a")
unfolding memory-Contract find String-discrete lookup
reconcile-Recovers_example =
    reconcile-Recovers memory memory-Contract memory-Recovers (at "pod-1") a_calculation "bulk" "a"
      cluster cluster-IsInOrder refl refl (inr refl, refl) refl refl

reconcile-Delivers_example :
    let taken =
      Controller.reconcile memory worker_1 received_at_once
        (key memory memory-Contract memory-Ready worker_1 waiting)
        assigned_to_me in
    (taken.0 ≡ ok tt)
    × (now : Time) × IsDelivered memory memory-Contract memory-Ready worker_1 "bulk" "a" a_bulk
        bulk_calculations
        (Controller.in_process now waiting)
        (sent_by formats memory maker service waiting "/tmp/calc" quiet_traces)
        taken.1
unfolding memory-Contract find String-discrete lookup
reconcile-Delivers_example =
    reconcile-Delivers formats memory memory-Contract maker service memory-Ready (λ d c args w. tt)
      (λ path b w. tt) worker_1 waiting "/tmp/calc" quiet_traces refl "bulk" "a" a_bulk
      bulk_calculations received_at_once (record { run = λ w h. h }) (λ c w h. h) refl refl
      (record { in_bulk = refl; by_name = refl; of_no_factory = refl; no_post = refl }) refl
      assigned_to_me (refl, (a_pool, refl, (_, refl))) refl
