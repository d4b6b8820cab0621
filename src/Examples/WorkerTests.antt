-- ===== src/Examples/WorkerTests.antt =====
-- The theorems on the worker, its pipelines and the HTTP interface at concrete inputs.
use ccb_operator.Base.{String-discrete, false, ◌≡◌, refl, Option, none, some, List, [], ◌∷◌}
use ccb_operator.Base.Bytes.{bytes}
use ccb_operator.Go.{external, ok, caught_outcome}
use ccb_operator.Go.Rules.{Ends, Runs}
use ccb_operator.Api.{Kind, Obj, key_of}
use ccb_operator.Api.Meta.{ObjectKey}
use ccb_operator.ApiServer.{get_worker_pool_by_name, Unmarshal}
use ccb_operator.ApiServer.Twice.{get_worker_pool_by_name_twice}
use ccb_operator.ApiServer.Answers.{Answering}
use ccb_operator.ApiServer.Writes.{Accepting}
use ccb_operator.Examples.Memory.{write, create_in, delete_in, view}
use ccb_operator.Api.Workers.{WorkerState}
use ccb_operator.Cluster.Modify.{Modified, Same}
use ccb_operator.Util.Workers.{update_worker_status_in_pool}
use ccb_operator.Util.Workers.Update.{EntryUpdated, update_worker_status_in_pool-Modified}
use ccb_operator.Util.Calculations.{new_step}
use ccb_operator.Worker.Messages.{calc_error}
use ccb_operator.Worker.Controller.{update_calculation}
use ccb_operator.Worker.Controller.Reports.{Reported, update_calculation-Reported}
use ccb_operator.Worker.Pools.{pool_key, register, register_worker_in_pool, remove_worker_from_pool}
use ccb_operator.Worker.Pools.Membership.{
  Joined, LeftIn, register_worker_in_pool-Joined, remove_worker_from_pool-LeftIn,
}
use ccb_operator.Worker.Executor.{run_steps}
use ccb_operator.Worker.Executor.Steps.{Tells, run_steps-Tells}
use ccb_operator.Pipelines.Vega.{new_vega_pipeline, run}
use ccb_operator.Pipelines.Vega.Progress.{Passed, Stopped, run-Passed}
use ccb_operator.Pipelines.Text.{collapse}
use ccb_operator.Pipelines.Text.Spaces.{SingleSpaced, words, collapse_lem}
use ccb_operator.Examples.Memory.{Memory, memory, find, or_missing}
use ccb_operator.Examples.Contract.{memory-Contract}
use ccb_operator.Examples.Data.{
  formats, a_pool, a_calculation, cluster, service, machine, me, context, a_result, done_step, at,
}

run_steps-Tells_example :
    Runs
      (λ t. t.sent ≡ calc_error "other" ∷ [])
      (run_steps formats memory machine service a_calculation "/tmp/calc" 0
        (new_step "make" [] ∷ done_step ∷ new_step "ls" [] ∷ []))
      (λ _.
        Tells machine "/tmp/calc" "calc"
          (calc_error "other" ∷ [])
          (0 ∷ 2 ∷ [])
          (new_step "make" [] ∷ new_step "ls" [] ∷ []))
      (λ _. ⊥)
run_steps-Tells_example =
    run_steps-Tells formats memory machine service (λ d c args w. tt) (λ path b w. tt) a_calculation
      "/tmp/calc" 0 (new_step "make" [] ∷ done_step ∷ new_step "ls" [] ∷ [])
      (calc_error "other" ∷ [])

run-Passed_example :
    Runs
      (λ t. t.sent ≡ [])
      (run formats machine (new_vega_pipeline "calc" "/tmp/calc" a_calculation.spec.params))
      (λ _. Passed [] (0 ∷ 1 ∷ 2 ∷ []))
      (Stopped [] (0 ∷ 1 ∷ 2 ∷ []))
run-Passed_example =
    run-Passed formats machine (new_vega_pipeline "calc" "/tmp/calc" a_calculation.spec.params) []

update_calculation-Reported_example :
    Runs
      (Same memory memory-Contract (memory-Contract.view cluster))
      (update_calculation memory me a_result)
      (λ _ w.
        Modified memory memory-Contract Kind.calculations
          (Reported a_result)
          (at "calc")
          (memory-Contract.view cluster)
          (memory-Contract.view w))
      (Same memory memory-Contract (memory-Contract.view cluster))
update_calculation-Reported_example =
    update_calculation-Reported memory memory-Contract me a_result (memory-Contract.view cluster)

register_worker_in_pool-Joined_example :
    Runs
      (Same memory memory-Contract (memory-Contract.view cluster))
      (register_worker_in_pool memory me)
      (λ _ w.
        Modified memory memory-Contract Kind.pools
          (Joined me)
          (pool_key me)
          (memory-Contract.view cluster)
          (memory-Contract.view w))
      (Same memory memory-Contract (memory-Contract.view cluster))
register_worker_in_pool-Joined_example =
    register_worker_in_pool-Joined memory memory-Contract me (memory-Contract.view cluster)

remove_worker_from_pool-LeftIn_example :
    Runs
      (Same memory memory-Contract (memory-Contract.view cluster))
      (remove_worker_from_pool memory me)
      (λ _ w. LeftIn "node-3" (pool_key me) (memory-Contract.view cluster) (memory-Contract.view w))
      (Same memory memory-Contract (memory-Contract.view cluster))
remove_worker_from_pool-LeftIn_example =
    remove_worker_from_pool-LeftIn memory memory-Contract me (memory-Contract.view cluster)

abbrev ticked : Memory
ticked = record cluster { clock = 1001 }

abbrev joined : Memory
joined = (memory.update Kind.pools (register me 1000 a_pool) ticked).1

update_worker_status_in_pool-Modified_example :
    Runs
      (Same memory memory-Contract (memory-Contract.view cluster))
      (update_worker_status_in_pool memory "pool" "node-1" "vega" WorkerState.processing)
      (λ _ w.
        Modified memory memory-Contract Kind.pools
          (EntryUpdated "node-1" WorkerState.processing)
          (at "pool")
          (memory-Contract.view cluster)
          (memory-Contract.view w))
      (Same memory memory-Contract (memory-Contract.view cluster))
update_worker_status_in_pool-Modified_example =
    update_worker_status_in_pool-Modified memory memory-Contract "pool" "node-1" "vega"
      WorkerState.processing (memory-Contract.view cluster)

collapse_lem_example :
    SingleSpaced false (collapse (bytes "TEFF   9000.  GRAVITY"))
    × (words (collapse (bytes "TEFF   9000.  GRAVITY")) ≡ words (bytes "TEFF   9000.  GRAVITY"))
    × (SingleSpaced false (bytes "TEFF   9000.  GRAVITY")
        → collapse (bytes "TEFF   9000.  GRAVITY") ≡ bytes "TEFF   9000.  GRAVITY")
collapse_lem_example = collapse_lem (bytes "TEFF   9000.  GRAVITY")

get_calm_in :
    (k : Kind) (key : ObjectKey) (m : Memory) (r : Option (Obj k))
    → Ends (λ _ u. u.answers ≡ m.answers) (λ _. ⊥) (caught_outcome (or_missing r)) m
get_calm_in k key m none = refl
get_calm_in k key m (some o) = refl

abbrev answering : Answering memory context
answering = record {
  statuses = λ m. m.answers;
  json_ok = λ s p m. refl;
  statuses-json = λ s p m. refl;
  get_calm = λ k key m. get_calm_in k key m (find k (m.objects k) key);
  list_calm = λ k m. refl;
}

write-answers : (m : Memory) (k : Kind) (os : List (Obj k)) → (write m k os).answers ≡ m.answers
write-answers m Kind.calculations os = refl
write-answers m Kind.bulks os = refl
write-answers m Kind.factories os = refl
write-answers m Kind.pools os = refl
write-answers m Kind.pods os = refl

create_in-silent :
    (k : Kind) (o : Obj k) (m : Memory) (r : Option (Obj k))
    → Ends
        (λ _ u. u.answers ≡ m.answers)
        (λ _. ⊥)
        (caught_outcome (create_in m k o r).0)
        (create_in m k o r).1
create_in-silent k o m none = write-answers m k _
create_in-silent k o m (some x) = refl

delete_in-silent :
    (k : Kind) (o : Obj k) (m : Memory) (r : Option (Obj k))
    → Ends
        (λ _ u. u.answers ≡ m.answers)
        (λ _. ⊥)
        (caught_outcome (delete_in m k o r).0)
        (delete_in m k o r).1
delete_in-silent k o m none = refl
delete_in-silent k o m (some x) = write-answers m k _

abbrev accepting : Accepting memory context answering
accepting = record {
  read_silent = λ m. refl;
  create_silent = λ k o m. create_in-silent k o m (view m k (key_of k o));
  delete_silent = λ k o m. delete_in-silent k o m (view m k (key_of k o));
}

-- A body that cannot be unmarshalled leaves nothing behind.
abbrev unreadable : Unmarshal
unreadable s =
    (some (external "invalid character"), record { worker_pool = ""; calculations = none })

get_worker_pool_by_name_twice_example :
    ((get_worker_pool_by_name memory "vega" context cluster).0 ≡ ok tt)
    × ((get_worker_pool_by_name memory "vega" context cluster).1.answers ≡ 400 ∷ 500 ∷ [])
unfolding find String-discrete
get_worker_pool_by_name_twice_example =
    get_worker_pool_by_name_twice memory memory-Contract "vega" context answering cluster
      (external "not found") refl refl
