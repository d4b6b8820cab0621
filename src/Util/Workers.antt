-- ===== src/Util/Workers.antt =====
-- pkg/util/workers.go. `sort.Slice` and metav1.Time's `Before` are parameters: the first leaves
-- the order of ties open, and the second is not Go's own.
pub mod First
pub mod Update
use ccb_operator.Base.{
  Bool, true, false, if◌then◌else◌, String, ◌<>◌, Option, none, some, List, [], ◌∷◌, map,
}
use ccb_operator.Base.Maps.{GoMap, Entries, entries, lookup, insert}
use ccb_operator.Base.Sort.{text_le}
use ccb_operator.Go.{Action, pure, panics, ◌>>=◌}
use ccb_operator.Api.{Kind}
use ccb_operator.Api.Meta.{Time, ObjectKey}
use ccb_operator.Api.Bulks.{CalculationBulkState}
use ccb_operator.Api.Workers.{
  Worker, WorkerState, WorkerPool, RegisteredBulk, zero_worker, is_available,
}
use ccb_operator.Cluster.{Cluster}
use ccb_operator.Cluster.Modify.{modify}

pub record Slices : Type 1 where
  pub sort_slice : (A : Type 0) → (A → A → Bool) → List A → List A
  pub before : Option Time → Option Time → Bool

abbrev pub values {ℓ} : {V : Type ℓ} → Entries V → List V
values = map (λ e. e.1)

-- `a < b` on texts.
abbrev pub text_lt : String → String → Bool
text_lt a b = if text_le b a then false else true

unfoldable pub first_available : List Worker → Option Worker
first_available [] = none
first_available (worker ∷ workers) =
    let rest = first_available workers in if is_available worker.state then some worker else rest

abbrev is_available_bulk : CalculationBulkState → Bool
is_available_bulk CalculationBulkState.available = true
is_available_bulk _ = false

unfoldable pub available_bulks : List RegisteredBulk → List RegisteredBulk
available_bulks [] = []
available_bulks (bulk ∷ bulks) =
    let rest = available_bulks bulks in if is_available_bulk bulk.state then bulk ∷ rest else rest

module _ (S : Slices) where
  unfoldable pub sort_workers : GoMap Worker → List Worker
  sort_workers workers =
      S.sort_slice Worker (λ a b. text_lt a.node b.node)
        (S.sort_slice Worker (λ a b. S.before a.last_update_time b.last_update_time)
          (values (entries workers)))

  unfoldable pub get_first_available_worker : GoMap Worker → Option Worker
  unfolding first_available
  get_first_available_worker workers = first_available (sort_workers workers)

  -- The nil slice that is returned for no bulk is the empty list.
  unfoldable pub get_calculation_bulks_by_registered_time :
      GoMap RegisteredBulk → List RegisteredBulk
  unfolding available_bulks
  get_calculation_bulks_by_registered_time bulks =
      S.sort_slice RegisteredBulk (λ a b. S.before a.registered_time b.registered_time)
        (available_bulks (values (entries bulks)))

-- The worker that UpdateWorkerStatusInPool writes back: the zero value at a node that the pool
-- does not have.
abbrev pub touched : WorkerState → Time → Option Worker → Worker
touched state now none = zero_worker
touched state now (some worker) = record worker { last_update_time = some now; state = state }

module _ (C : Cluster) where
  -- The assignment to a nil map panics.
  unfoldable pub write_worker :
      String → (Option Worker → Worker) → WorkerPool → Action C.World WorkerPool
  write_worker nodename change pool = elim pool.workers [
    | none ↦ panics "assignment to entry in nil map"
    | some workers ↦ pure (record pool {
      workers = some (insert nodename (change (lookup nodename workers)) workers);
    })
  ]

  unfoldable pub update_worker_status_in_pool :
      String → String → String → WorkerState → Action C.World (Unit {0})
  unfolding write_worker
  update_worker_status_in_pool worker_pool nodename namespace state =
      modify C Kind.pools (record { namespace = namespace; name = worker_pool })
        ("failed to get workerpool " <> worker_pool <> " in namespace " <> namespace)
        "failed to update WorkerPool "
        λ pool. do now ← C.now; write_worker nodename (touched state now) pool
