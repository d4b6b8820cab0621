-- ===== src/Worker/Pools.antt =====
-- pkg/worker/workerpools/workerpools.go: a worker registers itself in its pool, and leaves it.
pub mod Membership
pub mod Abstract
use ccb_operator.Base.{
  Bool, true, false, ◌==◌, if◌then◌else◌, String, ◌<>◌, Option, none, some, List, [], ◌∷◌,
}
use ccb_operator.Base.Maps.{GoMap, Entries, entries, lookup, insert, erase}
use ccb_operator.Go.{Action, pure, wrapping, ◌>>=◌, ◌>>◌}
use ccb_operator.Api.{Kind}
use ccb_operator.Api.Meta.{Time, ObjectKey, meta_key}
use ccb_operator.Api.Workers.{Worker, WorkerState, WorkerPool}
use ccb_operator.Cluster.{Cluster}
use ccb_operator.Cluster.Modify.{modify}
use ccb_operator.Events.{Event, create, update, delete, generic, Requests}
use ccb_operator.Worker.{Identity}

-- The methods of workerPoolsHandler.
unfoldable pub handle : String → Event WorkerPool → Requests
handle namespace (create o) = if namespace == o.meta.namespace then meta_key o.meta ∷ [] else []
handle namespace (update _ _) = []
handle namespace (delete _) = []
handle namespace (generic _) = []

-- The worker that registerWorkerInPool writes at its node.
unfoldable pub registered : Identity → Time → Option Worker → Worker
registered me now (some value) = record value {
  last_update_time = some now;
  state = WorkerState.available;
  name = me.hostname;
}
registered me now none = record {
  name = me.hostname;
  node = me.nodename;
  registered_time = some now;
  last_update_time = some now;
  calculations_processed = 0;
  state = WorkerState.available;
}

unfoldable pub register : Identity → Time → WorkerPool → WorkerPool
unfolding registered
register me now pool =
    let workers = entries pool.workers in
    record pool {
      workers = some (insert me.nodename (registered me now (lookup me.nodename workers)) workers);
    }

abbrev pub pool_key : Identity → ObjectKey
pool_key me = record { namespace = me.namespace; name = me.worker_pool }

abbrev pub pool_message : Identity → String
pool_message me = "failed to get workerpool " <> me.worker_pool <> " in namespace " <> me.namespace

module _ (C : Cluster) where
  unfoldable pub register_worker_in_pool : Identity → Action C.World (Unit {0})
  unfolding register
  register_worker_in_pool me =
      modify C Kind.pools (pool_key me) (pool_message me) "failed to update WorkerPool "
        λ pool. do now ← C.now; pure (register me now pool)

  -- A pool with a nil map is left as it is.
  unfoldable pub leave : String → WorkerPool → Action C.World (Unit {0})
  leave nodename pool = elim pool.workers [
    | none ↦ pure tt
    | some workers ↦
        wrapping ("failed to update WorkerPool " <> pool.meta.name)
          (C.update Kind.pools (record pool { workers = some (erase nodename workers) }))
  ]

  unfoldable pub remove_worker_from_pool : Identity → Action C.World (Unit {0})
  unfolding leave
  remove_worker_from_pool me =
      C.retry_on_conflict (Unit {0}) do
        pool ← wrapping (pool_message me) (C.get Kind.pools (pool_key me))
        leave me.nodename pool

  -- The request is not read: the worker's own pool is the one that is updated.
  unfoldable pub reconcile : Identity → ObjectKey → Action C.World (Unit {0})
  unfolding register_worker_in_pool
  reconcile me req = wrapping "couldn't register worker in worker pool" (register_worker_in_pool me)
