-- ===== src/Worker/Pools/Membership.antt =====
-- What joining and leaving do to the map of a pool.
use ccb_operator.Base.{◌≡◌, refl, sym, ◌≢◌, ◌⊎◌, String, Option, none, some, arith, inl, inr}
use ccb_operator.Base.Maps.{
  GoMap, Entries, entries, index, lookup, erase, lookup-insert, lookup-erase,
}
use ccb_operator.Go.Rules.{Runs, Runs->>=, Runs-wrapping, Runs_given, Runs-pure, Runs-map}
use ccb_operator.Api.{Kind}
use ccb_operator.Api.Meta.{Time, ObjectKey}
use ccb_operator.Api.Workers.{Worker, WorkerState, WorkerPool}
use ccb_operator.Cluster.{Cluster}
use ccb_operator.Cluster.View.{View, put}
use ccb_operator.Cluster.Laws.{Contract}
use ccb_operator.Cluster.Modify.{
  Modified, Runs-modify, Runs-now, Runs-get, Runs-update, Runs-retry, Same,
}
use ccb_operator.Worker.{Identity}
use ccb_operator.Worker.Pools.{
  registered, register, pool_key, register_worker_in_pool, leave, remove_worker_from_pool,
}

-- A worker that was there keeps its node, its registration and its count.
abbrev pub KeepsHistory : Identity → Time → Option Worker → Worker → Type 0
KeepsHistory me now none worker =
    (worker.node ≡ me.nodename)
    × (worker.registered_time ≡ some now)
    × (worker.calculations_processed ≡ 0)
KeepsHistory me now (some old) worker =
    (worker.node ≡ old.node)
    × (worker.registered_time ≡ old.registered_time)
    × (worker.calculations_processed ≡ old.calculations_processed)

-- The worker of this pod is there and available, and was heard of at `now`.
abbrev pub IsPresent : Identity → Time → Option Worker → Worker → Type 0
IsPresent me now before worker =
    (worker.name ≡ me.hostname)
    × (worker.state ≡ WorkerState.available)
    × (worker.last_update_time ≡ some now)
    × KeepsHistory me now before worker

registered-IsPresent :
    (me : Identity) (now : Time) (before : Option Worker)
    → IsPresent me now before (registered me now before)
unfolding registered
registered-IsPresent me now none = (refl, refl, refl, (refl, refl, refl))
registered-IsPresent me now (some old) = (refl, refl, refl, (refl, refl, refl))

-- The pool with the worker at its node, and all other nodes as they were.
abbrev pub Joined : Identity → WorkerPool → WorkerPool → Type 0
Joined me pool pool' =
    (now : Time) × (worker : Worker) × (index pool'.workers me.nodename ≡ some worker)
    × IsPresent me now (index pool.workers me.nodename) worker
    × ((node : String) → node ≢ me.nodename → index pool'.workers node ≡ index pool.workers node)
    × (pool'.meta ≡ pool.meta)

index-entries : (m : GoMap Worker) (k : String) → lookup k (entries m) ≡ index m k
unfolding lookup
index-entries none k = refl
index-entries (some m) k = refl

register-Joined :
    (me : Identity) (now : Time) (pool : WorkerPool) → Joined me pool (register me now pool)
unfolding register
register-Joined me now pool =
    let workers = entries pool.workers in
    let worker = registered me now (lookup me.nodename workers) in
    (
      now,
      worker,
      rw (lookup-insert me.nodename me.nodename worker workers) (ground arith),
      rw (index-entries pool.workers me.nodename) (registered-IsPresent me now _),
      λ node other.
          rw (lookup-insert node me.nodename worker workers, sym (index-entries pool.workers node))
            (ground arith),
      refl,
    )

module _ (C : Cluster) (L : Contract C) (me : Identity) (v : View) where
  -- Registering either leaves the cluster alone, or changes the worker's own pool alone: the
  -- worker is there and available under its pod's name, and heard of at some time. One that was
  -- there keeps its node, registration and count; other nodes are as they were.
  pub register_worker_in_pool-Joined :
      Runs
        (Same C L v)
        (register_worker_in_pool C me)
        (λ _ w. Modified C L Kind.pools (Joined me) (pool_key me) v (L.view w))
        (Same C L v)
  unfolding register_worker_in_pool
  register_worker_in_pool-Joined =
      Runs-modify C L Kind.pools _ _ _ _ _
        (λ u pool.
          Runs->>= _ _ (Runs-now C L u)
            λ now. Runs-pure _ (λ w same. (register-Joined me now pool, same)))
        v

-- The pool without a worker at a node, and all other nodes as they were.
abbrev pub Left : String → WorkerPool → WorkerPool → Type 0
Left node pool pool' =
    (index pool'.workers node ≡ none)
    × ((other : String) → other ≢ node → index pool'.workers other ≡ index pool.workers other)
    × (pool'.meta ≡ pool.meta)

-- The pool at `key` was there, and it is now one that the node has left.
abbrev pub LeftIn : String → ObjectKey → View → View → Type 0
LeftIn node key v v' =
    (pool : WorkerPool) × (pool' : WorkerPool) × (v Kind.pools key ≡ some pool)
    × Left node pool pool'
    × ((v' ≡ put v Kind.pools pool') ⊎ ((v' ≡ v) × (pool' ≡ pool)))

erase-Left :
    (node : String) (pool : WorkerPool) (workers : Entries Worker)
    → pool.workers ≡ some workers
    → Left node pool (record pool { workers = some (erase node workers) })
erase-Left node pool workers e = (
  rw (lookup-erase node node workers) (ground arith),
  λ other differs. rw (lookup-erase other node workers, e) (ground arith),
  refl,
)

module _ (C : Cluster) (L : Contract C) (me : Identity) (v : View) where
  leave-LeftIn :
      (pool : WorkerPool) (workers : GoMap Worker)
      → v Kind.pools (pool_key me) ≡ some pool
      → pool.workers ≡ workers
      → Runs
          (Same C L v)
          (leave C me.nodename pool)
          (λ _ w. LeftIn me.nodename (pool_key me) v (L.view w))
          (Same C L v)
  unfolding leave
  leave-LeftIn pool none found e =
      rw (e, leave)
        (Runs-pure _
          λ w same. (pool, pool, found, (rw e refl, λ other _. refl, refl), inr (same, refl)))
  leave-LeftIn pool (some workers) found e =
      rw (e, leave)
        (Runs-wrapping _ (
          Runs-map (λ _ w after. (pool, _, found, erase-Left me.nodename pool workers e, inl after))
            (Runs-update C L v Kind.pools _)))

  -- Leaving either fails and changes nothing, or the pool was there, and afterwards the node is
  -- not in it and all other nodes are as they were.
  pub remove_worker_from_pool-LeftIn :
      Runs
        (Same C L v)
        (remove_worker_from_pool C me)
        (λ _ w. LeftIn me.nodename (pool_key me) v (L.view w))
        (Same C L v)
  unfolding remove_worker_from_pool
  remove_worker_from_pool-LeftIn =
      Runs-retry C L (λ u. u ≡ v)
        (Runs->>= _ _ (Runs-wrapping _ (Runs-get C L v Kind.pools (pool_key me))) λ pool.
          Runs_given (v Kind.pools (pool_key me) ≡ some pool) (λ w p. p)
            λ found. leave-LeftIn pool pool.workers found refl)
