-- ===== src/Util/Workers/Update.antt =====
-- UpdateWorkerStatusInPool against a cluster that keeps the client's contract.
use ccb_operator.Base.{
  ◌≡◌, ◌≢◌, ◌∙◌, sym, subst, refl, arith, String, Option, none, some, true, ◌==◌,
}
use ccb_operator.Base.Maps.{GoMap, Entries, index, lookup, insert, lookup-insert}
use ccb_operator.Go.Rules.{Runs, Runs->>=, Runs-panics, Runs-pure, Runs-map}
use ccb_operator.Go.Success.{Succeeds}
use ccb_operator.Api.{Kind}
use ccb_operator.Api.Meta.{Time}
use ccb_operator.Api.Workers.{Worker, WorkerState, WorkerPool, zero_worker}
use ccb_operator.Cluster.{Cluster}
use ccb_operator.Cluster.View.{View}
use ccb_operator.Cluster.Laws.{Contract}
use ccb_operator.Cluster.Modify.{Modified, Runs-modify, Runs-now, Same}
use ccb_operator.Util.Workers.{touched, write_worker, update_worker_status_in_pool}

-- A pool whose map is not nil.
abbrev pub IsUsable : WorkerPool → Type 0
IsUsable pool = (workers : Entries Worker) × (pool.workers ≡ some workers)

-- The same pool, with one entry of its map written at some time.
abbrev pub EntryWritten :
    String → (Time → Option Worker → Worker) → WorkerPool → WorkerPool → Type 0
EntryWritten node change pool pool' =
    (now : Time) × (workers : Entries Worker) × (pool.workers ≡ some workers)
    × (pool'
        ≡ record pool { workers = some (insert node (change now (lookup node workers)) workers) })

-- What an update makes of a worker: the state and the time are new. For no worker it is the zero one.
abbrev pub IsUpdated : WorkerState → Time → Option Worker → Option Worker → Type 0
IsUpdated state now old none = ⊥
IsUpdated state now none (some new) = new ≡ zero_worker
IsUpdated state now (some old) (some new) =
    (new.state ≡ state)
    × (new.last_update_time ≡ some now)
    × (new.name ≡ old.name)
    × (new.node ≡ old.node)
    × (new.registered_time ≡ old.registered_time)
    × (new.calculations_processed ≡ old.calculations_processed)

-- The pool's map, which is not nil, has such an entry at the node, and all else is as it was.
abbrev pub EntryUpdated : String → WorkerState → WorkerPool → WorkerPool → Type 0
EntryUpdated node state pool pool' =
    (now : Time) × (workers : Entries Worker) × (pool.workers ≡ some workers)
    × IsUpdated state now (lookup node workers) (index pool'.workers node)
    × ((other : String) → other ≢ node → index pool'.workers other ≡ lookup other workers)
    × (pool' ≡ record pool { workers = pool'.workers })

touched-IsUpdated :
    (state : WorkerState) (now : Time) (old : Option Worker)
    → IsUpdated state now old (some (touched state now old))
touched-IsUpdated state now none = refl
touched-IsUpdated state now (some old) = (refl, refl, refl, refl, refl, refl)

pub EntryWritten-EntryUpdated :
    (node : String) (state : WorkerState) (pool pool' : WorkerPool)
    → EntryWritten node (touched state) pool pool'
    → EntryUpdated node state pool pool'
EntryWritten-EntryUpdated node state pool pool' (now, workers, has, made) =
    let new = touched state now (lookup node workers) in
    let at = λ (j : String). lookup-insert j node new workers in
    let here : (node == node) ≡ true = ground arith in
    let written : lookup node (insert node new workers) ≡ some new = at node ∙ rw here refl in
    subst (EntryUpdated node state pool) (sym made) (
      now,
      workers,
      has,
      subst (IsUpdated state now (lookup node workers)) (sym written)
          (touched-IsUpdated state now (lookup node workers)),
      (λ other differs. at other ∙ ground arith),
      refl,
    )

module _ (C : Cluster) (L : Contract C) where
  pub write_worker-EntryWritten :
      (node : String) (change : Time → Option Worker → Worker) (now : Time) (v : View)
      (pool : WorkerPool) (workers : GoMap Worker)
      → pool.workers ≡ workers
      → Runs
          (Same C L v)
          (write_worker C node (change now) pool)
          (λ pool' w. EntryWritten node change pool pool' × Same C L v w)
          (Same C L v)
  unfolding write_worker
  write_worker-EntryWritten node change now v pool none e = rw (e, write_worker) (Runs-panics _)
  write_worker-EntryWritten node change now v pool (some workers) e =
      rw (e, write_worker) (Runs-pure _ (λ w same. ((now, workers, refl, refl), same)))

  pub write_worker-Succeeds :
      (v : View) (node : String) (change : Option Worker → Worker) (pool : WorkerPool)
      → IsUsable pool
      → Succeeds
          (Same C L v)
          (write_worker C node change pool)
          (λ pool' w. ((pool'.meta ≡ pool.meta) × IsUsable pool') × Same C L v w)
  unfolding write_worker
  write_worker-Succeeds v node change pool (workers, has) =
      rw (has, write_worker) (Runs-pure _ λ w same. ((refl, (_, refl)), same))

  pub update_worker_status_in_pool-Written :
      (worker_pool node namespace : String) (state : WorkerState) (v : View)
      → Runs
          (Same C L v)
          (update_worker_status_in_pool C worker_pool node namespace state)
          (λ _ w.
            Modified C L Kind.pools
              (EntryWritten node (touched state))
              (record { namespace = namespace; name = worker_pool })
              v
              (L.view w))
          (Same C L v)
  unfolding update_worker_status_in_pool
  update_worker_status_in_pool-Written worker_pool node namespace state v =
      Runs-modify C L Kind.pools _ _ _ _ _
        (λ u pool.
          Runs->>= _ _ (Runs-now C L u)
            λ now. write_worker-EntryWritten node (touched state) now u pool pool.workers refl)
        v

  -- The update of a worker's state either leaves the cluster alone, or changes that pool alone: the
  -- entry at the node in its map, which was not nil. A worker that is there gets the state and the
  -- time, and at any other node the zero value is written.
  pub update_worker_status_in_pool-Modified :
      (worker_pool node namespace : String) (state : WorkerState) (v : View)
      → Runs
          (Same C L v)
          (update_worker_status_in_pool C worker_pool node namespace state)
          (λ _ w.
            Modified C L Kind.pools
              (EntryUpdated node state)
              (record { namespace = namespace; name = worker_pool })
              v
              (L.view w))
          (Same C L v)
  update_worker_status_in_pool-Modified worker_pool node namespace state v =
      Runs-map
        (λ _ w (pool, pool', found, written, after).
          (pool, pool', found, EntryWritten-EntryUpdated node state pool pool' written, after))
        (update_worker_status_in_pool-Written worker_pool node namespace state v)
