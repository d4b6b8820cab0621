-- ===== src/Worker/Pools/Abstract.antt =====
-- A worker pool as what its users mean by it: at each node, a worker or none. The order of the
-- map's entries, the nil map and the object around it are forgotten.
use mathlib.Core.Path.{fun_ext}
use mathlib.Core.Logic.{ite}
use ccb_operator.Base.{
  String-discrete, ◌≡◌, refl, sym, ap, ◌∙◌, subst, inl, inr, ◌==◌, if◌then◌else◌, true, false,
  String, Option, none, some,
}
use ccb_operator.Base.Maps.{GoMap, Entries, entries, index, lookup, insert, lookup-insert}
use ccb_operator.Go.{Action}
use ccb_operator.Go.Rules.{Runs, Runs->>=, Runs-pure, Runs-map}
use ccb_operator.Api.{Kind, key_of}
use ccb_operator.Api.Meta.{Time, ObjectKey}
use ccb_operator.Api.Workers.{Worker, WorkerState, WorkerPool, zero_worker}
use ccb_operator.Cluster.{Cluster}
use ccb_operator.Cluster.View.{View, put, assign_in_self}
use ccb_operator.Cluster.Laws.{Contract}
use ccb_operator.Cluster.Modify.{Modified, Runs-modify, Runs-now, Same}
use ccb_operator.Util.Workers.{touched, update_worker_status_in_pool}
use ccb_operator.Util.Workers.Update.{
  EntryWritten, write_worker-EntryWritten, update_worker_status_in_pool-Written,
}
use ccb_operator.Dispatcher.Workers.{with_unknown_state, forget_worker}
use ccb_operator.Worker.{Identity}
use ccb_operator.Worker.Pools.{
  registered, register, register_worker_in_pool, remove_worker_from_pool,
}
use ccb_operator.Worker.Pools.Membership.{Left, LeftIn, remove_worker_from_pool-LeftIn}

abbrev pub Members : Type 0
Members = String → Option Worker

abbrev pub members : WorkerPool → Members
members pool node = index pool.workers node

-- The pool of a name, as a change of its members by a worker at a node.
abbrev pub at_node : String → Option Worker → Members → Members
at_node nodename worker m node = if node == nodename then worker else m node

-- The worker of a pod that joins at a node: one that is there keeps its history.
abbrev joined : (hostname nodename : String) → Time → Option Worker → Worker
joined hostname nodename now none = record {
  name = hostname;
  node = nodename;
  registered_time = some now;
  last_update_time = some now;
  calculations_processed = 0;
  state = WorkerState.available;
}
joined hostname nodename now (some worker) = record {
  name = hostname;
  node = worker.node;
  registered_time = worker.registered_time;
  last_update_time = some now;
  calculations_processed = worker.calculations_processed;
  state = WorkerState.available;
}

-- The worker in another state. A node without a worker gets the zero one.
abbrev changed : WorkerState → Time → Option Worker → Worker
changed state now none = zero_worker
changed state now (some worker) = record worker { state = state; last_update_time = some now }

-- The worker whose pod is gone. A node without a worker gets an unnamed one in the state unknown.
abbrev lost : Option Worker → Worker
lost none = record zero_worker { state = WorkerState.unknown }
lost (some worker) = record worker { state = WorkerState.unknown }

-- What happens to a pool: a worker of a pod registers at a node, leaves it, or changes its state,
-- and the dispatcher forgets the worker at a node whose pod is gone.
pub data PoolEvent : Type 0 where
  joins : (hostname nodename : String) → PoolEvent
  leaves : (nodename : String) → PoolEvent
  changes : (nodename : String) → WorkerState → PoolEvent
  is_lost : (nodename : String) → PoolEvent

module _ (namespace worker_pool : String) where
  abbrev identity : String → String → Identity
  identity hostname nodename = record {
    hostname = hostname;
    nodename = nodename;
    namespace = namespace;
    worker_pool = worker_pool;
  }

  abbrev key : ObjectKey
  key = record { namespace = namespace; name = worker_pool }

  -- What the event means, at a time.
  abbrev pub meaning : PoolEvent → Time → Members → Members
  meaning (joins hostname nodename) now m =
      at_node nodename (some (joined hostname nodename now (m nodename))) m
  meaning (leaves nodename) now m = at_node nodename none m
  meaning (changes nodename state) now m =
      at_node nodename (some (changed state now (m nodename))) m
  meaning (is_lost nodename) now m = at_node nodename (some (lost (m nodename))) m

  -- The code that does it.
  abbrev pub perform : (C : Cluster) → PoolEvent → Action C.World (Unit {0})
  perform C (joins hostname nodename) = register_worker_in_pool C (identity hostname nodename)
  perform C (leaves nodename) = remove_worker_from_pool C (identity "" nodename)
  perform C (changes nodename state) =
      update_worker_status_in_pool C worker_pool nodename namespace state
  perform C (is_lost nodename) = forget_worker C key nodename

  abbrev pub pool_members : Option WorkerPool → Option Members
  pool_members none = none
  pool_members (some pool) = some (members pool)

  -- The members of the pool in a view, if there is such a pool.
  abbrev pub abstraction : View → Option Members
  abstraction v = pool_members (v Kind.pools key)

  -- The pool is there, and its members are what the event makes of them.
  abbrev pub Happened : PoolEvent → Option Members → Option Members → Type 0
  Happened event before after =
      (now : Time) × (m : Members) × (before ≡ some m) × (after ≡ some (meaning event now m))

  registered-joined :
      (hostname nodename : String) (now : Time) (old : Option Worker)
      → registered (identity hostname nodename) now old ≡ joined hostname nodename now old
  unfolding registered
  registered-joined hostname nodename now none = refl
  registered-joined hostname nodename now (some old) = refl

  touched-changed :
      (state : WorkerState) (now : Time) (old : Option Worker)
      → changed state now old ≡ touched state now old
  touched-changed state now none = refl
  touched-changed state now (some old) = refl

  with_unknown_state-lost : (old : Option Worker) → lost old ≡ with_unknown_state old
  with_unknown_state-lost none = refl
  with_unknown_state-lost (some old) = refl

  index-entries : (m : GoMap Worker) (k : String) → lookup k (entries m) ≡ index m k
  unfolding lookup
  index-entries none k = refl
  index-entries (some m) k = refl

  members-insert :
      (node : String) (worker : Worker) (workers : Entries Worker) (pool : WorkerPool)
      → entries pool.workers ≡ workers
      → members (record pool { workers = some (insert node worker workers) })
        ≡ at_node node (some worker) (members pool)
  members-insert node worker workers pool e =
      fun_ext
        λ j. lookup-insert j node worker workers ∙ rw (sym (index-entries pool.workers j), e) refl

  module _ (C : Cluster) (L : Contract C) where
    -- What a change of the stored pool is to its members.
    Modified-Happened :
        (event : PoolEvent) (R : WorkerPool → WorkerPool → Type 0)
        → ((p p' : WorkerPool)
            → R p p'
            → (p'.meta ≡ p.meta) × (now : Time) × (members p' ≡ meaning event now (members p)))
        → (v u : View) (w : C.World) → L.view w ≡ v
        → Modified C L Kind.pools R key v u
        → Happened event (abstraction v) (abstraction u)
    Modified-Happened event R step v u w same (p, p', found, r, after) =
        let (meta, now, means) = step p p' r in
        (now, members p, ap pool_members found, ap pool_members (stored meta) ∙ ap some means)
      where
        stored : p'.meta ≡ p.meta → u Kind.pools key ≡ some p'
        stored meta =
            let at : key_of Kind.pools p' ≡ key =
              ap (λ m. record { namespace = m.namespace; name = m.name }) meta
              ∙ L.view-key w Kind.pools key p
                  (subst (λ x. x Kind.pools key ≡ some p) (sym same) found) in
            ap (λ x. x Kind.pools key) after
            ∙ subst (λ j. put v Kind.pools p' Kind.pools j ≡ some p') at
                (assign_in_self v Kind.pools (key_of Kind.pools p') (some p'))

    -- The map of a pool with one entry written.
    written :
        (event : PoolEvent) (node : String) (change : Time → Option Worker → Worker)
        → ((now : Time) (m : Members)
            → meaning event now m ≡ at_node node (some (change now (m node))) m)
        → (p p' : WorkerPool) → EntryWritten node change p p'
        → (p'.meta ≡ p.meta) × (now : Time) × (members p' ≡ meaning event now (members p))
    written event node change means p p' (now, workers, e, made) = (
      ap (λ x. x.meta) made,
      now,
      ap members made
          ∙ members-insert node (change now (lookup node workers)) workers p (rw e refl)
          ∙ rw (means now (members p), e) refl,
    )

    registers :
        (hostname nodename : String) (p p' : WorkerPool)
        → (now : Time) × (p' ≡ register (identity hostname nodename) now p)
        → (p'.meta ≡ p.meta)
          × (now : Time) × (members p' ≡ meaning (joins hostname nodename) now (members p))
    unfolding register
    registers hostname nodename p p' (now, made) =
        let me = identity hostname nodename in
        (
          ap (λ x. x.meta) made,
          now,
          ap members made
              ∙ members-insert nodename (registered me now (lookup nodename (entries p.workers)))
                  (entries p.workers) p refl
              ∙ rw (index-entries p.workers nodename) (
                  ap (λ x. at_node nodename (some x) (members p))
                    (registered-joined hostname nodename now (index p.workers nodename))),
        )

    Left-members :
        (node : String) (p p' : WorkerPool)
        → Left node p p'
        → members p' ≡ at_node node none (members p)
    Left-members node p p' (gone, others, _) = fun_ext λ j. at_each j (String-discrete j node)
      where
        at_each :
            (j : String) (d : Dec (j ≡ node))
            → index p'.workers j ≡ (if ite d true false then none else index p.workers j)
        at_each j (yes e) = ap (index p'.workers) e ∙ gone
        at_each j (no n) = others j n

    module _ (v : View) where
      -- From what the code does to the stored pool.
      Runs-Happened :
          (event : PoolEvent) (R : WorkerPool → WorkerPool → Type 0)
          → ((p p' : WorkerPool)
              → R p p'
              → (p'.meta ≡ p.meta) × (now : Time) × (members p' ≡ meaning event now (members p)))
          → (m : Action C.World (Unit {0}))
          → Runs (Same C L v) m (λ _ w. Modified C L Kind.pools R key v (L.view w)) (Same C L v)
          → Runs
              (Same C L v)
              m
              (λ _ w. Happened event (abstraction v) (abstraction (L.view w)))
              (Same C L v)
      Runs-Happened event R step m runs = record {
        run = λ w same.
            (Runs-map (λ _ u h. Modified-Happened event R step v (L.view u) w same h) runs).run w
              same;
      }

      leaves-Happened :
          (nodename : String)
          → Runs
              (Same C L v)
              (perform C (leaves nodename))
              (λ _ w. Happened (leaves nodename) (abstraction v) (abstraction (L.view w)))
              (Same C L v)
      leaves-Happened nodename = record {
        run = λ w same.
            (Runs-map (λ _ u h. left w same (L.view u) h)
                (remove_worker_from_pool-LeftIn C L (identity "" nodename) v)).run
              w same;
      }
        where
          left :
              (w : C.World)
              → L.view w ≡ v
              → (u : View) → LeftIn nodename key v u
              → Happened (leaves nodename) (abstraction v) (abstraction u)
          left w same u (p, p', found, gone, inl after) =
              Modified-Happened (leaves nodename) (Left nodename)
                (λ o o' h. (h.2, 0, Left-members nodename o o' h)) v u w same
                (p, p', found, gone, after)
          left w same u (p, p', found, gone, inr (after, e)) = (
            0,
            members p,
            ap pool_members found,
            ap abstraction after
                ∙ ap pool_members found
                ∙ ap some (ap members (sym e) ∙ Left-members nodename p p' gone),
          )

      -- Each of the program's changes of a pool either fails and changes nothing in the cluster, or
      -- the pool is there, and its members are afterwards what the event means: the worker at the
      -- event's node is registered, gone, in the new state, or in the state unknown, and those at
      -- all other nodes are as they were.
      pub perform-Happened :
          (event : PoolEvent)
          → Runs
              (Same C L v)
              (perform C event)
              (λ _ w. Happened event (abstraction v) (abstraction (L.view w)))
              (Same C L v)
      unfolding register_worker_in_pool forget_worker
      perform-Happened (joins hostname nodename) =
          Runs-Happened (joins hostname nodename) _ (registers hostname nodename) _ (
            Runs-modify C L Kind.pools key _ _ _
              (λ p p'. (now : Time) × (p' ≡ register (identity hostname nodename) now p))
              (λ u p.
                Runs->>= _ _ (Runs-now C L u) λ now. Runs-pure _ λ w same. ((now, refl), same))
              v)
      perform-Happened (leaves nodename) = leaves-Happened nodename
      perform-Happened (changes nodename state) =
          Runs-Happened (changes nodename state) _
            (written (changes nodename state) nodename (touched state) λ now m.
              ap (λ x. at_node nodename (some x) m) (touched-changed state now (m nodename)))
            _ (update_worker_status_in_pool-Written C L worker_pool nodename namespace state v)
      perform-Happened (is_lost nodename) =
          Runs-Happened (is_lost nodename) _
            (written (is_lost nodename) nodename (λ now. with_unknown_state)
              λ now m. ap (λ x. at_node nodename (some x) m) (with_unknown_state-lost (m nodename)))
            _
            (Runs-modify C L Kind.pools key _ _ _ _
              (λ u p.
                write_worker-EntryWritten C L nodename (λ now. with_unknown_state) 0 u p p.workers
                  refl)
              v)
