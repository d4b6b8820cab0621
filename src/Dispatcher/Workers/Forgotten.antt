-- ===== src/Dispatcher/Workers/Forgotten.antt =====
-- What becomes of the pools when a pod is gone, over a cluster whose calls succeed.
use ccb_operator.Base.{
  ◌≡◌, refl, sym, ◌∙◌, ap, subst, ◌==◌, String, some, List, [], ◌∷◌, All, inl, inr, Bool-cases,
}
use ccb_operator.Base.Maps.{Entries, entries}
use ccb_operator.Go.{Action, ok}
use ccb_operator.Go.Rules.{Runs->>=, Runs_given, Runs-map, Runs-pure, Runs-caught_either}
use ccb_operator.Go.Success.{Succeeds, Succeeds_of_ok}
use ccb_operator.Api.{Kind, key_of}
use ccb_operator.Api.Meta.{ObjectKey, meta_key}
use ccb_operator.Api.Workers.{Worker, WorkerPool}
use ccb_operator.Cluster.{Cluster}
use ccb_operator.Cluster.View.{View, put}
use ccb_operator.Cluster.Laws.{Contract}
use ccb_operator.Cluster.Keeps.{assign_all, assign_there}
use ccb_operator.Cluster.Ready.{Ready, modify-Succeeds}
use ccb_operator.Util.Workers.Update.{IsUsable, write_worker-Succeeds}
use ccb_operator.Dispatcher.Workers.{
  with_unknown_state, forget_worker, forget_in_pool, forget_in_pools, reconcile_worker_in_pools,
}

module _ (C : Cluster) (L : Contract C) (ready : Ready C L)
    (list_ok : (w : C.World) → (pools : List WorkerPool) × ((C.list Kind.pools w).0 ≡ ok pools))
    (pod : String) (v : View) where
  -- No pool is lost, each has a map, and the bulks and calculations are as before.
  pub record Forgets (u : View) : Type 0 where
    pub pools_usable : (j : ObjectKey) (p : WorkerPool) → u Kind.pools j ≡ some p → IsUsable p
    pub pools_there :
        (j : ObjectKey) (p : WorkerPool)
        → v Kind.pools j ≡ some p
        → (p' : WorkerPool) × (u Kind.pools j ≡ some p')
    pub bulks : u Kind.bulks ≡ v Kind.bulks
    pub calculations : u Kind.calculations ≡ v Kind.calculations

  put-Forgets : (u : View) (p : WorkerPool) → IsUsable p → Forgets u → Forgets (put u Kind.pools p)
  put-Forgets u p usable h = record {
    pools_usable = assign_all IsUsable (u Kind.pools) (key_of Kind.pools p) p usable h.pools_usable;
    pools_there = λ j q found.
        let (q', still) = h.pools_there j q found in
        assign_there (u Kind.pools) (key_of Kind.pools p) j p q' still;
    bulks = h.bulks;
    calculations = h.calculations;
  }

  abbrev Through : Action C.World (Unit {0}) → Type 0
  Through m = Succeeds (λ w. Forgets (L.view w)) m (λ _ w. Forgets (L.view w))

  forget_worker-Forgets :
      (j : ObjectKey) (p : WorkerPool) (node : String)
      → v Kind.pools j ≡ some p
      → Through (forget_worker C j node)
  unfolding forget_worker
  forget_worker-Forgets j p node stored = record {
    run = λ w h.
        let (p', found) = h.pools_there j p stored in
        (Runs-map
            (λ _ u (p2, (same, usable), after).
              subst Forgets (sym after) (put-Forgets (L.view w) p2 usable h))
            (modify-Succeeds C L ready (L.view w) Kind.pools j _ _ _ p'
              (λ p2. (p2.meta ≡ p'.meta) × IsUsable p2) found
              (λ p2 r. ap meta_key r.0 ∙ L.view-key w Kind.pools j p' found)
              (write_worker-Succeeds C L (L.view w) node with_unknown_state p'
                (h.pools_usable j p' found)))).run
          w refl;
  }

  forget_in_pool-Forgets :
      (p : WorkerPool) (workers : Entries Worker)
      → v Kind.pools (meta_key p.meta) ≡ some p
      → Through (forget_in_pool C (meta_key p.meta) pod workers)
  unfolding forget_in_pool
  forget_in_pool-Forgets p [] stored = Runs-pure _ λ w h. h
  forget_in_pool-Forgets p ((node, worker) ∷ workers) stored =
      let rest = forget_in_pool-Forgets p workers stored in
      elim (Bool-cases (worker.name == pod)) [
        | inl e ↦
            rw e (Runs->>= _ _ (forget_worker-Forgets (meta_key p.meta) p node stored) λ _. rest)
        | inr e ↦ rw e rest
      ]

  forget_in_pools-Forgets :
      (pools : List WorkerPool)
      → All (λ p. v Kind.pools (meta_key p.meta) ≡ some p) pools
      → Through (forget_in_pools C pod pools)
  unfolding forget_in_pools
  forget_in_pools-Forgets [] h = Runs-pure _ λ w f. f
  forget_in_pools-Forgets (p ∷ pools) (stored, h) =
      Runs->>= _ _ (forget_in_pool-Forgets p (entries p.workers) stored)
        λ _. forget_in_pools-Forgets pools h

  list-Forgets :
      ((j : ObjectKey) (p : WorkerPool) → v Kind.pools j ≡ some p → IsUsable p)
      → Succeeds
          (λ w. L.view w ≡ v)
          (C.list Kind.pools)
          (λ pools w. All (λ p. v Kind.pools (meta_key p.meta) ≡ some p) pools × Forgets (L.view w))
  list-Forgets usable = Succeeds_of_ok λ w same.
      let (pools, e) = list_ok w in
      (
        pools,
        e,
        (
          subst (λ u. All (λ p. u Kind.pools (meta_key p.meta) ≡ some p) pools) same
              (L.list_stored Kind.pools w pools e),
          subst Forgets (sym (L.view-list Kind.pools w ∙ same)) (record {
            pools_usable = usable;
            pools_there = λ j p found. (p, found);
            bulks = refl;
            calculations = refl;
          }),
        ),
      )

  -- From a cluster whose pools all have a map.
  pub reconcile_worker_in_pools-Forgets :
      ((j : ObjectKey) (p : WorkerPool) → v Kind.pools j ≡ some p → IsUsable p)
      → Succeeds (λ w. L.view w ≡ v) (reconcile_worker_in_pools C pod) (λ _ w. Forgets (L.view w))
  unfolding reconcile_worker_in_pools
  reconcile_worker_in_pools-Forgets usable =
      Runs->>= _ _ (Runs-caught_either (list-Forgets usable)) (elim [
        | inl e ↦ record { run = λ w n. absurd n }
        | inr pools ↦
            Runs_given (All (λ p. v Kind.pools (meta_key p.meta) ≡ some p) pools) (λ w p. p)
              λ listed. forget_in_pools-Forgets pools listed
      ])
