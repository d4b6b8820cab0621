-- ===== src/Worker/Controller/Received.antt =====
-- What the result updater's turns do over a cluster whose calls succeed.
use ccb_operator.Base.{◌≡◌, refl, sym, ◌∙◌, ap, subst, String, some}
use ccb_operator.Go.{Action, or_panic}
use ccb_operator.Go.Success.{Succeeds, Succeeds-ignored}
use ccb_operator.Go.Rules.{Runs->>=, Runs-map, Runs-pure}
use ccb_operator.Api.{Kind}
use ccb_operator.Api.Meta.{Time, ObjectKey, meta_key}
use ccb_operator.Api.Calculations.{Calculation}
use ccb_operator.Api.Workers.{WorkerState, WorkerPool}
use ccb_operator.Cluster.{Cluster}
use ccb_operator.Cluster.View.{View, put, assign_in_self}
use ccb_operator.Cluster.Laws.{Contract}
use ccb_operator.Cluster.Modify.{modify, Same}
use ccb_operator.Cluster.Ready.{Ready, modify-Succeeds, now-Succeeds}
use ccb_operator.Util.Workers.Update.{IsUsable, write_worker-Succeeds}
use ccb_operator.Util.Workers.{touched, update_worker_status_in_pool}
use ccb_operator.Worker.{Identity}
use ccb_operator.Worker.Messages.{Result, step_result, calc_error}
use ccb_operator.Worker.Controller.{
  in_failure, with_result, mark_worker, update_error_calculation, update_calculation, receive,
}

module _ (C : Cluster) (L : Contract C) (ready : Ready C L) (me : Identity) (name : String) where
  abbrev pub key : ObjectKey
  key = record { namespace = me.namespace; name = name }

  abbrev pool_key : ObjectKey
  pool_key = record { namespace = me.namespace; name = me.worker_pool }

  abbrev pub HasPool : View → Type 0
  HasPool v = (pool : WorkerPool) × (v Kind.pools pool_key ≡ some pool) × IsUsable pool

  -- The calculation is stored under the name, and the worker's pool is stored and has a map.
  abbrev pub Holds : Calculation → View → Type 0
  Holds calc v = (v Kind.calculations key ≡ some calc) × HasPool v

  Holds-key : (calc : Calculation) (w : C.World) → Holds calc (L.view w) → meta_key calc.meta ≡ key
  Holds-key calc w (stored, rest) = L.view-key w Kind.calculations key calc stored

  Holds-put :
      (calc calc' : Calculation) (v u : View)
      → meta_key calc'.meta ≡ key
      → u ≡ put v Kind.calculations calc'
      → Holds calc v
      → Holds calc' u
  Holds-put calc calc' v u same after (stored, (pool, kept, usable)) = (
    ap (λ x. x Kind.calculations key) after
        ∙ subst (λ j. put v Kind.calculations calc' Kind.calculations j ≡ some calc') same
            (assign_in_self v Kind.calculations (meta_key calc'.meta) (some calc')),
    (pool, ap (λ x. x Kind.pools pool_key) after ∙ kept, usable),
  )

  Holds-put_pool :
      (calc : Calculation) (pool : WorkerPool) (v u : View)
      → meta_key pool.meta ≡ pool_key
      → IsUsable pool
      → u ≡ put v Kind.pools pool
      → Holds calc v
      → Holds calc u
  Holds-put_pool calc pool v u same usable after (stored, rest) = (
    ap (λ x. x Kind.calculations key) after ∙ stored,
    (
      pool,
      ap (λ x. x Kind.pools pool_key) after
          ∙ subst (λ j. put v Kind.pools pool Kind.pools j ≡ some pool) same
              (assign_in_self v Kind.pools (meta_key pool.meta) (some pool)),
      usable,
    ),
  )

  -- A change of the calculation that keeps its metadata.
  pub modify-Holds :
      (get_message update_message : String) (change : Calculation → Action C.World Calculation)
      (calc : Calculation) (R : Calculation → Type 0)
      → ((calc' : Calculation) → R calc' → calc'.meta ≡ calc.meta)
      → ((v : View) → Succeeds (Same C L v) (change calc) (λ calc' w. R calc' × Same C L v w))
      → Succeeds
          (λ w. Holds calc (L.view w))
          (modify C Kind.calculations key get_message update_message change)
          (λ _ w. (calc' : Calculation) × R calc' × Holds calc' (L.view w))
  modify-Holds get_message update_message change calc R keeps changes = record {
    run = λ w holds.
        let named = λ (calc' : Calculation) (r : R calc').
          ap meta_key (keeps calc' r) ∙ Holds-key calc w holds in
        (Runs-map
            (λ _ u (calc', r, after).
              (calc', r, Holds-put calc calc' (L.view w) (L.view u) (named calc' r) after holds))
            (modify-Succeeds C L ready (L.view w) Kind.calculations key get_message update_message
              change calc R holds.0 named (changes (L.view w)))).run
          w refl;
  }

  update_calculation-Succeeds :
      (r : Result) (calc calc' : Calculation)
      → r.calc_name ≡ name
      → with_result r calc ≡ some calc'
      → calc'.meta ≡ calc.meta
      → Succeeds
          (λ w. Holds calc (L.view w))
          (update_calculation C me r)
          (λ _ w. Holds calc' (L.view w))
  unfolding update_calculation
  update_calculation-Succeeds r calc calc' named result kept =
      Runs-map (λ _ w (c, e, holds). subst (λ x. Holds x (L.view w)) e holds)
        (subst
          (λ n.
            Succeeds (λ w. Holds calc (L.view w))
              (modify C Kind.calculations (record { namespace = me.namespace; name = n })
                "failed to get the calculation" "failed to update calculation "
                λ c. or_panic (with_result r c) "index out of range")
              (λ _ w. (c : Calculation) × (c ≡ calc') × Holds c (L.view w)))
          (sym named)
          (modify-Holds _ _ _ calc (λ c. c ≡ calc') (λ c e. ap (λ x. x.meta) e ∙ kept)
            λ v. rw result (Runs-pure _ λ w same. (refl, same))))

  update_error_calculation-Succeeds :
      (calc : Calculation)
      → Succeeds
          (λ w. Holds calc (L.view w))
          (update_error_calculation C me name)
          (λ _ w. (now : Time) × Holds (in_failure now calc) (L.view w))
  unfolding update_error_calculation in_failure
  update_error_calculation-Succeeds calc =
      Runs-map (λ _ w (calc', (now, e), holds). (now, subst (λ c. Holds c (L.view w)) e holds))
        (modify-Holds _ _ _ calc (λ calc'. (now : Time) × (calc' ≡ in_failure now calc))
          (λ calc' (now, e). ap (λ c. c.meta) e)
          λ v.
            Runs->>= _ _ (now-Succeeds C L ready v)
              λ now. Runs-pure _ λ w same. ((now, refl), same))

  pub mark_worker-Succeeds :
      (state : WorkerState) (calc : Calculation)
      → Succeeds
          (λ w. Holds calc (L.view w))
          (mark_worker C me state)
          (λ _ w. Holds calc (L.view w))
  unfolding mark_worker update_worker_status_in_pool
  mark_worker-Succeeds state calc = record {
    run = λ w (stored, (pool, pooled, (workers, has))).
        let named = L.view-key w Kind.pools pool_key pool pooled in
        (Runs-map
            (λ _ u (pool', (same, usable), after).
              Holds-put_pool calc pool' (L.view w) (L.view u) (ap meta_key same ∙ named) usable
                after (stored, (pool, pooled, (workers, has))))
            (modify-Succeeds C L ready (L.view w) Kind.pools pool_key _ _ _ pool
              (λ pool'. (pool'.meta ≡ pool.meta) × IsUsable pool') pooled
              (λ pool' p. ap meta_key p.0 ∙ named)
              (Runs->>= _ _ (now-Succeeds C L ready (L.view w)) λ now.
                write_worker-Succeeds C L (L.view w) me.nodename (touched state now) pool
                  (workers, has)))).run
          w refl;
  }

  pub receive_result-Succeeds :
      (r : Result) (calc calc' : Calculation)
      → r.calc_name ≡ name
      → with_result r calc ≡ some calc'
      → calc'.meta ≡ calc.meta
      → Succeeds
          (λ w. Holds calc (L.view w))
          (receive C me (step_result r))
          (λ _ w. Holds calc' (L.view w))
  unfolding receive
  receive_result-Succeeds r calc calc' named result kept =
      Succeeds-ignored _ _ (update_calculation-Succeeds r calc calc' named result kept)
        (Runs-pure _ λ w h. h)

  pub receive_error-Succeeds :
      (n : String) (calc : Calculation)
      → n ≡ name
      → Succeeds
          (λ w. Holds calc (L.view w))
          (receive C me (calc_error n))
          (λ _ w. (now : Time) × Holds (in_failure now calc) (L.view w))
  unfolding receive
  receive_error-Succeeds n calc named =
      Succeeds-ignored _ _
        (subst
          (λ x.
            Succeeds (λ w. Holds calc (L.view w)) (update_error_calculation C me x)
              (λ _ w. (now : Time) × Holds (in_failure now calc) (L.view w)))
          (sym named) (update_error_calculation-Succeeds calc))
        (Succeeds-ignored _ _ available-Succeeds (Runs-pure _ λ w h. h))
    where
      available-Succeeds :
          Succeeds
            (λ w. (now : Time) × Holds (in_failure now calc) (L.view w))
            (mark_worker C me WorkerState.available)
            (λ _ w. (now : Time) × Holds (in_failure now calc) (L.view w))
      available-Succeeds = record {
        run = λ w (now, holds).
            (Runs-map (λ _ u h. (now, h))
                (mark_worker-Succeeds WorkerState.available (in_failure now calc))).run
              w holds;
      }
