-- ===== src/Dispatcher/Workers/Freed.antt =====
-- What the loss of a worker does to the calculations.
use ccb_operator.Base.{
  ◌≡◌, refl, sym, subst, ◌⊎◌, inl, inr, true, false, Bool, String, Option, none, some, List, [],
  ◌∷◌, All, select-All, select, if◌then◌else◌, ◌==◌, ◌||◌, All-map_of,
}
use ccb_operator.Base.Maps.{GoMap, Entries, index}
use ccb_operator.Go.{Action}
use ccb_operator.Go.Rules.{Runs, Runs->>=, Runs_of_cases, Runs_given, Runs-caught_either}
use ccb_operator.Api.{Kind, key_of}
use ccb_operator.Api.Meta.{ObjectKey}
use ccb_operator.Api.Calculations.{is_created, is_processing, CalculationPhase, Calculation}
use ccb_operator.Api.Bulks.{CalculationBulk, BulkCalculation}
use ccb_operator.Api.Workers.{Worker, WorkerPool}
use ccb_operator.Cluster.{Cluster}
use ccb_operator.Cluster.View.{View, remove, same_key}
use ccb_operator.Cluster.Laws.{Contract}
use ccb_operator.Cluster.Keeps.{
  Keeps, Keeps-pure, Keeps-get, Keeps-list, Keeps->>=, Keeps-caught, Keeps-modify, Keeps-panics,
  Keeps-delete, Keeps-fail, kept, same_key-eq,
}
use ccb_operator.Util.Labels.{assign_worker_label}
use ccb_operator.Util.Workers.{write_worker}
use ccb_operator.Dispatcher.Phases.{write_phase}
use ccb_operator.Dispatcher.Workers.{
  is_active, forget_worker, forget_in_pool, forget_in_pools, reconcile_worker_in_pools,
  free_calculation, delete_calculations, delete_assigned_calculations, reconcile,
  with_unknown_state,
}

-- A calculation that the loss of a pod takes: created or processing, and assigned to it.
abbrev pub IsLost : String → Calculation → Type 0
IsLost pod calc =
    ((calc.phase ≡ CalculationPhase.created) ⊎ (calc.phase ≡ CalculationPhase.processing))
    × (index calc.meta.labels assign_worker_label ≡ some pod)

-- Factories and pods are as before. No calculation is new or changed, and what is gone was lost
-- with the pod.
pub record OnlyFrees (pod : String) (before after : View) : Type 0 where
  pub factories : after Kind.factories ≡ before Kind.factories
  pub pods : after Kind.pods ≡ before Kind.pods
  pub calculations :
      (key : ObjectKey)
      → (after Kind.calculations key ≡ before Kind.calculations key)
        ⊎ ((after Kind.calculations key ≡ none)
            × (calc : Calculation) × (before Kind.calculations key ≡ some calc)
            × IsLost pod calc)

module _ (C : Cluster) (L : Contract C) (pod : String) (v : View) where
  abbrev P : View → Type 0
  P = OnlyFrees pod v

  write_worker-Keeps :
      (node : String) (change : Option Worker → Worker) (pool : WorkerPool)
      → Keeps C L P (write_worker C node change pool)
  unfolding write_worker
  write_worker-Keeps node change pool = write_in pool.workers refl
    where
      write_in :
          (m : GoMap Worker) → pool.workers ≡ m → Keeps C L P (write_worker C node change pool)
      write_in none e = rw (e, write_worker) (Keeps-panics C L P _)
      write_in (some m) e = rw (e, write_worker) (Keeps-pure C L P _)

  write_phase-Keeps_frees :
      (name : String) (phase : CalculationPhase) (bulk : CalculationBulk)
      → Keeps C L P (write_phase C name phase bulk)
  unfolding write_phase
  write_phase-Keeps_frees name phase bulk = write_in bulk.calculations refl
    where
      write_in :
          (m : GoMap BulkCalculation)
          → bulk.calculations ≡ m
          → Keeps C L P (write_phase C name phase bulk)
      write_in none e = rw (e, write_phase) (Keeps-panics C L P _)
      write_in (some m) e = rw (e, write_phase) (Keeps-pure C L P _)

  forget_worker-Keeps : (key : ObjectKey) (node : String) → Keeps C L P (forget_worker C key node)
  unfolding forget_worker
  forget_worker-Keeps key node =
      Keeps-modify C L P Kind.pools _ _ _ _ (write_worker-Keeps node with_unknown_state)
        (λ o u h. record { factories = h.factories; pods = h.pods; calculations = h.calculations })

  either :
      {A : Type 0} {m n : Action C.World A} (b : Bool)
      → Keeps C L P m
      → Keeps C L P n
      → Keeps C L P (if b then m else n)
  either true h k = h
  either false h k = k

  forget_in_pool-Keeps :
      (key : ObjectKey) (workers : Entries Worker) → Keeps C L P (forget_in_pool C key pod workers)
  unfolding forget_in_pool
  forget_in_pool-Keeps key [] = Keeps-pure C L P _
  forget_in_pool-Keeps key ((node, worker) ∷ workers) =
      let rest = forget_in_pool-Keeps key workers in
      either (worker.name == pod) (Keeps->>= C L P _ _ (forget_worker-Keeps key node) λ _. rest)
        rest

  forget_in_pools-Keeps : (pools : List WorkerPool) → Keeps C L P (forget_in_pools C pod pools)
  unfolding forget_in_pools
  forget_in_pools-Keeps [] = Keeps-pure C L P _
  forget_in_pools-Keeps (pool ∷ pools) =
      Keeps->>= C L P _ _ (forget_in_pool-Keeps _ _) λ _. forget_in_pools-Keeps pools

  reconcile_worker_in_pools-Keeps : Keeps C L P (reconcile_worker_in_pools C pod)
  unfolding reconcile_worker_in_pools
  reconcile_worker_in_pools-Keeps =
      Keeps->>= C L P _ _ (Keeps-caught C L P (Keeps-list C L P Kind.pools))
        (elim [ inl e ↦ Keeps-fail C L P _ | inr pools ↦ forget_in_pools-Keeps pools ])

  free_calculation-Keeps :
      (namespace : String) (bulk calc : Option String)
      → Keeps C L P (free_calculation C namespace bulk calc)
  unfolding free_calculation
  free_calculation-Keeps namespace none calc = Keeps-pure C L P _
  free_calculation-Keeps namespace (some bulk) none = Keeps-pure C L P _
  free_calculation-Keeps namespace (some bulk) (some calc) =
      Keeps-modify C L P Kind.bulks _ _ _ _ (write_phase-Keeps_frees calc _)
        (λ o u h. record { factories = h.factories; pods = h.pods; calculations = h.calculations })

  -- A calculation that was listed: it is in the cluster as it was before.
  abbrev WasListed : Calculation → Type 0
  WasListed calc =
      (index calc.meta.labels assign_worker_label ≡ some pod)
      × (v Kind.calculations (key_of Kind.calculations calc) ≡ some calc)

  lost_phase :
      (calc : Calculation)
      → is_active calc ≡ true
      → (calc.phase ≡ CalculationPhase.created) ⊎ (calc.phase ≡ CalculationPhase.processing)
  lost_phase calc e = phase_of calc.phase e
    where
      phase_of :
          (p : CalculationPhase)
          → is_created p || is_processing p ≡ true
          → (p ≡ CalculationPhase.created) ⊎ (p ≡ CalculationPhase.processing)
      phase_of CalculationPhase.created h = inl refl
      phase_of CalculationPhase.processing h = inr refl
      phase_of CalculationPhase.no_phase h = absurd (cc h)
      phase_of CalculationPhase.completed h = absurd (cc h)
      phase_of CalculationPhase.failed h = absurd (cc h)
      phase_of CalculationPhase.cached h = absurd (cc h)
      phase_of (CalculationPhase.other s) h = absurd (cc h)

  remove-OnlyFrees :
      (calc : Calculation) (u : View)
      → WasListed calc
      → is_active calc ≡ true
      → P u
      → P (remove u Kind.calculations calc)
  remove-OnlyFrees calc u (label, stored) active h = record {
    factories = h.factories;
    pods = h.pods;
    calculations = λ key. removed key (same_key key (key_of Kind.calculations calc)) refl;
  }
    where
      removed :
          (key : ObjectKey) (b : Bool)
          → same_key key (key_of Kind.calculations calc) ≡ b
          → let after = if b then none else u Kind.calculations key in
            (after ≡ v Kind.calculations key)
            ⊎ ((after ≡ none)
                × (c : Calculation) × (v Kind.calculations key ≡ some c)
                × IsLost pod c)
      removed key false e = h.calculations key
      removed key true e = inr (
        refl,
        calc,
        subst (λ j. v Kind.calculations j ≡ some calc)
            (sym (same_key-eq key (key_of Kind.calculations calc) e)) stored,
        (lost_phase calc active, label),
      )

  delete_calculations-Keeps :
      (calcs : List Calculation)
      → All (λ c. WasListed c × (is_active c ≡ true)) calcs
      → Keeps C L P (delete_calculations C calcs)
  unfolding delete_calculations
  delete_calculations-Keeps [] h = Keeps-pure C L P _
  delete_calculations-Keeps (calc ∷ calcs) ((listed, active), h) =
      let rest = delete_calculations-Keeps calcs h in
      Keeps->>= C L P _ _
        (Keeps-caught C L P
          (Keeps-delete C L P Kind.calculations calc (λ u. remove-OnlyFrees calc u listed active)))
        (elim [
          | inl e ↦ Keeps-fail C L P _
          | inr _ ↦ Keeps->>= C L P _ _ (free_calculation-Keeps _ _ _) λ _. rest
        ])

  was_stored :
      (u : View) (key : ObjectKey) (calc : Calculation)
      → P u
      → u Kind.calculations key ≡ some calc
      → v Kind.calculations key ≡ some calc
  was_stored u key calc h found = elim (h.calculations key) [
    | inl same ↦ cc (same, found)
    | inr (gone, _, _, _) ↦ absurd (cc (gone, found))
  ]

  list_labelled-WasListed :
      Runs
        (λ w. P (L.view w))
        (C.list_labelled assign_worker_label pod)
        (λ calcs w. All WasListed calcs × P (L.view w))
        (λ w. P (L.view w))
  list_labelled-WasListed =
      Runs_of_cases
        (λ w calcs h got. (
          All-map_of
              (λ calc (found, label).
                (label, was_stored (L.view w) (key_of Kind.calculations calc) calc h found))
              calcs (L.list_labelled_stored assign_worker_label pod w calcs got),
          kept_view w h,
        ))
        (λ w h. kept_view w h)
    where
      kept_view :
          (w : C.World) → P (L.view w) → P (L.view (C.list_labelled assign_worker_label pod w).1)
      kept_view w h = subst P (sym (L.view-list_labelled assign_worker_label pod w)) h

  delete_assigned_calculations-Keeps : Keeps C L P (delete_assigned_calculations C pod)
  unfolding delete_assigned_calculations
  delete_assigned_calculations-Keeps =
      Runs->>= _ _ (Runs-caught_either list_labelled-WasListed) (elim [
        | inl e ↦ Keeps-fail C L P _
        | inr calcs ↦
            Runs_given (All WasListed calcs) (λ w p. p)
              λ listed.
                delete_calculations-Keeps (select is_active calcs)
                  (select-All is_active WasListed calcs listed)
      ])

-- However the reconciliation of a pod ends, factories and pods are as before, and no calculation
-- is new or changed. Each that is gone was created or processing, and assigned to that pod.
pub reconcile-OnlyFrees :
    (C : Cluster) (L : Contract C) (req : ObjectKey) (w : C.World)
    → OnlyFrees req.name (L.view w) (L.view (reconcile C req w).1)
unfolding reconcile
reconcile-OnlyFrees C L req w =
    kept C L (OnlyFrees req.name (L.view w)) reconciled w
      (record { factories = refl; pods = refl; calculations = λ key. inl refl })
  where
    reconciled : Keeps C L (OnlyFrees req.name (L.view w)) (reconcile C req)
    reconciled =
        Keeps->>= C L (OnlyFrees req.name (L.view w)) _ _
          (Keeps-caught C L (OnlyFrees req.name (L.view w))
            (Keeps-get C L (OnlyFrees req.name (L.view w)) Kind.pods req))
          (elim [
            | inr pod ↦ Keeps-pure C L (OnlyFrees req.name (L.view w)) _
            | inl e ↦
                either C L req.name (L.view w) (C.is_not_found e)
                  (Keeps->>= C L (OnlyFrees req.name (L.view w)) _ _
                    (reconcile_worker_in_pools-Keeps C L req.name (L.view w))
                    λ _. delete_assigned_calculations-Keeps C L req.name (L.view w))
                  (Keeps-fail C L (OnlyFrees req.name (L.view w)) _)
          ])
