-- ===== src/Dispatcher/Bulks/Reconciled.antt =====
-- What one reconciliation of a bulk does to the cluster.
use ccb_operator.Base.{
  ◌≡◌, refl, ◌≢◌, String, Option, none, some, List, [], ◌∷◌, All, ◌⊎◌, inl, inr, subst, Bool-cases,
}
use ccb_operator.Base.Maps.{Entries, GoMap, entries}
use ccb_operator.Base.Sort.{sort, text_le}
use ccb_operator.Go.{Action}
use ccb_operator.Go.Rules.{Runs, Runs-pure, Runs_given, Runs->>=}
use ccb_operator.Api.{Kind, key_of}
use ccb_operator.Api.Meta.{Time, ObjectKey}
use ccb_operator.Api.Calculations.{Calculation, CalculationPhase, is_no_phase}
use ccb_operator.Api.Bulks.{CalculationBulk, BulkCalculation}
use ccb_operator.Api.Workers.{Worker, WorkerPool}
use ccb_operator.Cluster.{Cluster}
use ccb_operator.Cluster.View.{View, put}
use ccb_operator.Cluster.Laws.{Contract}
use ccb_operator.Cluster.Keeps.{
  Keeps, Keeps-create, Keeps-now, Keeps-get, Keeps-caught, Keeps->>=, Keeps-pure, Keeps-wrapping,
  Keeps-of_same, Keeps-retry, Runs-get_stored, assign_fresh, assign_cases, kept,
  Keeps-update_stored,
}
use ccb_operator.Grpc.{ResultsClient}
use ccb_operator.Util.Formats.{Formats}
use ccb_operator.Util.Calculations.{Item, new_calculation, get_sorted_created_calculations}
use ccb_operator.Dispatcher.Bulks.{
  available_workers, new_calculation_for_bulk, assign_items, assign_calculations_to_workers, query,
  reconcile_calculations, create_all, create_assigned, dispatch, refresh, reconcile,
}

abbrev pub IsCreated : Calculation → Type 0
IsCreated calc = calc.phase ≡ CalculationPhase.created

-- All that `before` holds is there unchanged, and what is new are calculations in phase `created`.
pub record OnlyAdds (before after : View) : Type 0 where
  pub others : (k : Kind) → k ≢ Kind.calculations → after k ≡ before k
  pub calculations :
      (key : ObjectKey) (calc : Calculation)
      → before Kind.calculations key ≡ some calc
      → after Kind.calculations key ≡ some calc
  pub added :
      (key : ObjectKey) (calc : Calculation)
      → after Kind.calculations key ≡ some calc
      → (before Kind.calculations key ≡ some calc) ⊎ IsCreated calc

module _ (F : Formats) {W : Type 0} (clock : Action W Time) (bulk : CalculationBulk)
    (namespace : String) {P E : W → Type 0} (clock_keeps : Runs P clock (λ _. P) E) where
  assign_items-IsCreated :
      (workers : GoMap Worker) (items : List Item) (available : List String)
      → Runs P
          (assign_items F clock bulk workers namespace items available)
          (λ calcs w. All IsCreated calcs × P w)
          E
  unfolding assign_items new_calculation_for_bulk new_calculation
  assign_items-IsCreated workers [] available = Runs-pure _ λ w p. (tt, p)
  assign_items-IsCreated workers (item ∷ items) [] = Runs-pure _ λ w p. (tt, p)
  assign_items-IsCreated workers (item ∷ items) (name ∷ available) =
      elim (Bool-cases (is_no_phase item.calculation.phase)) [
        | inl e ↦ rw e (
            Runs->>= _ _ clock_keeps λ now.
              Runs->>= _ _ (assign_items-IsCreated workers items available)
                λ calcs. Runs-pure _ λ w (each, p). ((refl, each), p))
        | inr e ↦ rw e (assign_items-IsCreated workers items (name ∷ available))
      ]

  assign_calculations_to_workers-IsCreated :
      (pool : WorkerPool)
      → Runs P
          (assign_calculations_to_workers F clock bulk pool namespace)
          (λ calcs w. All IsCreated calcs × P w)
          E
  unfolding assign_calculations_to_workers
  assign_calculations_to_workers-IsCreated pool =
      assign_items-IsCreated pool.workers (get_sorted_created_calculations bulk.calculations)
        (sort text_le (available_workers (entries pool.workers)))

put-OnlyAdds :
    (v u : View) (calc : Calculation)
    → IsCreated calc
    → OnlyAdds v u
    → u Kind.calculations (key_of Kind.calculations calc) ≡ none
    → OnlyAdds v (put u Kind.calculations calc)
put-OnlyAdds v u calc is h fresh = record {
  others = elim [
    | Kind.calculations ↦ λ n. absurd (n refl)
    | Kind.bulks ↦ λ n. h.others Kind.bulks n
    | Kind.factories ↦ λ n. h.others Kind.factories n
    | Kind.pools ↦ λ n. h.others Kind.pools n
    | Kind.pods ↦ λ n. h.others Kind.pods n
  ];
  calculations = λ key c stored.
      assign_fresh (u Kind.calculations) (key_of Kind.calculations calc) key (some calc) c fresh
        (h.calculations key c stored);
  added = λ key c found.
      elim (assign_cases (u Kind.calculations) (key_of Kind.calculations calc) key calc c found) [
        | inl e ↦ inr (subst IsCreated e is)
        | inr old ↦ h.added key c old
      ];
}

module _ (F : Formats) (C : Cluster) (G : ResultsClient C.World) (L : Contract C)
    (separate : (q : Entries String) (w : C.World) → L.view (G.get_data q w).1 ≡ L.view w)
    (v : View) where
  abbrev Adds : {A : Type 0} → Action C.World A → Type 0
  Adds m = Keeps C L (OnlyAdds v) m

  reconcile_calculations-Adds :
      (calcs : Entries BulkCalculation) (t : Time) → Adds (reconcile_calculations F C G calcs t)
  unfolding reconcile_calculations
  reconcile_calculations-Adds [] t = Keeps-pure C L (OnlyAdds v) _
  reconcile_calculations-Adds ((key, calc) ∷ calcs) t =
      Keeps->>= C L (OnlyAdds v) _ _
        (Keeps-caught C L (OnlyAdds v) (Keeps-of_same C L (OnlyAdds v) _ (separate (query F calc))))
        λ answer.
          Keeps->>= C L (OnlyAdds v) _ _ (reconcile_calculations-Adds calcs t)
            λ rest. Keeps-pure C L (OnlyAdds v) _

  create_all-Adds : (calcs : List Calculation) → All IsCreated calcs → Adds (create_all F C G calcs)
  unfolding create_all
  create_all-Adds [] _ = Keeps-pure C L (OnlyAdds v) _
  create_all-Adds (calc ∷ calcs) (is, each) =
      Keeps->>= C L (OnlyAdds v) _ _
        (Keeps-caught C L (OnlyAdds v)
          (Keeps-create C L (OnlyAdds v) _ calc (λ u. put-OnlyAdds v u calc is)))
        λ _. create_all-Adds calcs each

  refresh-Adds : (req : ObjectKey) → Adds (refresh F C G req)
  unfolding refresh
  refresh-Adds req = Keeps-retry C L (OnlyAdds v) (
      Runs->>= _ _ (Runs-get_stored C L (OnlyAdds v) Kind.bulks req) λ bulk.
        Runs->>= _ _ (Keeps-update_stored C L (OnlyAdds v) Kind.bulks req bulk)
          λ _. Keeps-pure C L (OnlyAdds v) bulk)

  create_assigned-Adds :
      (bulk : CalculationBulk) (pool : WorkerPool) (namespace : String)
      → Adds (create_assigned F C G bulk pool namespace)
  unfolding create_assigned
  create_assigned-Adds bulk pool namespace =
      Runs->>= _ _
        (assign_calculations_to_workers-IsCreated F C.now bulk namespace
          (Keeps-now C L (OnlyAdds v)) pool)
        λ calcs. Runs_given (All IsCreated calcs) (λ w p. p) (create_all-Adds calcs)

  dispatch-Adds :
      (bulk : CalculationBulk) (pool : WorkerPool) (namespace : String)
      (post : Option BulkCalculation) (worker : Option Worker)
      → Adds (dispatch F C G bulk pool namespace post worker)
  unfolding dispatch new_calculation_for_bulk new_calculation
  dispatch-Adds bulk pool namespace (some post) (some worker) =
      Keeps->>= C L (OnlyAdds v) _ _ (Keeps-now C L (OnlyAdds v))
        λ now. Keeps-create C L (OnlyAdds v) _ _ (λ u. put-OnlyAdds v u _ refl)
  dispatch-Adds bulk pool namespace (some post) none = create_assigned-Adds bulk pool namespace
  dispatch-Adds bulk pool namespace none worker = create_assigned-Adds bulk pool namespace

  reconcile-OnlyAdds_from :
      (req : ObjectKey) (w : C.World) → L.view w ≡ v → OnlyAdds v (L.view (reconcile F C G req w).1)
  unfolding reconcile
  reconcile-OnlyAdds_from req w same = kept C L (OnlyAdds v) reconciled w (
      rw same
        (record { others = λ k n. refl; calculations = λ key c h. h; added = λ key c h. inl h }))
    where
      reconciled : Adds (reconcile F C G req)
      reconciled =
          Keeps->>= C L (OnlyAdds v) _ _
            (Keeps-wrapping C L (OnlyAdds v) _ (Keeps-get C L (OnlyAdds v) Kind.bulks req))
            λ bulk.
              Keeps->>= C L (OnlyAdds v) _ _
                (Keeps-wrapping C L (OnlyAdds v) _ (Keeps-get C L (OnlyAdds v) Kind.pools _))
                λ pool. Keeps->>= C L (OnlyAdds v) _ _ (reconcile_calculations-Adds _ _) λ _.
                  Keeps->>= C L (OnlyAdds v) _ _
                    (Keeps-wrapping C L (OnlyAdds v) _ (refresh-Adds req))
                    λ fresh. dispatch-Adds fresh pool _ _ _

-- However the reconciliation of a bulk ends, it changes no bulk, factory, pool or pod, and no
-- calculation that was there: it adds calculations at most, which are in phase `created`. So the phases that
-- reconcileCalculations sets are never stored. The results service is apart from the cluster.
pub reconcile-OnlyAdds :
    (F : Formats) (C : Cluster) (G : ResultsClient C.World) (L : Contract C)
    → ((q : Entries String) (w : C.World) → L.view (G.get_data q w).1 ≡ L.view w)
    → (req : ObjectKey) (w : C.World) → OnlyAdds (L.view w) (L.view (reconcile F C G req w).1)
reconcile-OnlyAdds F C G L separate req w =
    reconcile-OnlyAdds_from F C G L separate (L.view w) req w refl
