-- ===== src/Dispatcher/Bulks/Assigned.antt =====
-- assignCalculationsToWorkers: which calculation goes to which worker.
use ccb_operator.Base.{
  ◌≡◌, refl, ap, true, ◌≢◌, String, none, some, List, [], ◌∷◌, All, All-map_of, zip, Distinct,
  Listed, inl, inr, Bool-cases, arith, ◌==◌,
}
use ccb_operator.Base.Maps.{Entries, NodupKeys, entries, lookup}
use ccb_operator.Base.Sort.{
  IsSorted, sort, text_le, text_le_total, sort-IsSorted, sort-All, sort-Distinct, sort-Listed,
}
use ccb_operator.Go.{Action}
use ccb_operator.Go.Rules.{Runs, Runs->>=, Runs-pure, Runs-map}
use ccb_operator.Api.Meta.{Time}
use ccb_operator.Api.Calculations.{CalculationPhase, Calculation, Pipeline, is_no_phase}
use ccb_operator.Api.Bulks.{CalculationBulk, BulkCalculation}
use ccb_operator.Api.Workers.{Worker, WorkerState, WorkerPool, is_available}
use ccb_operator.Util.Formats.{Formats}
use ccb_operator.Util.Labels.{
  bulk_label, calculation_name_label, calc_root_folder, assign_worker_label,
}
use ccb_operator.Util.Calculations.{
  Item, with_vega_steps, new_calculation, get_sorted_created_calculations,
}
use ccb_operator.Util.Calculations.Sorted.{
  names, IsWaiting, IsEntry, get_sorted_created_calculations_lem,
}
use ccb_operator.Dispatcher.Bulks.{
  available_workers, assign_items, assign_calculations_to_workers, new_calculation_for_bulk,
}

-- A node whose worker is available.
abbrev pub IsAvailable : Entries Worker → String → Type 0
IsAvailable workers node =
    (worker : Worker) × (lookup node workers ≡ some worker) × (worker.state ≡ WorkerState.available)

IsAvailable-cons :
    (node : String) (worker : Worker) (workers : Entries Worker)
    → lookup node workers ≡ none
    → (j : String) → IsAvailable workers j
    → IsAvailable ((node, worker) ∷ workers) j × (node ≢ j)
unfolding lookup
IsAvailable-cons node worker workers fresh j (c, found, free) =
    ((c, ground arith, free), λ e. ground arith)

available_workers_lem :
    (workers : Entries Worker)
    → NodupKeys workers
    → All (IsAvailable workers) (available_workers workers) × Distinct (available_workers workers)
unfolding available_workers lookup
available_workers_lem [] u = (tt, tt)
available_workers_lem ((node, worker) ∷ workers) (fresh, u) =
    let (free, once) = available_workers_lem workers u in
    let names = available_workers workers in
    let lifted = All-map_of (IsAvailable-cons node worker workers fresh) names free in
    let still = All-map_of (λ j p. p.0) names lifted in
    elim (Bool-cases (is_available worker.state)) [
      | inl e ↦ rw e (
        ((worker, ground arith, ground arith), still),
        (All-map_of (λ j p. p.1) names lifted, once),
      )
      | inr e ↦ rw e (still, once)
    ]

available_workers-Listed :
    (workers : Entries Worker) (j : String)
    → IsAvailable workers j
    → Listed j (available_workers workers)
unfolding available_workers lookup
available_workers-Listed [] j (c, found, free) = absurd (cc found)
available_workers-Listed ((k, v) ∷ workers) j (c, found, free) =
    let later = λ (h : IsAvailable workers j). available_workers-Listed workers j h in
    elim (Bool-cases (j == k)) [
      | inl e ↦
          let here : v.state ≡ WorkerState.available = ground arith in
          let same : k ≡ j = ground arith in rw (here, available_workers) (inl same)
      | inr e ↦
          let old : lookup j workers ≡ some c = ground arith in
          elim (Bool-cases (is_available v.state)) [
            | inl f ↦ rw f (inr (later (c, old, free)))
            | inr f ↦ rw f (later (c, old, free))
          ]
    ]

-- The entries of a bulk that wait, in ascending order of their keys, and all of them.
abbrev pub AreWaiting : Entries BulkCalculation → List Item → Type 0
AreWaiting calcs items =
    IsSorted text_le (names items)
    × Distinct (names items)
    × All (IsEntry calcs) items
    × ((k : String) → IsWaiting calcs k → Listed k (names items))

-- The nodes of a pool that are available, in ascending order, and all of them.
abbrev pub AreAvailable : Entries Worker → List String → Type 0
AreAvailable workers nodes =
    IsSorted text_le nodes
    × Distinct nodes
    × All (IsAvailable workers) nodes
    × ((node : String) → IsAvailable workers node → Listed node nodes)

-- All but the steps of a calculation of the pipeline is kept.
with_vega_steps-Keeps :
    (pipeline : Pipeline) (calc : BulkCalculation)
    → ((with_vega_steps pipeline calc).params ≡ calc.params)
      × (pipeline ≢ Pipeline.vega → (with_vega_steps pipeline calc).steps ≡ calc.steps)
      × ((with_vega_steps pipeline calc).pipeline ≡ calc.pipeline)
      × ((with_vega_steps pipeline calc).input_files ≡ calc.input_files)
with_vega_steps-Keeps Pipeline.no_pipeline calc = (refl, (λ _. refl), refl, refl)
with_vega_steps-Keeps Pipeline.vega calc = (refl, (λ other. absurd (other refl)), refl, refl)
with_vega_steps-Keeps (Pipeline.other_pipeline _) calc = (refl, (λ _. refl), refl, refl)

module _ (bulk : CalculationBulk) (pool : WorkerPool) (namespace : String) where
  -- The calculation is made of the item, for the worker at the node.
  abbrev pub IsMadeOf : Item × String → Calculation → Type 0
  IsMadeOf (item, node) calc =
      (worker : Worker) × (lookup node (entries pool.workers) ≡ some worker)
      × (calc.assign ≡ worker.name)
      × (calc.phase ≡ CalculationPhase.created)
      × (calc.worker_pool ≡ bulk.worker_pool)
      × (calc.meta.namespace ≡ namespace)
      × (calc.meta.labels
          ≡ some (
              (bulk_label, bulk.meta.name)
              ∷ (calculation_name_label, item.name)
              ∷ (calc_root_folder, bulk.root_folder)
              ∷ (assign_worker_label, worker.name)
              ∷ []))
      × (calc.spec.params ≡ item.calculation.params)
      × (item.calculation.pipeline ≢ Pipeline.vega → calc.spec.steps ≡ item.calculation.steps)
      × (calc.pipeline ≡ item.calculation.pipeline)
      × (calc.input_files ≡ item.calculation.input_files)
      × (calc.output_files_regex ≡ bulk.output_files_regex)

  -- One calculation for each pair, in order.
  abbrev pub AreMadeOf : List (Item × String) → List Calculation → Type 0
  AreMadeOf [] [] = Unit
  AreMadeOf (e ∷ es) (c ∷ cs) = IsMadeOf e c × AreMadeOf es cs
  AreMadeOf _ _ = ⊥

  module _ (F : Formats) {W : Type 0} (clock : Action W Time) {P E : W → Type 0}
      (clock_keeps : Runs P clock (λ _. P) E) where
    new_calculation_for_bulk-IsMadeOf :
        (now : Time) (item : Item) (node : String) (worker : Worker)
        → lookup node (entries pool.workers) ≡ some worker
        → IsMadeOf
            (item, node)
            (new_calculation_for_bulk F now bulk item.calculation namespace worker.name
              bulk.worker_pool
              ((bulk_label, bulk.meta.name)
                ∷ (calculation_name_label, item.name)
                ∷ (calc_root_folder, bulk.root_folder)
                ∷ (assign_worker_label, worker.name)
                ∷ []))
    unfolding new_calculation_for_bulk new_calculation
    new_calculation_for_bulk-IsMadeOf now item node worker found =
        let (params, steps, pipeline, files) =
          with_vega_steps-Keeps item.calculation.pipeline item.calculation in
        (worker, found, refl, refl, refl, refl, refl, params, steps, pipeline, files, ground arith)

    assign_items-AreMadeOf :
        (items : List Item) (nodes : List String)
        → All (IsEntry (entries bulk.calculations)) items
        → All (IsAvailable (entries pool.workers)) nodes
        → Runs P
            (assign_items F clock bulk pool.workers namespace items nodes)
            (λ calcs w. AreMadeOf (zip items nodes) calcs × P w)
            E
    unfolding assign_items
    assign_items-AreMadeOf [] nodes waits free = Runs-pure _ λ w p. (tt, p)
    assign_items-AreMadeOf (item ∷ items) [] waits free = Runs-pure _ λ w p. (tt, p)
    assign_items-AreMadeOf (item ∷ items) (node ∷ nodes) ((_, waits), others)
          ((worker, found, _), free) =
        let test : is_no_phase item.calculation.phase ≡ true = ap is_no_phase waits in
        rw (test, assign_items)
          (rw found (
            Runs->>= _ _ clock_keeps λ now.
              Runs->>= _ _ (assign_items-AreMadeOf items nodes others free) λ calcs.
                Runs-pure _ λ w (each, p).
                  ((new_calculation_for_bulk-IsMadeOf now item node worker found, each), p)))

    -- In a bulk and a pool whose maps have distinct keys, and with a clock that keeps `P`: if the
    -- assignment ends without an error or a panic of the clock, the calculations without a phase,
    -- in the order of their keys, were paired with the available workers, in the order of their
    -- nodes, until one of the two ran out, and for each pair one calculation was made that is
    -- assigned to the worker, carries the labels of its bulk and entry, and has the parameters, the
    -- pipeline and the input files of the entry, its steps if the pipeline is not vega, and the
    -- bulk's pool and pattern of output files. `P` holds still.
    pub assign_calculations_to_workers_lem :
        NodupKeys (entries bulk.calculations)
        → NodupKeys (entries pool.workers)
        → Runs P
            (assign_calculations_to_workers F clock bulk pool namespace)
            (λ calcs w.
              ((items : List Item) × (nodes : List String) × AreWaiting
                  (entries bulk.calculations)
                  items
                × AreAvailable (entries pool.workers) nodes
                × AreMadeOf (zip items nodes) calcs)
              × P w)
            E
    unfolding assign_calculations_to_workers
    assign_calculations_to_workers_lem uc uw =
        let items = get_sorted_created_calculations bulk.calculations in
        let names = available_workers (entries pool.workers) in
        let nodes = sort text_le names in
        let waiting = get_sorted_created_calculations_lem bulk.calculations uc in
        let (free, once) = available_workers_lem (entries pool.workers) uw in
        let available = sort-All text_le _ names free in
        Runs-map
          (λ calcs w (made, p). (
            (
              items,
              nodes,
              waiting,
              (
                sort-IsSorted text_le text_le_total names,
                sort-Distinct text_le names once,
                available,
                λ node h.
                    sort-Listed text_le node names
                      (available_workers-Listed (entries pool.workers) node h),
              ),
              made,
            ),
            p,
          ))
          (assign_items-AreMadeOf items nodes waiting.2 available)
