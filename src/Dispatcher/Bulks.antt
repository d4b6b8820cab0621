-- ===== src/Dispatcher/Bulks.antt =====
-- pkg/dispatcher/bulks/controller.go: assigns the calculations of a bulk to available workers.
pub mod Verdicts
pub mod Assigned
pub mod Reconciled
use ccb_operator.Base.{
  ℕ, Bool, true, false, ◌&&◌, ◌==◌, ltb, if◌then◌else◌, String, ◌<>◌, Option, none, some, List, [],
  ◌∷◌, ◌⊎◌, inl, inr,
}
use ccb_operator.Base.Maps.{GoMap, Entries, entries, lookup}
use ccb_operator.Base.Sort.{sort, text_le}
use ccb_operator.Go.{Error, wrap, Action, pure, wrapping, caught, ◌>>=◌, ◌>>◌}
use ccb_operator.Api.{Kind}
use ccb_operator.Api.Meta.{Time, ObjectMeta, ObjectKey, meta_key}
use ccb_operator.Api.Calculations.{CalculationPhase, Pipeline, InputFiles, Calculation, is_no_phase}
use ccb_operator.Api.Bulks.{CalculationBulk, BulkCalculation}
use ccb_operator.Api.Workers.{Worker, WorkerPool, zero_worker, is_available}
use ccb_operator.Cluster.{Cluster}
use ccb_operator.Events.{Event, create, update, delete, generic, Requests}
use ccb_operator.Grpc.{ResultsClient, GetDataResponse}
use ccb_operator.Util.Formats.{Formats}
use ccb_operator.Util.Labels.{
  bulk_label, calculation_name_label, calc_root_folder, assign_worker_label, post_calculation_label,
}
use ccb_operator.Util.Calculations.{
  Item, new_calculation, get_sorted_created_calculations, is_all_finished_calculations,
}

-- The methods of calculationBulkHandler.
unfoldable pub handle : String → Event CalculationBulk → Requests
handle namespace (create o) = if namespace == o.meta.namespace then meta_key o.meta ∷ [] else []
handle namespace (update _ o) = if namespace == o.meta.namespace then meta_key o.meta ∷ [] else []
handle namespace (delete _) = []
handle namespace (generic _) = []

-- `if calc.Pipeline == ""` and the like.
abbrev or_pipeline : Pipeline → Pipeline → Pipeline
or_pipeline Pipeline.no_pipeline other = other
or_pipeline pipeline other = pipeline

abbrev or_files : Option InputFiles → Option InputFiles → Option InputFiles
or_files none other = other
or_files (some files) other = some files

abbrev or_text : String → String → String
or_text a b = if a == "" then b else a

abbrev or_no_worker : Option Worker → Worker
or_no_worker none = zero_worker
or_no_worker (some worker) = worker

unfoldable pub available_workers : Entries Worker → List String
available_workers [] = []
available_workers ((name, worker) ∷ workers) =
    let rest = available_workers workers in if is_available worker.state then name ∷ rest else rest

-- The first available worker in the order of the range.
unfoldable pub first_available_worker : Entries Worker → Option Worker
first_available_worker [] = none
first_available_worker ((_, worker) ∷ workers) =
    let rest = first_available_worker workers in
    if is_available worker.state then some worker else rest

-- The post calculation that is due, if it is.
unfoldable pub due_post_calculation :
    CalculationBulk → Option BulkCalculation → Option BulkCalculation
due_post_calculation bulk none = none
due_post_calculation bulk (some post) =
    if is_all_finished_calculations bulk.calculations && is_no_phase post.phase
    then some post
    else none

-- What becomes of one calculation after the results service was asked for it.
pub data Verdict : Type 0 where
  keep : Verdict
  mark_cached : Verdict
  report : Error → Verdict

module _ (F : Formats) where
  unfoldable pub new_calculation_for_bulk :
      Time
      → CalculationBulk
      → BulkCalculation
      → String
      → String
      → String
      → Entries String
      → Calculation
  new_calculation_for_bulk now bulk given namespace assign_worker worker_pool labels =
      let (calc, bulk_calc) = new_calculation F now given in
      record calc {
        input_files = or_files calc.input_files bulk_calc.input_files;
        output_files_regex = or_text calc.output_files_regex bulk.output_files_regex;
        pipeline = or_pipeline calc.pipeline bulk_calc.pipeline;
        meta = record (calc.meta) { namespace = namespace; labels = some labels };
        worker_pool = worker_pool;
        assign = assign_worker;
      }

  -- The loop over the items. The list of names is `availableWorkers[workerIndex:]`, and `clock` is
  -- time.Now, which NewCalculation calls for each calculation.
  unfoldable pub assign_items :
      {W : Type 0}
      → Action W Time
      → CalculationBulk
      → GoMap Worker
      → String
      → List Item
      → List String
      → Action W (List Calculation)
  assign_items clock bulk workers namespace [] available = pure []
  assign_items clock bulk workers namespace (item ∷ items) [] = pure []
  assign_items clock bulk workers namespace (item ∷ items) (worker_name ∷ available) =
      let worker = or_no_worker (lookup worker_name (entries workers)) in
      let calculation = λ (now : Time).
        new_calculation_for_bulk now bulk item.calculation namespace worker.name bulk.worker_pool (
          (bulk_label, bulk.meta.name)
          ∷ (calculation_name_label, item.name)
          ∷ (calc_root_folder, bulk.root_folder)
          ∷ (assign_worker_label, worker.name)
          ∷ []) in
      let others = assign_items clock bulk workers namespace items available in
      let taken = (do now ← clock; calcs ← others; pure (calculation now ∷ calcs)) in
      let passed = assign_items clock bulk workers namespace items (worker_name ∷ available) in
      if is_no_phase item.calculation.phase then taken else passed

  unfoldable pub assign_calculations_to_workers :
      {W : Type 0}
      → Action W Time
      → CalculationBulk
      → WorkerPool
      → String
      → Action W (List Calculation)
  unfolding assign_items available_workers sort text_le
  assign_calculations_to_workers clock bulk workerpool namespace =
      assign_items clock bulk workerpool.workers namespace
        (get_sorted_created_calculations bulk.calculations)
        (sort text_le (available_workers (entries workerpool.workers)))

  unfoldable pub judge : (Error → Bool) → String → Time → Error ⊎ Option GetDataResponse → Verdict
  judge not_found key bulk_creation_time (inl e) =
      if not_found e then keep else report (wrap ("couldn't get results for calculation " <> key) e)
  judge not_found key bulk_creation_time (inr none) = keep
  judge not_found key bulk_creation_time (inr (some resp)) = elim (F.parse_time resp.created_at) [
    | inl e ↦ report (wrap ("couldn't parse created_at timestamp for calculation " <> key) e)
    | inr created_at ↦ if ltb bulk_creation_time created_at then keep else mark_cached
  ]

  abbrev pub query : BulkCalculation → Entries String
  query calc =
      ("log_g", F.format_float 6 calc.params.log_g)
      ∷ ("teff", F.format_float 6 calc.params.teff)
      ∷ []

abbrev pub verdict_calculation : Verdict → BulkCalculation → BulkCalculation
verdict_calculation mark_cached calc = record calc { phase = CalculationPhase.cached }
verdict_calculation _ calc = calc

abbrev pub verdict_errors : Verdict → List Error → List Error
verdict_errors (report e) errs = e ∷ errs
verdict_errors _ errs = errs

module _ (F : Formats) (C : Cluster) (G : ResultsClient C.World) where
  -- The map as the loop leaves it, and the errors that it collects.
  unfoldable pub reconcile_calculations :
      Entries BulkCalculation → Time → Action C.World (Entries BulkCalculation × List Error)
  unfolding judge
  reconcile_calculations [] bulk_creation_time = pure ([], [])
  reconcile_calculations ((key, calc) ∷ calcs) bulk_creation_time = do
    answer ← caught (G.get_data (query F calc))
    let verdict = judge F G.code_not_found key bulk_creation_time answer
    rest ← reconcile_calculations calcs bulk_creation_time
    pure ((key, verdict_calculation verdict calc) ∷ rest.0, verdict_errors verdict rest.1)

  -- An error of one creation is logged, and the loop goes on.
  unfoldable pub create_all : List Calculation → Action C.World (Unit {0})
  create_all [] = pure tt
  create_all (calc ∷ calcs) = do _ ← caught (C.create Kind.calculations calc); create_all calcs

  unfoldable pub new_post_calculation :
      Time → CalculationBulk → BulkCalculation → String → Worker → Calculation
  new_post_calculation now bulk post namespace worker =
      new_calculation_for_bulk F now bulk post namespace worker.name bulk.worker_pool (
        (bulk_label, bulk.meta.name)
        ∷ (post_calculation_label, "")
        ∷ (calc_root_folder, bulk.root_folder)
        ∷ (assign_worker_label, worker.name)
        ∷ [])

  unfoldable pub create_assigned : CalculationBulk → WorkerPool → String → Action C.World (Unit {0})
  create_assigned bulk workerpool namespace = do
    calcs ← assign_calculations_to_workers F C.now bulk workerpool namespace
    create_all calcs

  -- The rest of `reconcile`, once the worker for the post calculation is chosen.
  unfoldable pub dispatch :
      CalculationBulk
      → WorkerPool
      → String
      → Option BulkCalculation
      → Option Worker
      → Action C.World (Unit {0})
  unfolding create_assigned create_all new_post_calculation
  dispatch bulk workerpool namespace (some post) (some worker) = do
    now ← C.now
    C.create Kind.calculations (new_post_calculation now bulk post namespace worker)
  dispatch bulk workerpool namespace _ _ = create_assigned bulk workerpool namespace

  -- The closure that RetryOnConflict runs. The get overwrites `bulk`, so what
  -- reconcileCalculations wrote into it is gone.
  unfoldable pub refresh : ObjectKey → Action C.World CalculationBulk
  refresh req =
      C.retry_on_conflict CalculationBulk
        do bulk ← C.get Kind.bulks req; C.update Kind.bulks bulk; pure bulk

  unfoldable pub reconcile : ObjectKey → Action C.World (Unit {0})
  unfolding reconcile_calculations dispatch refresh due_post_calculation first_available_worker
  reconcile req = do
    bulk ←
        wrapping
          ("failed to get calculation bulk: " <> req.name <> " in namespace " <> req.namespace)
          (C.get Kind.bulks req)
    workerpool ←
        wrapping
          ("failed to get workerpool: " <> bulk.worker_pool <> " in namespace "
            <> bulk.meta.namespace)
          (C.get Kind.pools (record { namespace = bulk.meta.namespace; name = bulk.worker_pool }))
    _ ← reconcile_calculations (entries bulk.calculations) bulk.meta.creation_timestamp
    bulk ← wrapping "failed to update calculation bulk" (refresh req)
    dispatch bulk workerpool req.namespace (due_post_calculation bulk bulk.post_calculation)
        (first_available_worker (entries workerpool.workers))
