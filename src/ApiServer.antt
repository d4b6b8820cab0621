-- ===== src/ApiServer.antt =====
-- cmd/apiserver/server.go: the handlers of the HTTP interface.
pub mod Answers
pub mod Writes
pub mod Twice
pub mod Routes
pub mod Handlers
pub mod Methods
use ccb_operator.Base.{
  ℕ, Bool, true, false, ◌&&◌, if◌then◌else◌, String, ◌<>◌, Option, none, some, List, [], ◌∷◌, ◌⊎◌,
  inl, inr, select,
}
use ccb_operator.Base.Maps.{GoMap, Entries}
use ccb_operator.Go.{Error, Action, pure, fail, caught, ◌>>=◌, ◌>>◌}
use ccb_operator.Api.{Kind, Obj}
use ccb_operator.Api.Meta.{Float64, ObjectMeta, ObjectKey, no_meta, meta_key}
use ccb_operator.Api.Calculations.{Calculation, zero_calculation}
use ccb_operator.Api.Bulks.{BulkCalculation, CalculationBulk, CalculationBulkState, zero_bulk}
use ccb_operator.Api.Workers.{WorkerPool}
use ccb_operator.Cluster.{Cluster}
use ccb_operator.Grpc.{ResultsClient, GetDataResponse}
use ccb_operator.Util.Formats.{Formats}
use ccb_operator.Util.Hash.{input_hash}

-- The bodies of the answers.
pub data Payload : Type 0 where
  item : (k : Kind) → Obj k → Payload
  items : (k : Kind) → List (Obj k) → Payload
  -- a `message`, with the error behind it, and a `status_code`
  message : String → ℕ → Payload
  message_error : String → Option Error → ℕ → Payload
  error : Error → Payload
  -- a `message` alone
  greeting : String → Payload
  results : Option GetDataResponse → Payload

-- The struct that createCalculationBulk reads its body into.
pub record BulkRequest : Type 0 where
  pub worker_pool : String
  pub calculations : GoMap BulkCalculation

-- What gin.Context offers: one request, and the answers to it.
pub record Context (W : Type 0) : Type 0 where
  pub read_body : Action W String
  pub bind_json : Action W (Entries String)
  pub query : String → String
  pub param : String → String
  pub json : ℕ → Payload → Action W (Unit {0})

-- json.Unmarshal leaves what it has decoded behind an error.
abbrev pub Unmarshal : Type 0
Unmarshal = String → Option Error × BulkRequest

module _ (C : Cluster) where
  -- The status that responseError writes into the body.
  unfoldable pub status_code : Option Error → ℕ
  status_code none = 200
  status_code (some e) =
      if C.is_unauthorized e
      then 401
      else if C.is_forbidden e
      then 403
      else if C.is_internal_error e
      then 500
      else 400

  unfoldable pub matching : Formats → Float64 → Float64 → List Calculation → List Calculation
  matching F t l calcs =
      select
        (λ calc. F.float_equal calc.spec.params.teff t && F.float_equal calc.spec.params.log_g l)
        calcs

  module _ (namespace : String) (c : Context C.World) where
    -- The answer's own status is 400 in every case.
    unfoldable pub response_error : String → Option Error → Action C.World (Unit {0})
    unfolding status_code
    response_error text_sent e = c.json 400 (message_error text_sent e (status_code e))

    -- `if err != nil { responseError(c, text, err) } else { good }`
    abbrev pub answered :
        {A : Type 0}
        → String
        → Action C.World A
        → (A → Action C.World (Unit {0}))
        → Action C.World (Unit {0})
    answered text_sent m good = caught m >>= λ answer. elim answer [
      | inl e ↦ response_error text_sent (some e)
      | inr a ↦ good a
    ]

    abbrev pub key : String → ObjectKey
    key name = record { namespace = namespace; name = name }

    -- `if err := retry.RetryOnConflict(..., fn); err != nil { c.JSON(500, ...) }`
    unfoldable pub retrying : Action C.World (Unit {0}) → Action C.World (Unit {0})
    retrying fn = do
      answer ← caught (C.retry_on_conflict (Unit {0}) fn)
      elim answer [ inl e ↦ c.json 500 (message "500" 500) | inr _ ↦ pure tt ]

    unfoldable pub new_bulk : String → BulkRequest → CalculationBulk
    new_bulk name request = record zero_bulk {
      meta = record no_meta { name = name; namespace = namespace };
      worker_pool = request.worker_pool;
      calculations = request.calculations;
      status = record (zero_bulk.status) { state = CalculationBulkState.available };
    }

    abbrev pub report_error : String → Option Error → Action C.World (Unit {0})
    report_error text_sent none = pure tt
    report_error text_sent (some e) = response_error text_sent (some e)

    -- A body that cannot be unmarshalled is answered, and the bulk is created all the same.
    unfoldable pub create_calculation_bulk : Formats → Unmarshal → Action C.World (Unit {0})
    unfolding response_error new_bulk
    create_calculation_bulk F unmarshal = answered "couldn't read body" c.read_body λ body. do
      let (e, request) = unmarshal body
      report_error "couldn't unmarshal body" e
      let bulk = new_bulk ("bulk-" <> input_hash F body) request
      answered "couldn't create calculation bulk" (C.create Kind.bulks bulk)
          λ _. c.json 200 (item Kind.bulks bulk)

    unfoldable pub new_worker_pool : String → WorkerPool
    new_worker_pool name = record {
      meta = record no_meta { name = "workerpool-" <> name; namespace = namespace };
      workers = none;
      status = record { creation_time = none; pending_time = none; completion_time = none };
    }

    unfoldable pub create_worker_pool : Action C.World (Unit {0})
    unfolding response_error new_worker_pool retrying
    create_worker_pool =
        let pool = new_worker_pool (c.query "name") in
        answered "couldn't create workerpool" (C.create Kind.pools pool) λ _. retrying (
          answered "couldn't get the newly created workerpool"
            (C.get Kind.pools (meta_key pool.meta))
            λ new_pool. c.json 200 (item Kind.pools new_pool))

    -- The closures of deleteCalculationBulk and deleteWorkerPool, which differ in their texts.
    unfoldable pub delete_stored : Kind → String → String → String → Action C.World (Unit {0})
    unfolding response_error
    delete_stored k name failed done = do
      o ← C.get k (key name)
      answer ← caught (C.delete k o)
      elim answer [
        | inl e ↦ response_error failed (some e) >> fail e
        | inr _ ↦ c.json 200 (message done 200)
      ]

    unfoldable pub delete_calculation_bulk : Action C.World (Unit {0})
    unfolding delete_stored retrying
    delete_calculation_bulk =
        let name = c.param "id" in
        retrying (
          delete_stored Kind.bulks name ("failed to delete the calculation bulk " <> name)
            ("calculation bulk " <> name <> " has been deleted"))

    unfoldable pub delete_worker_pool : Action C.World (Unit {0})
    unfolding delete_stored retrying
    delete_worker_pool =
        let name = c.param "id" in
        retrying (
          delete_stored Kind.pools name ("failed to delete the workerpool " <> name)
            ("workerpool " <> name <> " has been deleted"))

    -- A calculation that could not be read is answered, and the zero value is deleted.
    unfoldable pub delete_calculation : (quote : String → String) → Action C.World (Unit {0})
    unfolding response_error
    delete_calculation quote = do
      let id = c.param "id"
      answer ← caught (C.get Kind.calculations (key id))
      calc ← elim answer [
        | inl e ↦
            response_error ("failed to get calculation " <> id) (some e) >> pure zero_calculation
        | inr calc ↦ pure calc
      ]
      answered "couldn't delete calculation" (C.delete Kind.calculations calc)
          λ _. c.json 200 (message ("calculation " <> quote id <> " has been deleted") 200)

    -- The handlers that list a kind, and those that read one object of it.
    unfoldable pub get_all : Kind → String → Action C.World (Unit {0})
    unfolding response_error
    get_all k failed = answered failed (C.list k) λ os. c.json 200 (items k os)

    unfoldable pub get_by_name : Kind → String → Action C.World (Unit {0})
    unfolding response_error
    get_by_name k failed =
        answered (failed <> c.param "id") (C.get k (key (c.param "id"))) λ o. c.json 200 (item k o)

    unfoldable pub get_calculation_bulks : Action C.World (Unit {0})
    unfolding get_all
    get_calculation_bulks = get_all Kind.bulks "couldn't get calculations list"

    unfoldable pub get_calculations : Action C.World (Unit {0})
    unfolding get_all
    get_calculations = get_all Kind.calculations "couldn't get calculations list"

    unfoldable pub get_worker_pools : Action C.World (Unit {0})
    unfolding get_all
    get_worker_pools = get_all Kind.pools "couldn't get workerpool list"

    unfoldable pub get_calculation_bulk_by_name : Action C.World (Unit {0})
    unfolding get_by_name
    get_calculation_bulk_by_name = get_by_name Kind.bulks "failed to get calculation bulk "

    unfoldable pub get_calculation_by_name : Action C.World (Unit {0})
    unfolding get_by_name
    get_calculation_by_name = get_by_name Kind.calculations "failed to get calculation "

    unfoldable pub get_calculation : Formats → Action C.World (Unit {0})
    unfolding response_error matching
    get_calculation F =
        let teff = c.query "teff" in
        let log_g = c.query "logG" in
        answered ("failed to get calculation with teff: " <> teff <> " and logG: " <> log_g)
          (C.list Kind.calculations)
          λ calcs.
            c.json 200 (
              items Kind.calculations (matching F (F.parse_float teff) (F.parse_float log_g) calcs))

    -- A failed get is answered inside the closure, at each attempt, and once more outside.
    unfoldable pub pool_answer : String → Error ⊎ WorkerPool → Action C.World (Unit {0})
    unfolding response_error
    pool_answer name (inl e) =
        response_error ("failed to get the workerpool " <> name) (some e) >> fail e
    pool_answer name (inr pool) = c.json 200 (item Kind.pools pool)

    unfoldable pub get_worker_pool_by_name : Action C.World (Unit {0})
    unfolding pool_answer retrying
    get_worker_pool_by_name =
        let name = c.param "id" in
        retrying do answer ← caught (C.get Kind.pools (key name)); pool_answer name answer

    unfoldable pub get_results : ResultsClient C.World → Action C.World (Unit {0})
    get_results G = do
      answer ← caught c.bind_json
      elim answer [
        | inl e ↦ c.json 400 (error e)
        | inr parameters ↦ (do
          reply ← caught (G.get_data parameters)
          elim reply [ inl e ↦ c.json 500 (error e) | inr res ↦ c.json 200 (results res) ])
      ]
