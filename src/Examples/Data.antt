-- ===== src/Examples/Data.antt =====
-- A small cluster, and instances of the other things that the program takes from outside.
use ccb_operator.Base.{true, false, String, ◌<>◌, none, some, List, [], ◌∷◌, ◌++◌, inr}
use ccb_operator.Base.Bytes.{bytes, same_byte}
use ccb_operator.Base.Maps.{Entries}
use ccb_operator.Go.{external, ok, err}
use ccb_operator.Api.{Kind, Obj}
use ccb_operator.Api.Meta.{ObjectMeta, ObjectKey, no_meta}
use ccb_operator.Api.Calculations.{CalculationPhase, Calculation, Step, zero_calculation}
use ccb_operator.Api.Bulks.{CalculationBulk, BulkCalculation, zero_bulk, zero_bulk_calculation}
use ccb_operator.Api.Factories.{CalculationBulkFactory}
use ccb_operator.Api.Workers.{Worker, WorkerState, WorkerPool, zero_worker}
use ccb_operator.Grpc.{ResultsClient}
use ccb_operator.Util.Formats.{Formats}
use ccb_operator.Util.Calculations.{new_step}
use ccb_operator.Worker.{Identity}
use ccb_operator.Worker.Machine.{Machine, visit}
use ccb_operator.Worker.Messages.{Result}
use ccb_operator.Dispatcher.Factory.{Outside}
use ccb_operator.ApiServer.{Context}
use ccb_operator.Examples.Memory.{Memory}

abbrev pub formats : Formats
formats = record {
  format_calculation = λ c. "calculation";
  sha256 = bytes;
  encode_base32 = λ alphabet b. "hash";
  format_float = λ n x. "0.0";
  float_equal = same_byte;
  format_teff = λ x. " 10000";
  parse_float = λ s. 0;
  parse_time = λ s. inr 5;
}

abbrev pub named : String → ObjectMeta
named name = record no_meta { namespace = "vega"; name = name }

abbrev pub at : String → ObjectKey
at name = record { namespace = "vega"; name = name }

abbrev pub in_phase : CalculationPhase → BulkCalculation
in_phase phase = record zero_bulk_calculation { phase = phase; steps = new_step "ls" [] ∷ [] }

abbrev pub bulk_calculations : Entries BulkCalculation
bulk_calculations =
    ("b", in_phase CalculationPhase.no_phase)
    ∷ ("a", in_phase CalculationPhase.no_phase)
    ∷ ("c", in_phase CalculationPhase.completed)
    ∷ []

abbrev pub a_bulk : CalculationBulk
a_bulk = record zero_bulk {
  meta = named "bulk";
  worker_pool = "pool";
  calculations = some bulk_calculations;
}

abbrev pub workers : Entries Worker
workers =
    (
      "node-1",
      record zero_worker { name = "pod-1"; node = "node-1"; state = WorkerState.available },
    )
    ∷ (
      "node-2",
      record zero_worker { name = "pod-2"; node = "node-2"; state = WorkerState.processing },
    )
    ∷ []

abbrev pub a_pool : WorkerPool
a_pool = record {
  meta = named "pool";
  workers = some workers;
  status = record { creation_time = none; pending_time = none; completion_time = none };
}

abbrev pub done_step : Step
done_step = record { command = "ls"; args = []; status = CalculationPhase.completed }

abbrev pub a_calculation : Calculation
a_calculation = record zero_calculation {
  meta = record (named "calc") {
    labels = some (
        ("vegaproject.io/assign", "pod-1")
        ∷ ("vegaproject.io/bulk", "bulk")
        ∷ ("vegaproject.io/calculationName", "a")
        ∷ ("vegaproject.io/results-collected", "")
        ∷ []);
  };
  phase = CalculationPhase.processing;
  assign = "pod-1";
  spec = record (zero_calculation.spec) { steps = done_step ∷ [] };
}

abbrev pub old_calculation : Calculation
old_calculation = record a_calculation {
  meta = record (a_calculation.meta) { name = "old" };
  phase = CalculationPhase.completed;
}

abbrev pub a_factory : CalculationBulkFactory
a_factory = record {
  meta = named "factory";
  root_folder = "root";
  input_files = none;
  worker_pool = "pool";
  bulk_output = "bulk.yaml";
  command = "make";
  args = [];
  status = record {
    created_time = 0;
    completion_time = some 3;
    conditions = [];
    bulk_created = false;
  };
}

abbrev stored : (k : Kind) → List (Obj k)
stored Kind.calculations = a_calculation ∷ old_calculation ∷ []
stored Kind.bulks = a_bulk ∷ []
stored Kind.factories = a_factory ∷ []
stored Kind.pools = a_pool ∷ []
stored Kind.pods = []

abbrev pub cluster : Memory
cluster = record { clock = 1000; objects = stored; answers = [] }

abbrev pub service : ResultsClient Memory
service = record {
  get_data = λ q m. (ok (some (record { results = "x"; created_at = "then" })), m);
  store_data = λ q r m. (ok (record { message = "Data stored successfully" }), m);
  code_not_found = λ e. true;
}

-- Every command fails, and no file can be written.
abbrev pub machine : Machine Memory
machine = record {
  set_rlimit_stack = λ m. (ok tt, m);
  mkdir_temp = λ s m. (ok "/tmp/calc", m);
  stat = λ p m. (ok tt, m);
  mkdir_all = λ p m. (ok tt, m);
  read_file = λ p m. (ok (bytes "text"), m);
  write_file = λ p b m. (err (external "disk full"), m);
  open_file = λ p m. (ok tt, m);
  create_file = λ p m. (ok tt, m);
  copy = λ a b m. (ok tt, m);
  symlink = λ a b m. (ok tt, m);
  remove_all = λ p m. (ok tt, m);
  walk = λ p m. (ok (visit p p false ∷ []), m);
  scan_lines = λ p m. (ok ([], none), m);
  run_command = λ d c args m. (ok (bytes "out", some (external "exit status 1")), m);
  compile = λ s. inr (λ n. true);
  join = λ a b. a <> "/" <> b;
  base = λ p. p;
  split_file = λ p. p;
  step_file = λ n. "step";
  text_of = λ b. "text";
  parse = λ b. inr (λ vars. inr b);
}

abbrev pub outside : Outside Memory
outside = record {
  read_file = λ p m. (ok "kind: CalculationBulk", m);
  unmarshal_bulk = λ s. some (record a_bulk { meta = named "made" });
  join = λ a b c. a <> b <> c;
  send = λ c m. (ok tt, m);
}

abbrev pub me : Identity
me = record { hostname = "pod-3"; nodename = "node-3"; namespace = "vega"; worker_pool = "pool" }

abbrev pub a_result : Result
a_result = record {
  calc_name = "calc";
  step = 0;
  status = CalculationPhase.failed;
  stdout_stderr = [];
  command_error = none;
}

-- A request for the object `calc`.
abbrev pub context : Context Memory
context = record {
  read_body = λ m. (ok "{}", m);
  bind_json = λ m. (ok [], m);
  query = λ s. "0";
  param = λ s. "calc";
  json = λ s p m. (ok tt, record m { answers = m.answers ++ (s ∷ []) });
}
