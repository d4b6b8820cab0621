-- ===== src/Examples/CommandsTests.antt =====
-- The theorems on the commands, the routes and the stopping of a worker at concrete inputs.
use ccb_operator.Base.{
  ◌≡◌, refl, sym, ap, true, String, Option, none, some, List, [], ◌∷◌, ◌++◌, inr, All,
}
use ccb_operator.Base.Integers.{ℤ, pos}
use ccb_operator.Go.{external, ok, err, Error}
use ccb_operator.Api.{Kind}
use ccb_operator.Grpc.{Connection}
use ccb_operator.Setup.{Setup, load_cluster_config}
use ccb_operator.Setup.Rules.{Ensures}
use ccb_operator.Results.{Database}
use ccb_operator.Results.Options.{Gorm}
use ccb_operator.ApiServer.Routes.{routes}
use ccb_operator.ApiServer.Methods.{Allows, routes-Allow}
use ccb_operator.Worker.Operator.{started, Process, here, next, first_signal, manager_returns}
use ccb_operator.Worker.Operator.Stopping.{Stuck, Becomes-Stuck}
use ccb_operator.Commands.Dispatcher
use ccb_operator.Commands.ResultsHandler
use ccb_operator.Commands.Worker
use ccb_operator.Commands.Started.{IsDescribed, start_up-IsDescribed, AreComplete, main-IsComplete}
use ccb_operator.Commands.Watches.{Watched, Watching, set_up-Watched}
use ccb_operator.Examples.Memory.{Memory, memory}
use ccb_operator.Examples.Contract.{memory-Contract}
use ccb_operator.Examples.Data.{formats, cluster, service, context, me}

abbrev connection : Connection Watched
connection = record {
  get_data = λ t q w. (ok none, w);
  store_data = λ t q r w. (err (external "refused"), w);
  close = λ w. (ok tt, w);
}

-- The world is what is watched.
abbrev setup : Setup Watched (Unit {0}) (Unit {0})
setup = record {
  in_cluster_config = λ w. (err (external "not in a cluster"), w);
  load_credentials = λ w. (ok tt, w);
  client_config = λ c w. (ok tt, w);
  new_client = λ c w. (ok tt, w);
  new_manager = λ c n w. (ok tt, w);
  add_to_scheme = λ v w. (ok tt, w);
  start_manager = λ w. (ok tt, w);
  new_controller = λ n w. (ok tt, w);
  watch = λ n k w. (ok tt, w ++ ((n, k) ∷ []));
  index_field = λ f w. (ok tt, w);
  dial = λ a w. (ok connection, w);
  code_not_found = λ e. true;
  hostname = λ w. (ok "pod-1", w);
  listen = λ p w. (ok tt, w);
}

setup-Watching : Watching setup
unfolding load_cluster_config
setup-Watching = record {
  watched = λ w. w;
  watched-load = λ w. refl;
  watched-new_manager = λ c n w. refl;
  watched-add_to_scheme = λ v w. refl;
  watched-new_controller = λ n w. refl;
  watched-index_field = λ f w. refl;
  watched-dial = λ a w. refl;
  watched-watch = λ n k w _. refl;
}

set_up-Watched_example :
    Ensures
      (λ w. w ≡ [])
      (Dispatcher.set_up setup Dispatcher.default_options)
      (λ _ w.
        w
        ≡ ("calculations", Kind.calculations)
          ∷ ("worker_pods", Kind.pods)
          ∷ ("bulks", Kind.bulks)
          ∷ ("factory", Kind.factories)
          ∷ [])
unfolding setup-Watching
set_up-Watched_example = set_up-Watched setup setup-Watching Dispatcher.default_options []

start_up-IsDescribed_example :
    Ensures
      (λ _. Unit {0})
      (Worker.start_up setup (("nodename", "node-1") ∷ []))
      (λ r _. IsDescribed (("nodename", "node-1") ∷ []) r.0)
start_up-IsDescribed_example = start_up-IsDescribed setup (("nodename", "node-1") ∷ [])

abbrev database : Database Watched
database = record {
  first = λ q w. (err (external "record not found"), w);
  save = λ r w. (ok tt, w);
  create = λ p r w. (ok tt, w);
  is_record_not_found = λ e. true;
  marshal = λ q. inr "{}";
  status_not_found = λ e. e;
  format_time = λ t. "then";
}

abbrev first_error : List Error → Option Error
first_error [] = none
first_error (e ∷ _) = some e

abbrev gorm : Gorm Watched
gorm = record {
  open_database = λ url level w. (ok database, w);
  auto_migrate = λ d w. (ok tt, w);
  format_int = λ n. "5432";
  new_aggregate = first_error;
}

abbrev parse_int : String → Option ℤ
parse_int s = some (pos 5433)

abbrev arguments : List (String × String)
arguments =
    ("db-username", "vega")
    ∷ ("db-password", "secret")
    ∷ ("db-host", "localhost")
    ∷ ("db-name", "vegadb")
    ∷ ("db-port", "5433")
    ∷ []

first_error-none : (es : List Error) → first_error es ≡ none → es ≡ []
first_error-none [] h = refl
first_error-none (e ∷ es) h = absurd (cc h)

nothing_given : ¬ AreComplete parse_int []
unfolding ResultsHandler.gather_options
nothing_given (o, e, (user, _, _, _)) =
    let same : ResultsHandler.default_options ≡ o = cc e in
    user (ap (λ x. x.database_options.db_username) (sym same))

main-IsComplete_example :
    ResultsHandler.main setup gorm parse_int (λ d w. (ok tt, w)) [] []
    ≡ ResultsHandler.main setup gorm parse_int (λ d w. (err (external "not served"), w)) [] []
main-IsComplete_example =
    main-IsComplete setup gorm parse_int first_error-none [] nothing_given (λ d w. (ok tt, w))
      (λ d w. (err (external "not served"), w)) []

routes-Allow_example :
    All
      (λ r.
        Allows r.method
          (memory-Contract.view cluster)
          (memory-Contract.view (r.handle context cluster).1))
      (routes memory formats service
        (λ s. (none, record { worker_pool = "pool"; calculations = none }))
        (λ s. s)
        "vega"
        (λ c m. (ok tt, m)))
unfolding memory-Contract
routes-Allow_example =
    routes-Allow memory formats service memory-Contract
      (λ s. (none, record { worker_pool = "pool"; calculations = none })) (λ s. s) "vega"
      (λ c m. (ok tt, m)) (λ q w. refl) context
      (record {
        json_apart = λ s p w. refl;
        read_body_apart = λ w. refl;
        bind_json_apart = λ w. refl;
      })
      (λ w. refl) cluster

-- A worker that was told to stop, and whose manager has stopped.
abbrev told_to_stop : Process Memory
told_to_stop = record (started cluster) { cancelled = true; manager_ended = true }

Becomes-Stuck_example : Stuck memory me (λ m n. n ≡ m) cluster told_to_stop
Becomes-Stuck_example =
    Becomes-Stuck memory me (λ m n. n ≡ m) cluster told_to_stop
      (next (next here (first_signal refl)) (manager_returns refl))
