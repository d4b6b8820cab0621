-- ===== src/Commands/Worker.antt =====
-- cmd/worker/main.go, the construction of its operator in pkg/worker/operator.go, and the
-- AddToManager of the worker's controllers. What follows is Worker.Operator.
use ccb_operator.Base.{String, List, [], ◌∷◌, ◌⊎◌, if◌then◌else◌, ◌==◌}
use ccb_operator.Go.{Error, text, Action, pure, fail, wrapping, ◌>>=◌, ◌>>◌}
use ccb_operator.Api.{Kind}
use ccb_operator.Flags.{string_var, parse}
use ccb_operator.Grpc.{ResultsClient, GrpcOptions, default_grpc_options, bind_grpc, new_client}
use ccb_operator.Setup.{Setup, or_fatal, or_exit, load_cluster_config, add_controller}
use ccb_operator.Worker.{Identity}

pub record Options : Type 0 where
  pub nfs_path : String
  pub namespace : String
  pub worker_pool : String
  pub nodename : String
  pub grpc_client_options : GrpcOptions

abbrev pub default_options : Options
default_options = record {
  nfs_path = "/var/tmp/nfs";
  namespace = "vega";
  worker_pool = "vega-workers";
  nodename = "";
  grpc_client_options = default_grpc_options;
}

unfoldable pub gather_options : List (String × String) → Error ⊎ Options
unfolding parse bind_grpc
gather_options arguments =
    parse
      (string_var "nfs-path" (λ s o. record o { nfs_path = s })
        ∷ string_var "namespace" (λ s o. record o { namespace = s })
        ∷ string_var "nodename" (λ s o. record o { nodename = s })
        ∷ string_var "worker-pool" (λ s o. record o { worker_pool = s })
        ∷ bind_grpc (λ f o. record o { grpc_client_options = f o.grpc_client_options })
        ∷ [])
      arguments default_options

module _ {W Config Credentials : Type 0} (S : Setup W Config Credentials) where
  unfoldable pub validate_options : Options → Action W (Unit {0})
  validate_options o =
      if o.nfs_path == ""
      then fail (text "--nfs-path was not provided")
      else if o.nodename == ""
      then fail (text "--nodename was not provided")
      else pure tt

  -- AddToManager of pkg/worker/controller.go and of pkg/worker/workerpools.
  unfoldable pub add_calculations : Action W (Unit {0})
  unfolding add_controller
  add_calculations = add_controller S "calculations" Kind.calculations

  unfoldable pub add_worker_pools : Action W (Unit {0})
  unfolding add_controller
  add_worker_pools = add_controller S "workerpools" Kind.pools

  -- NewController, which ends the process if a controller cannot be added.
  unfoldable pub new_controller : Action W (Unit {0})
  unfolding add_calculations add_worker_pools
  new_controller = do
    or_fatal "Failed to add calculations controller to manager" add_calculations
    or_fatal "Failed to add workerpools controller to manager" add_worker_pools

  unfoldable pub initialize : Config → Options → Action W (ResultsClient W)
  unfolding new_client new_controller
  initialize config o = do
    wrapping "failed to construct manager" (S.new_manager config o.namespace)
    grpc_client ←
        wrapping "failed to construct grpc client"
          (new_client S.dial S.code_not_found o.grpc_client_options.address)
    new_controller
    pure grpc_client

  -- What main does before the operator runs: the worker that runs then.
  unfoldable pub start_up : List (String × String) → Action W (Identity × ResultsClient W)
  unfolding gather_options validate_options load_cluster_config initialize
  start_up arguments = do
    o ← or_exit (gather_options arguments)
    or_fatal "invalid options" (validate_options o)
    config ← or_fatal "could not load cluster clusterConfig" (load_cluster_config S)
    hostname ← or_fatal "couldn't get hostname" S.hostname
    grpc_client ← or_fatal "couldn't initialize operator" (initialize config o)
    pure (
      record {
        hostname = hostname;
        nodename = o.nodename;
        namespace = o.namespace;
        worker_pool = o.worker_pool;
      },
      grpc_client,
    )
