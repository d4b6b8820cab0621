-- ===== src/Commands/Dispatcher.antt =====
-- cmd/dispatcher/main.go, and the AddToManager of the dispatcher's controllers.
use ccb_operator.Base.{String, List, [], ◌∷◌, ◌⊎◌}
use ccb_operator.Go.{Error, text, Action, pure, fail, caught, wrapping, unless_error, ◌>>=◌, ◌>>◌}
use ccb_operator.Api.{Kind}
use ccb_operator.Flags.{string_var, parse}
use ccb_operator.Grpc.{ResultsClient, GrpcOptions, default_grpc_options, bind_grpc, new_client}
use ccb_operator.Setup.{Setup, or_fatal, or_exit, load_cluster_config, add_controller}

pub record Options : Type 0 where
  pub namespace : String
  pub nfs_path : String
  pub grpc_client_options : GrpcOptions

abbrev pub default_options : Options
default_options = record {
  namespace = "vega";
  nfs_path = "/var/tmp/nfs";
  grpc_client_options = default_grpc_options;
}

unfoldable pub gather_options : List (String × String) → Error ⊎ Options
unfolding parse bind_grpc
gather_options arguments =
    parse
      (string_var "namespace" (λ s o. record o { namespace = s })
        ∷ string_var "nfs-path" (λ s o. record o { nfs_path = s })
        ∷ bind_grpc (λ f o. record o { grpc_client_options = f o.grpc_client_options })
        ∷ [])
      arguments default_options

module _ {W Config Credentials : Type 0} (S : Setup W Config Credentials) where
  unfoldable pub add_bulks : Action W (Unit {0})
  unfolding add_controller
  add_bulks = add_controller S "bulks" Kind.bulks

  unfoldable pub add_factory : Action W (Unit {0})
  unfolding add_controller
  add_factory = add_controller S "factory" Kind.factories

  unfoldable pub add_workers : Action W (Unit {0})
  unfolding add_controller
  add_workers = add_controller S "worker_pods" Kind.pods

  -- The error of the index is not formatted.
  unfoldable pub add_calculations : Action W (Unit {0})
  add_calculations = do
    wrapping "failed to construct controller" (S.new_controller "calculations")
    unless_error (S.index_field "phase")
        (fail (text "failed to construct the indexing fields for the cache")) pure
    wrapping "failed to create watch for clusterpools" (S.watch "calculations" Kind.calculations)

  -- What main does before it starts the manager.
  unfoldable pub set_up : Options → Action W (ResultsClient W)
  unfolding load_cluster_config add_calculations add_workers add_bulks add_factory new_client
  set_up o = do
    config ← or_fatal "could not load cluster clusterConfig" (load_cluster_config S)
    or_fatal "failed to construct manager" (S.new_manager config o.namespace)
    or_fatal "Failed to add calculationv1 to scheme" (S.add_to_scheme "calculations/v1")
    or_fatal "Failed to add corev1 to scheme" (S.add_to_scheme "core/v1")
    or_fatal "Failed to add calculations controller to manager" add_calculations
    or_fatal "Failed to add workers controller to manager" add_workers
    grpc_client ←
        or_fatal "failed to construct grpc client"
          (new_client S.dial S.code_not_found o.grpc_client_options.address)
    or_fatal "Failed to add workerpools controller to manager" add_bulks
    or_fatal "Failed to add workerpools controller to manager" add_factory
    pure grpc_client

  -- An error of the manager is logged.
  unfoldable pub main : List (String × String) → Action W (Unit {0})
  unfolding gather_options set_up
  main arguments = do
    o ← or_exit (gather_options arguments)
    _ ← set_up o
    _ ← caught S.start_manager
    pure tt
