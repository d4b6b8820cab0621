-- ===== src/Commands/ApiServer.antt =====
-- The rest of cmd/apiserver/main.go: the options and the start of the HTTP server.
use ccb_operator.Base.{String, Option, List, [], ◌∷◌, ◌⊎◌}
use ccb_operator.Base.Integers.{ℤ, pos}
use ccb_operator.Go.{Error, Action, ◌>>=◌, ◌>>◌}
use ccb_operator.Cluster.{Cluster}
use ccb_operator.Flags.{string_var, int_var, parse}
use ccb_operator.Grpc.{GrpcOptions, default_grpc_options, bind_grpc, new_client}
use ccb_operator.Setup.{Setup, or_fatal, or_exit, load_cluster_config}
use ccb_operator.Util.Formats.{Formats}
use ccb_operator.ApiServer.{Context, Unmarshal}
use ccb_operator.ApiServer.Routes.{Route, routes}

pub record Options : Type 0 where
  pub port : ℤ
  pub namespace : String
  pub grpc_client_options : GrpcOptions

abbrev pub default_options : Options
default_options = record {
  port = pos 8080;
  namespace = "vega";
  grpc_client_options = default_grpc_options;
}

unfoldable pub gather_options :
    (parse_int : String → Option ℤ) → List (String × String) → Error ⊎ Options
unfolding parse bind_grpc
gather_options parse_int arguments =
    parse
      (int_var parse_int "port" (λ n o. record o { port = n })
        ∷ string_var "namespace" (λ s o. record o { namespace = s })
        ∷ bind_grpc (λ f o. record o { grpc_client_options = f o.grpc_client_options })
        ∷ [])
      arguments default_options

module _ (C : Cluster) {Config Credentials : Type 0} (S : Setup C.World Config Credentials)
    (F : Formats) (unmarshal : Unmarshal) (quote : String → String)
    (swagger : Context C.World → Action C.World (Unit {0})) (parse_int : String → Option ℤ)
    (run_engine : ℤ → List (Route C.World) → Action C.World (Unit {0})) where
  -- `run_engine` is gin's Run with the routes; it returns only with an error.
  unfoldable pub main : List (String × String) → Action C.World (Unit {0})
  unfolding gather_options load_cluster_config new_client routes
  main arguments = do
    o ← or_exit (gather_options parse_int arguments)
    config ← or_fatal "could not load cluster clusterConfig" (load_cluster_config S)
    or_fatal "failed to create client" (S.new_client config)
    grpc_client ←
        or_fatal "failed to construct grpc client"
          (new_client S.dial S.code_not_found o.grpc_client_options.address)
    or_fatal "Run has ended"
        (run_engine o.port (routes C F grpc_client unmarshal quote o.namespace swagger))
