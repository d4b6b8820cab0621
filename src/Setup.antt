-- ===== src/Setup.antt =====
-- What the commands take from outside to set themselves up (client-go, controller-runtime, grpc, os,
-- net), and pkg/util/config.go.
pub mod Rules
use ccb_operator.Base.{Bool, String, ◌⊎◌, inl, inr}
use ccb_operator.Base.Integers.{ℤ}
use ccb_operator.Go.{
  Error, Action, pure, fail, panics, caught, wrapping, describing, unless_error, ◌>>=◌, ◌>>◌,
}
use ccb_operator.Api.{Kind}
use ccb_operator.Grpc.{Connection}

pub record Setup (W Config Credentials : Type 0) : Type 0 where
  -- rest.InClusterConfig, and clientcmd's Load and ClientConfig
  pub in_cluster_config : Action W Config
  pub load_credentials : Action W Credentials
  pub client_config : Credentials → Action W Config
  -- ctrlruntimeclient.New
  pub new_client : Config → Action W (Unit {0})
  -- NewManager with the cache of one namespace, AddToScheme with a version of the API, and Start
  pub new_manager : Config → String → Action W (Unit {0})
  pub add_to_scheme : String → Action W (Unit {0})
  pub start_manager : Action W (Unit {0})
  -- controller.New, and Watch of a controller on the objects of a kind in the manager's cache
  pub new_controller : String → Action W (Unit {0})
  pub watch : String → Kind → Action W (Unit {0})
  -- IndexField on the calculations
  pub index_field : String → Action W (Unit {0})
  pub dial : String → Action W (Connection W)
  pub code_not_found : Error → Bool
  pub hostname : Action W String
  -- net.Listen on a TCP port
  pub listen : ℤ → Action W (Unit {0})

-- `if err != nil { logger.WithError(err).Fatal(message) }`, which ends the process.
abbrev pub or_fatal : {W A : Type 0} → String → Action W A → Action W A
or_fatal message m = unless_error m (panics message) pure

-- Arguments that cannot be parsed end the process.
abbrev pub or_exit : {W A : Type 0} → Error ⊎ A → Action W A
or_exit (inl e) = panics "exit status 2"
or_exit (inr a) = pure a

abbrev pub of_either : {W A : Type 0} → Error ⊎ A → Action W A
of_either (inl e) = fail e
of_either (inr a) = pure a

module _ {W Config Credentials : Type 0} (S : Setup W Config Credentials) where
  unfoldable pub load_cluster_config : Action W Config
  load_cluster_config =
      unless_error S.in_cluster_config
        (do
          credentials ← describing "could not load credentials from config" S.load_credentials
          describing "could not load client configuration" (S.client_config credentials))
        pure

  -- What the AddToManager of every controller does.
  unfoldable pub add_controller : String → Kind → Action W (Unit {0})
  add_controller name k = do
    wrapping "failed to construct controller" (S.new_controller name)
    wrapping "failed to create watch for clusterpools" (S.watch name k)
