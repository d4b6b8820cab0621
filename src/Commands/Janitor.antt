-- ===== src/Commands/Janitor.antt =====
-- The rest of cmd/janitor/main.go.
use ccb_operator.Base.{String, List, [], ◌∷◌, ◌⊎◌}
use ccb_operator.Base.Integers.{ℤ, pos}
use ccb_operator.Go.{Error, Action, ◌>>=◌, ◌>>◌}
use ccb_operator.Cluster.{Cluster}
use ccb_operator.Flags.{string_var, parse}
use ccb_operator.Setup.{Setup, or_fatal, or_exit, of_either, load_cluster_config}
use ccb_operator.Janitor.{Received, start, validate}

pub record Options : Type 0 where
  pub retention : ℤ
  pub retention_string : String

abbrev pub default_options : Options
default_options = record { retention = pos 0; retention_string = "24h" }

unfoldable pub gather_options : List (String × String) → Error ⊎ Options
unfolding parse
gather_options arguments =
    parse (string_var "retention" (λ s o. record o { retention_string = s }) ∷ []) arguments
      default_options

module _ (C : Cluster) {Config Credentials : Type 0} (S : Setup C.World Config Credentials)
    (parse_duration : String → Error ⊎ ℤ) where
  -- main, on what the controller receives until a signal stops it.
  unfoldable pub main : List (String × String) → List Received → Action C.World (Unit {0})
  unfolding gather_options validate load_cluster_config start
  main arguments received = do
    o ← or_exit (gather_options arguments)
    retention ←
        or_fatal "validation error"
          (of_either (validate parse_duration o.retention_string o.retention))
    config ← or_fatal "could not load cluster clusterConfig" (load_cluster_config S)
    or_fatal "failed to create client" (S.new_client config)
    start C retention received
