-- ===== src/Results/Options.antt =====
-- pkg/db/options.go: the options of the results service, and its connection to the database.
use ccb_operator.Base.{String, ◌<>◌, ◌==◌, if◌then◌else◌, Option, none, some, List, [], ◌∷◌, ◌++◌}
use ccb_operator.Base.Integers.{ℤ, pos}
use ccb_operator.Go.{Error, text, Action, pure, fail, wrapping, ◌>>=◌, ◌>>◌}
use ccb_operator.Flags.{Flag, string_var, int_var}
use ccb_operator.Results.{Database}

pub record Options : Type 0 where
  pub db_port : ℤ
  pub db_username : String
  pub db_password : String
  pub db_host : String
  pub db_name : String
  pub db_log_level : ℤ

abbrev pub default_options : Options
default_options = record {
  db_port = pos 5432;
  db_username = "";
  db_password = "";
  db_host = "";
  db_name = "";
  db_log_level = pos 1;
}

-- Bind, into the options that contain these.
unfoldable pub bind :
    {O : Type 0} → (String → Option ℤ) → ((Options → Options) → O → O) → List (Flag O)
bind parse_int within =
    int_var parse_int "db-port" (λ n. within λ o. record o { db_port = n })
    ∷ string_var "db-username" (λ s. within λ o. record o { db_username = s })
    ∷ string_var "db-password" (λ s. within λ o. record o { db_password = s })
    ∷ string_var "db-host" (λ s. within λ o. record o { db_host = s })
    ∷ string_var "db-name" (λ s. within λ o. record o { db_name = s })
    ∷ int_var parse_int "db-log-level" (λ n. within λ o. record o { db_log_level = n })
    ∷ []

abbrev missing : String → String → List Error
missing value flag = if value == "" then text ("--" <> flag <> " is not specified") ∷ [] else []

unfoldable pub validation_errors : Options → List Error
validation_errors o =
    missing o.db_username "db-username"
    ++ (missing o.db_password "db-password"
        ++ (missing o.db_host "db-host" ++ missing o.db_name "db-name"))

-- What is used of gorm to reach a database: Open with a level for its log, and AutoMigrate. The
-- session that is taken from the result of Open has no call of its own.
pub record Gorm (W : Type 0) : Type 0 where
  pub open_database : String → ℤ → Action W (Database W)
  pub auto_migrate : Database W → Action W (Unit {0})
  pub format_int : ℤ → String
  -- utilerrors.NewAggregate
  pub new_aggregate : List Error → Option Error

module _ {W : Type 0} (G : Gorm W) where
  abbrev pub aggregate : Option Error → Action W (Unit {0})
  aggregate none = pure tt
  aggregate (some e) = fail e

  unfoldable pub validate : Options → Action W (Unit {0})
  unfolding validation_errors
  validate o = aggregate (G.new_aggregate (validation_errors o))

  unfoldable pub connect : Options → Action W (Database W)
  connect o =
      G.open_database
        ("host="
          <> o.db_host
          <> " port="
          <> G.format_int o.db_port
          <> " user="
          <> o.db_username
          <> " dbname="
          <> o.db_name
          <> " password="
          <> o.db_password
          <> " sslmode=disable")
        o.db_log_level

  unfoldable pub new_calculation_results_store : Options → Action W (Database W)
  unfolding connect
  new_calculation_results_store o = do
    db ← wrapping "couldn't initialize database" (connect o)
    G.auto_migrate db
    pure db
