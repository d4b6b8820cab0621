-- ===== src/Commands/ResultsHandler.antt =====
-- cmd/results-handler/main.go
use ccb_operator.Base.{String, Option, List, ◌∷◌, ◌⊎◌}
use ccb_operator.Base.Integers.{ℤ, pos}
use ccb_operator.Go.{Error, Action, ◌>>=◌, ◌>>◌}
use ccb_operator.Flags.{int_var, parse}
use ccb_operator.Setup.{Setup, or_fatal, or_exit}
use ccb_operator.Results.{Database}
use ccb_operator.Results.Options.{
  Options as DbOptions, default_options as default_db_options, bind, Gorm, validate,
  new_calculation_results_store,
}

pub record Options : Type 0 where
  pub port : ℤ
  pub database_options : DbOptions

abbrev pub default_options : Options
default_options = record { port = pos 50051; database_options = default_db_options }

unfoldable pub gather_options :
    (parse_int : String → Option ℤ) → List (String × String) → Error ⊎ Options
unfolding parse bind
gather_options parse_int arguments =
    parse
      (int_var parse_int "port" (λ n o. record o { port = n })
        ∷ bind parse_int (λ f o. record o { database_options = f o.database_options }))
      arguments default_options

module _ {W Config Credentials : Type 0} (S : Setup W Config Credentials) (G : Gorm W)
    (parse_int : String → Option ℤ) (serve : Database W → Action W (Unit {0})) where
  -- `serve` is the Serve of a server with the methods of Server over the store.
  unfoldable pub main : List (String × String) → Action W (Unit {0})
  unfolding gather_options validate new_calculation_results_store
  main arguments = do
    o ← or_exit (gather_options parse_int arguments)
    or_fatal "invalid options" (validate G o.database_options)
    store ←
        or_fatal "couldn't initialize database" (new_calculation_results_store G o.database_options)
    or_fatal "failed to listen" (S.listen o.port)
    or_fatal "failed to serve" (serve store)
