-- ===== src/Commands/Started.antt =====
-- What is known when a command has set itself up.
use ccb_operator.Base.{
  ◌⊎◌, ◌≡◌, refl, ◌≢◌, ◌==◌, false, Bool-cases, inl, inr, String, List, Option, none, some, arith,
  [],
}
use ccb_operator.Base.Integers.{ℤ}
use ccb_operator.Go.{Error, Action}
use ccb_operator.Go.Rules.{Runs->>=, Runs-pure}
use ccb_operator.Setup.{Setup, load_cluster_config}
use ccb_operator.Setup.Rules.{Ensures, Ensures-or_fatal, Ensures-or_exit, Ensures-any}
use ccb_operator.Worker.{Identity}
use ccb_operator.Results.{Database}
use ccb_operator.Results.Options.{Gorm, validate, validation_errors}
use ccb_operator.Results.Validated.{IsComplete, validation_errors_iff}
use ccb_operator.Commands.Worker
use ccb_operator.Commands.ResultsHandler

-- The worker that these arguments describe: it has a node, and a path for its files.
abbrev pub IsDescribed : List (String × String) → Identity → Type 0
IsDescribed arguments me =
    (o : Worker.Options) × (Worker.gather_options arguments ≡ inr o)
    × ((o.nodename ≢ "") × (o.nfs_path ≢ ""))
    × (me.nodename ≡ o.nodename)
    × (me.namespace ≡ o.namespace)
    × (me.worker_pool ≡ o.worker_pool)

module _ {W Config Credentials : Type 0} (S : Setup W Config Credentials) where
  validate_options-Ensures :
      (o : Worker.Options) (F : Type 0)
      → Ensures
          (λ _. F)
          (Worker.validate_options S o)
          (λ _ _. F × ((o.nodename ≢ "") × (o.nfs_path ≢ "")))
  unfolding Worker.validate_options
  validate_options-Ensures o F = elim (Bool-cases (o.nfs_path == "")) [
    | inl e ↦ rw e (record { run = λ w p. tt })
    | inr e ↦ rw e (elim (Bool-cases (o.nodename == "")) [
      | inl f ↦ rw f (record { run = λ w p. tt })
      | inr f ↦ rw f (record { run = λ w p. (p, (filled o.nodename f, filled o.nfs_path e)) })
    ])
  ]
    where
      filled : (s : String) → (s == "") ≡ false → s ≢ ""
      filled s h = ground arith

  -- If main comes to the start of the operator, then the arguments were parsed, the node and the
  -- path of the files are not empty, and the worker has the node, namespace and pool of the
  -- options.
  pub start_up-IsDescribed :
      (arguments : List (String × String))
      → Ensures (λ _. Unit {0}) (Worker.start_up S arguments) (λ r _. IsDescribed arguments r.0)
  unfolding Worker.start_up
  start_up-IsDescribed arguments =
      Runs->>= _ _ (Ensures-or_exit (Worker.gather_options arguments)) λ o.
        Runs->>= _ _ (Ensures-or_fatal _ (validate_options-Ensures o _)) λ _.
          Runs->>= _ _ (Ensures-or_fatal _ (Ensures-any (load_cluster_config S))) λ config.
            Runs->>= _ _ (Ensures-or_fatal _ (Ensures-any S.hostname)) λ hostname.
              Runs->>= _ _ (Ensures-or_fatal _ (Ensures-any (Worker.initialize S config o)))
                λ client. Runs-pure _ λ w (e, valid). (o, e, valid, refl, refl, refl)

-- Arguments that parse, and name user, password, host and name of the database.
abbrev pub AreComplete : (String → Option ℤ) → List (String × String) → Type 0
AreComplete parse_int arguments =
    (o : ResultsHandler.Options) × (ResultsHandler.gather_options parse_int arguments ≡ inr o)
    × IsComplete o.database_options

-- The results service comes to serving only with arguments that parse, and that give the user,
-- password, host and name of the database: with other ones, main is the same whatever serving is.
-- The aggregate of errors is none only for no errors.
pub main-IsComplete :
    {W Config Credentials : Type 0} (S : Setup W Config Credentials) (G : Gorm W)
    (parse_int : String → Option ℤ)
    → ((es : List Error) → G.new_aggregate es ≡ none → es ≡ [])
    → (arguments : List (String × String)) → ¬ AreComplete parse_int arguments
    → (serve serve' : Database W → Action W (Unit {0})) (w : W)
    → ResultsHandler.main S G parse_int serve arguments w
      ≡ ResultsHandler.main S G parse_int serve' arguments w
unfolding ResultsHandler.main validate
main-IsComplete S G parse_int none_only arguments incomplete serve serve' w =
    parsed (ResultsHandler.gather_options parse_int arguments) refl
  where
    checked :
        (o : ResultsHandler.Options)
        → ResultsHandler.gather_options parse_int arguments ≡ inr o
        → (y : Option Error) → G.new_aggregate (validation_errors o.database_options) ≡ y
        → ResultsHandler.main S G parse_int serve arguments w
          ≡ ResultsHandler.main S G parse_int serve' arguments w
    checked o f none g =
        absurd (incomplete (o, f, (validation_errors_iff o.database_options).0 (none_only _ g)))
    checked o f (some e) g = rw f (rw g refl)

    parsed :
        (x : Error ⊎ ResultsHandler.Options)
        → ResultsHandler.gather_options parse_int arguments ≡ x
        → ResultsHandler.main S G parse_int serve arguments w
          ≡ ResultsHandler.main S G parse_int serve' arguments w
    parsed (inl e) f = rw f refl
    parsed (inr o) f = checked o f (G.new_aggregate (validation_errors o.database_options)) refl
