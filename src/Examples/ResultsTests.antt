-- ===== src/Examples/ResultsTests.antt =====
-- The round trip of the results service on a database with one row.
use ccb_operator.Base.{Bool, false, String, ◌==◌, inr, Option, none, some}
use ccb_operator.Go.{Error, external, Outcome, ok, err}
use ccb_operator.Results.{CalculationResults, Database}

abbrev Table : Type 0
Table = Option CalculationResults

abbrev is_missing : Error → Bool
is_missing (external s) = s == "record not found"
is_missing _ = false

abbrev first_row : Table → Outcome CalculationResults × Table
first_row none = (err (external "record not found"), none)
first_row (some row) = (ok row, some row)

abbrev new_row : String → String → CalculationResults
new_row json results = record {
  id = 1;
  created_at = 5;
  updated_at = 5;
  deleted_at = none;
  parameters_json = json;
  results = results;
}

abbrev table : Database Table
table = record {
  first = λ conditions t. first_row t;
  save = λ row t. (ok tt, some row);
  create = λ json results t. (ok tt, some (new_row json results));
  is_record_not_found = is_missing;
  marshal = λ parameters. inr "{}";
  status_not_found = λ e. e;
  format_time = λ t. "then";
}

abbrev stored : Table
stored = some (new_row "{}" "flux")
