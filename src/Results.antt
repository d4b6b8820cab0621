-- ===== src/Results.antt =====
-- pkg/db and pkg/grpc/server.go: the results service, over the database that gorm reaches.
pub mod RoundTrip
pub mod Options
pub mod Validated
use ccb_operator.Base.{
  ℕ, Bool, if◌then◌else◌, String, ◌<>◌, ◌==◌, Option, List, [], ◌∷◌, ◌++◌, ◌⊎◌, inl, inr,
}
use ccb_operator.Base.Maps.{Entries}
use ccb_operator.Go.{Error, text, Action, pure, fail, caught, ◌>>=◌, ◌>>◌}
use ccb_operator.Api.Meta.{Time}
use ccb_operator.Grpc.{GetDataResponse, StoreResponse}

-- The columns of gorm.Model come first.
pub record CalculationResults : Type 0 where
  pub id : ℕ
  pub created_at : Time
  pub updated_at : Time
  pub deleted_at : Option Time
  pub parameters_json : String
  pub results : String

-- One `Where(condition, value)`.
pub record Where : Type 0 where
  pub condition : String
  pub value : String

-- What is used of gorm, encoding/json and grpc's status. `first` is the query with its conditions
-- and First; `create` sets the columns of gorm.Model.
pub record Database (W : Type 0) : Type 0 where
  pub first : List Where → Action W CalculationResults
  pub save : CalculationResults → Action W (Unit {0})
  pub create : (parameters_json : String) → (results : String) → Action W (Unit {0})
  pub is_record_not_found : Error → Bool
  pub marshal : Entries String → Error ⊎ String
  pub status_not_found : Error → Error
  pub format_time : Time → String

unfoldable pub wheres : Entries String → List Where
wheres [] = []
wheres ((key, value) ∷ parameters) =
    record { condition = "parameters_json ->> '" <> key <> "' = ?"; value = value }
    ∷ wheres parameters

module _ {W : Type 0} (D : Database W) where
  unfoldable pub find : Entries String → Action W CalculationResults
  unfolding wheres
  find parameters = D.first (wheres parameters)

  -- What follows the search for a row with the parameters.
  unfoldable pub store_found : String → String → Error ⊎ CalculationResults → Action W StoreResponse
  store_found parameters_json results (inr row) = do
    D.save (record row { results = results })
    pure (record { message = "Data updated successfully" })
  store_found parameters_json results (inl e) =
      if D.is_record_not_found e
      then (do
        D.create parameters_json results
        pure (record { message = "Data stored successfully" }))
      else fail e

  unfoldable pub store_marshalled :
      Entries String → String → Error ⊎ String → Action W StoreResponse
  unfolding find store_found
  store_marshalled parameters results (inl e) = fail e
  store_marshalled parameters results (inr parameters_json) = do
    existing ← caught (find parameters)
    store_found parameters_json results existing

  unfoldable pub store_or_update_data : Entries String → String → Action W StoreResponse
  unfolding store_marshalled
  store_or_update_data parameters results =
      store_marshalled parameters results (D.marshal parameters)

  -- The methods of Server.
  unfoldable pub store_data : Entries String → String → Action W StoreResponse
  unfolding store_or_update_data
  store_data parameters results = store_or_update_data parameters results

  unfoldable pub get_data : Entries String → Action W GetDataResponse
  unfolding find
  get_data parameters = do
    answer ← caught (find parameters)
    elim answer [
      | inl e ↦ if D.is_record_not_found e then fail (D.status_not_found e) else fail e
      | inr row ↦ pure (record { results = row.results; created_at = D.format_time row.created_at })
    ]
