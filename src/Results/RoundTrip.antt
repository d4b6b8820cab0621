-- ===== src/Results/RoundTrip.antt =====
-- What is stored in the results service is read back.
use ccb_operator.Base.{◌≡◌, true, String, inr, List, ◌<>◌, some, All}
use ccb_operator.Base.Maps.{Entries, NodupKeys, lookup}
use ccb_operator.Go.{Error, ok, err}
use ccb_operator.Grpc.{GetDataResponse}
use ccb_operator.Results.{CalculationResults, Database, Where, get_data}

-- A condition that asks for one of the parameters, as PostgreSQL reads it.
abbrev Asks : Entries String → Where → Type 0
Asks parameters c =
    (key : String) × (value : String) × (lookup key parameters ≡ some value)
    × (c.condition ≡ "parameters_json ->> '" <> key <> "' = ?")
    × (c.value ≡ value)

-- What the service relies on: a row that is saved is still the first one of the search that found
-- it, with other columns of gorm.Model perhaps, and a search that found none finds a row that was
-- created since with the JSON of some parameters, if it asks for these parameters only.
pub record Lawful {W : Type 0} (D : Database W) : Type 0 where
  pub first_saved :
      (conditions : List Where) (row : CalculationResults) (results : String) (w w1 w2 : W)
      → D.first conditions w ≡ (ok row, w1)
      → D.save (record row { results = results }) w1 ≡ (ok tt, w2)
      → (saved : CalculationResults) × (w3 : W) × (D.first conditions w2 ≡ (ok saved, w3))
        × (saved.results ≡ results)
  pub first_created :
      (parameters : Entries String) (conditions : List Where) (json results : String) (e : Error)
      (w w1 w2 : W)
      → NodupKeys parameters
      → All (Asks parameters) conditions
      → D.marshal parameters ≡ inr json
      → D.first conditions w ≡ (err e, w1)
      → D.is_record_not_found e ≡ true
      → D.create json results w1 ≡ (ok tt, w2)
      → (row : CalculationResults) × (w3 : W) × (D.first conditions w2 ≡ (ok row, w3))
        × (row.results ≡ results)

-- In a world, the service answers a request for the parameters with the results.
abbrev pub Answers : {W : Type 0} → Database W → Entries String → String → W → Type 0
Answers {W} D parameters results u =
    (resp : GetDataResponse) × (w3 : W) × (get_data D parameters u ≡ (ok resp, w3))
    × (resp.results ≡ results)

module _ {W : Type 0} (D : Database W) (L : Lawful D) (parameters : Entries String)
    (nodup : NodupKeys parameters) (results : String) (w : W) where
  abbrev Read : W → Type 0
  Read = Answers D parameters results
