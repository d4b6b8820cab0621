-- ===== src/Api/Meta.antt =====
-- What every object of the API server carries (metav1.ObjectMeta), as far as the program reads it.
-- A time is the number of nanoseconds since year 1, so Go's zero time is 0. A float64 is its bit
-- pattern: no arithmetic is done on floats, and their formatting and comparison are parameters.
use ccb_operator.Base.{ℕ, String, Option, none}
use ccb_operator.Base.Maps.{GoMap}

abbrev pub Time : Type 0
Time = ℕ

abbrev pub Float64 : Type 0
Float64 = ℕ

pub record ObjectMeta : Type 0 where
  pub namespace : String
  pub name : String
  pub labels : GoMap String
  pub creation_timestamp : Time
  pub deletion_timestamp : Option Time

pub record ObjectKey : Type 0 where
  pub namespace : String
  pub name : String

abbrev pub no_meta : ObjectMeta
no_meta = record {
  namespace = "";
  name = "";
  labels = none;
  creation_timestamp = 0;
  deletion_timestamp = none;
}

abbrev pub meta_key : ObjectMeta → ObjectKey
meta_key m = record { namespace = m.namespace; name = m.name }
