-- ===== src/Util/Formats.antt =====
-- What the program takes from formatting and hashing, whose algorithms it does not contain.
use ccb_operator.Base.{ℕ, Bool, String, ◌⊎◌}
use ccb_operator.Base.Bytes.{Bytes}
use ccb_operator.Go.{Error}
use ccb_operator.Api.Meta.{Time, Float64}
use ccb_operator.Api.Bulks.{BulkCalculation}

pub record Formats : Type 0 where
  -- fmt.Sprintf("%v", calc)
  pub format_calculation : BulkCalculation → String
  -- crypto/sha256, and the encoding without padding that encoding/base32 makes of an alphabet
  pub sha256 : String → Bytes
  pub encode_base32 : String → Bytes → String
  -- fmt.Sprintf("%.Nf", x), and `==` on float64
  pub format_float : ℕ → Float64 → String
  pub float_equal : Float64 → Float64 → Bool
  -- fmt.Sprintf("%6d", int(x))
  pub format_teff : Float64 → String
  -- strconv.ParseFloat with its error ignored, and time.Parse(time.RFC3339, s)
  pub parse_float : String → Float64
  pub parse_time : String → Error ⊎ Time
