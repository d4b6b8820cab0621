-- ===== src/Results/Validated.antt =====
-- Which options the results service starts with.
use ccb_operator.Base.{◌≡◌, ◌≢◌, ◌↔◌, [], arith}
use ccb_operator.Results.Options.{Options, validation_errors}

-- Each option that has no default is given.
abbrev pub IsComplete : Options → Type 0
IsComplete o = (o.db_username ≢ "") × (o.db_password ≢ "") × (o.db_host ≢ "") × (o.db_name ≢ "")

pub validation_errors_iff : (o : Options) → (validation_errors o ≡ []) ↔ IsComplete o
unfolding validation_errors
validation_errors_iff o = ground arith
