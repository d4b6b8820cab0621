-- ===== src/Util/Calculations.antt =====
-- pkg/util/calculations.go
pub mod Phases
pub mod Sorted
use ccb_operator.Base.{
  Bool, true, false, ◌||◌, if◌then◌else◌, String, ◌<>◌, Option, none, some, List, [], ◌∷◌,
}
use ccb_operator.Base.Maps.{GoMap, Entries, entries, index}
use ccb_operator.Base.Sort.{sort, text_le}
use ccb_operator.Api.Meta.{Time, no_meta}
use ccb_operator.Api.Calculations.{
  CalculationPhase, Pipeline, vega, Step, Calculation, zero_calculation, no_status, is_no_phase,
  is_failed, is_processing,
}
use ccb_operator.Api.Bulks.{BulkCalculation, zero_bulk_calculation}
use ccb_operator.Util.Formats.{Formats}
use ccb_operator.Util.Hash.{input_hash}

abbrev pub new_step : String → List String → Step
new_step command args = record {
  command = command;
  args = args;
  status = CalculationPhase.no_phase;
}

-- The steps of every calculation of the vega pipeline.
abbrev pub vega_steps : List Step
vega_steps =
    new_step "atlas12_ada" ("s" ∷ [])
    ∷ new_step "atlas12_ada" ("r" ∷ [])
    ∷ new_step "/bin/bash" ("-c" ∷ "synspec49 < input_tlusty_fortfive" ∷ [])
    ∷ []

abbrev pub with_vega_steps : Pipeline → BulkCalculation → BulkCalculation
with_vega_steps vega calc = record calc { steps = vega_steps }
with_vega_steps _ calc = calc

module _ (F : Formats) where
  unfoldable pub get_calculation_name : BulkCalculation → String
  get_calculation_name calc = "calc-" <> input_hash F (F.format_calculation calc)

  -- Beside the calculation it returns the argument as it leaves it, since it writes through a
  -- pointer. `now` is the answer of time.Now.
  unfoldable pub new_calculation : Time → BulkCalculation → Calculation × BulkCalculation
  unfolding get_calculation_name
  new_calculation now given =
      let calc = with_vega_steps given.pipeline given in
      (
        record zero_calculation {
          meta = record no_meta { name = get_calculation_name calc };
          phase = CalculationPhase.created;
          status = record no_status { start_time = now };
          spec = record { params = calc.params; steps = calc.steps };
        },
        calc,
      )

unfoldable pub is_finished_calculation : List Step → Bool
is_finished_calculation [] = true
is_finished_calculation (step ∷ steps) =
    let rest = is_finished_calculation steps in if is_no_phase step.status then false else rest

unfoldable pub has_failed_step : List Step → Bool
has_failed_step [] = false
has_failed_step (step ∷ steps) =
    let rest = has_failed_step steps in if is_failed step.status then true else rest

unfoldable pub get_calculation_final_phase : List Step → CalculationPhase
unfolding has_failed_step
get_calculation_final_phase steps =
    if has_failed_step steps then CalculationPhase.failed else CalculationPhase.completed

pub record Item : Type 0 where
  pub name : String
  pub calculation : BulkCalculation

unfoldable pub created_keys : Entries BulkCalculation → List String
created_keys [] = []
created_keys ((k, v) ∷ calcs) =
    let rest = created_keys calcs in if is_no_phase v.phase then k ∷ rest else rest

-- `calcs[key]` is the zero value at a missing key.
abbrev pub or_zero : Option BulkCalculation → BulkCalculation
or_zero none = zero_bulk_calculation
or_zero (some c) = c

unfoldable pub items_at : GoMap BulkCalculation → List String → List Item
items_at calcs [] = []
items_at calcs (key ∷ keys) =
    record { name = key; calculation = or_zero (index calcs key) } ∷ items_at calcs keys

unfoldable pub get_sorted_created_calculations : GoMap BulkCalculation → List Item
unfolding created_keys items_at sort text_le
get_sorted_created_calculations calcs = items_at calcs (sort text_le (created_keys (entries calcs)))

unfoldable pub all_finished : Entries BulkCalculation → Bool
all_finished [] = true
all_finished ((_, calc) ∷ calcs) =
    let rest = all_finished calcs in
    if is_no_phase calc.phase || is_processing calc.phase then false else rest

unfoldable pub is_all_finished_calculations : GoMap BulkCalculation → Bool
unfolding all_finished
is_all_finished_calculations calcs = all_finished (entries calcs)
