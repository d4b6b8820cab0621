-- ===== src/Janitor.antt =====
-- cmd/janitor/main.go: deletes the calculations that are old enough.
pub mod Cleaned
pub mod Removals
use ccb_operator.Base.{
  ℕ, suc, ◌+◌, ◌-◌, ◌*◌, Bool, true, false, ◌&&◌, not, ◌==◌, leb, if◌then◌else◌, String, ◌<>◌,
  Option, none, some, List, [], ◌∷◌, ◌⊎◌, inl, inr,
}
pub use ccb_operator.Base.Integers.{ℤ, pos, negsuc}
use ccb_operator.Base.Maps.{index}
use ccb_operator.Go.{Error, text, wrap, Action, pure, fail, caught, ◌>>=◌, ◌>>◌}
use ccb_operator.Api.{Kind}
use ccb_operator.Api.Meta.{Time}
use ccb_operator.Api.Calculations.{Calculation, is_completed}
use ccb_operator.Cluster.{Cluster}
use ccb_operator.Util.Labels.{results_collected}

-- A time.Duration is an int64 of nanoseconds.
abbrev pub max_duration : ℕ
max_duration = 9223372036854775807

abbrev min : ℕ → ℕ → ℕ
min a b = if leb a b then a else b

-- time.Since, which stops at the ends of int64.
unfoldable pub since : Time → Time → ℤ
since now start =
    if leb start now
    then pos (min (now - start) max_duration)
    else negsuc (min (start - now - 1) max_duration)

unfoldable pub leb_int : ℤ → ℤ → Bool
leb_int (pos a) (pos b) = leb a b
leb_int (pos a) (negsuc b) = false
leb_int (negsuc a) (pos b) = true
leb_int (negsuc a) (negsuc b) = leb b a

-- `if s != "" { retention, err = time.ParseDuration(s) }`; `initial` is the value before.
unfoldable pub validate : (parse_duration : String → Error ⊎ ℤ) → String → ℤ → Error ⊎ ℤ
validate parse_duration s initial = if s == "" then inr initial else elim (parse_duration s) [
  | inl e ↦ inl (text "couldn't parse duration")
  | inr retention ↦ inr retention
]

abbrev pub has_label : Option String → Bool
has_label none = false
has_label (some _) = true

-- The three tests of the loop, at the time that the second one reads.
unfoldable pub is_due : ℤ → Time → Calculation → Bool
unfolding since leb_int
is_due retention now calc =
    not (leb_int (since now calc.status.start_time) retention)
    && has_label (index calc.meta.labels results_collected)

abbrev pub collect : Error ⊎ Unit {0} → String → List Error → List Error
collect (inl e) name errs = wrap ("couldn't delete calculation " <> name) e ∷ errs
collect (inr _) name errs = errs

-- What the select of Start receives. The channel that is filled every thirty seconds is `tick`.
pub data Received : Type 0 where
  stop tick : Received

module _ (C : Cluster) (retention : ℤ) where
  -- The loop over the calculations, and the errors that it collects.
  -- The rest of the loop's body, and then the rest of the loop.
  abbrev pub delete_if :
      Bool → Calculation → Action C.World (List Error) → Action C.World (List Error)
  delete_if false calc rest = rest
  delete_if true calc rest = do
    answer ← caught (C.delete Kind.calculations calc)
    errs ← rest
    pure (collect answer calc.meta.name errs)

  unfoldable pub clean_items : List Calculation → Action C.World (List Error)
  unfolding is_due
  clean_items [] = pure []
  clean_items (calc ∷ calcs) =
      if is_completed calc.phase
      then (do now ← C.now; delete_if (is_due retention now calc) calc (clean_items calcs))
      else clean_items calcs

  abbrev pub aggregate : Option Error → Action C.World (Unit {0})
  aggregate none = pure tt
  aggregate (some e) = fail e

  unfoldable pub clean : Action C.World (Unit {0})
  unfolding clean_items
  clean = do
    answer ← caught (C.list Kind.calculations)
    elim answer [
      | inl e ↦ fail (text "couldn't list calculations")
      | inr calcs ↦ (do errs ← clean_items calcs; aggregate (C.new_aggregate errs))
    ]

  -- Start, on what it receives. An error of `clean` is logged.
  unfoldable pub start : List Received → Action C.World (Unit {0})
  unfolding clean
  start [] = pure tt
  start (stop ∷ received) = pure tt
  start (tick ∷ received) = do _ ← caught clean; start received
