-- ===== src/Worker/Controller/Reports.antt =====
-- What the worker's controller writes into a calculation.
use ccb_operator.Base.{
  ℕ, zero, suc, ◌≡◌, refl, ◌≢◌, Option, none, some, List, [], ◌∷◌, length, get_elem?, set,
  length-set, ap,
}
use ccb_operator.Go.{or_panic}
use ccb_operator.Go.Rules.{Runs, Runs-pure, Runs-panics}
use ccb_operator.Api.{Kind}
use ccb_operator.Api.Calculations.{Calculation, Step}
use ccb_operator.Cluster.{Cluster}
use ccb_operator.Cluster.View.{View}
use ccb_operator.Cluster.Laws.{Contract}
use ccb_operator.Cluster.Modify.{Modified, Runs-modify, Same}
use ccb_operator.Worker.{Identity}
use ccb_operator.Worker.Messages.{Result}
use ccb_operator.Worker.Controller.{with_result, update_calculation}

-- The step of the result has its status and is otherwise as before, as is every other step and the
-- rest of the calculation.
abbrev pub Reported : Result → Calculation → Calculation → Type 0
Reported r calc calc' =
    (step : Step) × (get_elem? calc.spec.steps r.step ≡ some step)
    × (get_elem? calc'.spec.steps r.step ≡ some (record step { status = r.status }))
    × ((i : ℕ) → i ≢ r.step → get_elem? calc'.spec.steps i ≡ get_elem? calc.spec.steps i)
    × (length calc'.spec.steps ≡ length calc.spec.steps)
    × (calc' ≡ record calc { spec = record (calc.spec) { steps = calc'.spec.steps } })

get_elem?-set :
    (steps : List Step) (i : ℕ) (old new : Step)
    → get_elem? steps i ≡ some old
    → get_elem? (set steps i new) i ≡ some new
get_elem?-set [] i old new h = absurd (cc h)
get_elem?-set (s ∷ steps) zero old new h = refl
get_elem?-set (s ∷ steps) (suc i) old new h = get_elem?-set steps i old new h

get_elem?-set_other :
    (steps : List Step) (i j : ℕ) (new : Step)
    → j ≢ i
    → get_elem? (set steps i new) j ≡ get_elem? steps j
get_elem?-set_other [] i j new n = refl
get_elem?-set_other (s ∷ steps) zero zero new n = absurd (n refl)
get_elem?-set_other (s ∷ steps) zero (suc j) new n = refl
get_elem?-set_other (s ∷ steps) (suc i) zero new n = refl
get_elem?-set_other (s ∷ steps) (suc i) (suc j) new n =
    get_elem?-set_other steps i j new (λ e. n (ap suc e))

module _ (C : Cluster) (L : Contract C) (me : Identity) (r : Result) (v : View) where
  report-Reported :
      (calc : Calculation) (step : Option Step)
      → get_elem? calc.spec.steps r.step ≡ step
      → Runs
          (Same C L v)
          (or_panic (with_result r calc) "index out of range")
          (λ calc' w. Reported r calc calc' × Same C L v w)
          (Same C L v)
  unfolding with_result
  report-Reported calc none e = rw (e, with_result) (Runs-panics _)
  report-Reported calc (some step) e =
      rw (e, with_result)
        (Runs-pure _ λ w same. (
          (
            step,
            refl,
            get_elem?-set calc.spec.steps r.step step _ e,
            λ i other. get_elem?-set_other calc.spec.steps r.step i _ other,
            length-set calc.spec.steps r.step _,
            refl,
          ),
          same,
        ))

module _ (C : Cluster) (L : Contract C) (me : Identity) (r : Result) (v : View) where
  -- A step's result either leaves the cluster alone, or changes the calculation that it names
  -- alone: the status of that step, which exists, and nothing else of it.
  pub update_calculation-Reported :
      Runs
        (Same C L v)
        (update_calculation C me r)
        (λ _ w.
          Modified C L Kind.calculations
            (Reported r)
            (record { namespace = me.namespace; name = r.calc_name })
            v
            (L.view w))
        (Same C L v)
  unfolding update_calculation
  update_calculation-Reported =
      Runs-modify C L Kind.calculations _ _ _ _ _
        (λ u calc. report-Reported C L me r u calc (get_elem? calc.spec.steps r.step) refl) v
