-- ===== src/System/Timed.antt =====
-- Calculations whose phase and times fit together, and what the parts of the program do to that.
use ccb_operator.Base.{
  ◌≡◌, refl, sym, subst, ap, ◌≢◌, inl, inr, Bool, true, false, Bool-cases, Option, none, some,
  String, List, if◌then◌else◌,
}
use ccb_operator.Api.{Kind, Obj, key_of}
use ccb_operator.Api.Meta.{Time, ObjectKey}
use ccb_operator.Api.Calculations.{CalculationPhase, CalculationStatus, Calculation, Step}
use ccb_operator.Cluster.View.{View, put, remove, same_key}
use ccb_operator.Cluster.Keeps.{assign_cases}
use ccb_operator.Util.Calculations.{get_calculation_final_phase, has_failed_step}
use ccb_operator.Dispatcher.Bulks.Reconciled.{OnlyAdds}
use ccb_operator.Dispatcher.Calculations.{settle}
use ccb_operator.Dispatcher.Calculations.Settled.{Settles, Finished}
use ccb_operator.Dispatcher.Factory.Made.{Made}
use ccb_operator.Dispatcher.Workers.Freed.{OnlyFrees}
use ccb_operator.Worker.Pools.Membership.{LeftIn}
use ccb_operator.Janitor.Removals.{OnlyRemoves}

abbrev HasTime : Option Time → Type 0
HasTime t = (time : Time) × (t ≡ some time)

-- A calculation is created, processing since a time that is noted, or completed or failed at a time
-- that is noted. The empty phase, `cached` and unknown phases do not occur.
abbrev pub WellTimed : CalculationPhase → CalculationStatus → Type 0
WellTimed CalculationPhase.created status = Unit
WellTimed CalculationPhase.processing status = HasTime status.pending_time
WellTimed CalculationPhase.completed status = HasTime status.completion_time
WellTimed CalculationPhase.failed status = HasTime status.completion_time
WellTimed _ status = ⊥

abbrev pub IsWellTimed : Calculation → Type 0
IsWellTimed calc = WellTimed calc.phase calc.status

abbrev pub AllWellTimed : View → Type 0
AllWellTimed v =
    (key : ObjectKey) (calc : Calculation) → v Kind.calculations key ≡ some calc → IsWellTimed calc

pub put-AllWellTimed :
    (v : View) (calc : Calculation)
    → IsWellTimed calc
    → AllWellTimed v
    → AllWellTimed (put v Kind.calculations calc)
put-AllWellTimed v calc is p key c found =
    elim (assign_cases (v Kind.calculations) (key_of Kind.calculations calc) key calc c found) [
      | inl e ↦ subst IsWellTimed e is
      | inr old ↦ p key c old
    ]

-- Calculations of `u` that are those of `v`, some of them gone.
abbrev pub NoneNew : View → View → Type 0
NoneNew v u =
    (key : ObjectKey) (calc : Calculation)
    → u Kind.calculations key ≡ some calc
    → v Kind.calculations key ≡ some calc

pub NoneNew-AllWellTimed : (v u : View) → NoneNew v u → AllWellTimed v → AllWellTimed u
NoneNew-AllWellTimed v u h p key calc found = p key calc (h key calc found)

pub NoneNew-of_same : (v u : View) → u Kind.calculations ≡ v Kind.calculations → NoneNew v u
NoneNew-of_same v u same key calc found = cc (ap (λ f. f key) same, found)

pub put_other-NoneNew :
    (v : View) (k : Kind) (o : Obj k) → k ≢ Kind.calculations → NoneNew v (put v k o)
put_other-NoneNew v Kind.calculations o n = absurd (n refl)
put_other-NoneNew v Kind.bulks o n = λ key calc found. found
put_other-NoneNew v Kind.factories o n = λ key calc found. found
put_other-NoneNew v Kind.pools o n = λ key calc found. found
put_other-NoneNew v Kind.pods o n = λ key calc found. found

pub remove-NoneNew : (v : View) (k : Kind) (o : Obj k) → NoneNew v (remove v k o)
remove-NoneNew v Kind.calculations o =
    λ key calc. removed key calc (same_key key (key_of Kind.calculations o))
  where
    removed :
        (key : ObjectKey) (calc : Calculation) (b : Bool)
        → (if b then none else v Kind.calculations key) ≡ some calc
        → v Kind.calculations key ≡ some calc
    removed key calc true e = absurd (cc e)
    removed key calc false e = e
remove-NoneNew v Kind.bulks o = λ key calc found. found
remove-NoneNew v Kind.factories o = λ key calc found. found
remove-NoneNew v Kind.pools o = λ key calc found. found
remove-NoneNew v Kind.pods o = λ key calc found. found

-- The components that only delete calculations.
pub OnlyFrees-NoneNew : (pod : String) (v u : View) → OnlyFrees pod v u → NoneNew v u
OnlyFrees-NoneNew pod v u h key calc found = elim (h.calculations key) [
  | inl same ↦ cc (same, found)
  | inr (gone, _, _, _) ↦ absurd (cc (gone, found))
]

pub OnlyRemoves-NoneNew : (v u : View) → OnlyRemoves v u → NoneNew v u
OnlyRemoves-NoneNew v u h key calc found = elim (h.calculations key) [
  | inl same ↦ cc (same, found)
  | inr (gone, _, _, _, _) ↦ absurd (cc (gone, found))
]

pub OnlyAdds-AllWellTimed : (v u : View) → OnlyAdds v u → AllWellTimed v → AllWellTimed u
OnlyAdds-AllWellTimed v u h p key calc found = elim (h.added key calc found) [
  | inl old ↦ p key calc old
  | inr e ↦ rw e tt
]

settle-IsWellTimed :
    (steps : List Step) (now : Time) (calc : Calculation)
    → IsWellTimed (settle (get_calculation_final_phase steps) now calc)
unfolding get_calculation_final_phase
settle-IsWellTimed steps now calc = elim (Bool-cases (has_failed_step steps)) [
  | inl e ↦ rw e (now, refl)
  | inr e ↦ rw e (now, refl)
]

pub Settles-AllWellTimed :
    (req : ObjectKey) (v u : View) → Settles Finished req v u → AllWellTimed v → AllWellTimed u
Settles-AllWellTimed req v u h p = elim h.calculations [
  | inl same ↦ NoneNew-AllWellTimed v u (NoneNew-of_same v u same) p
  | inr (calc, calc', _, (now, _, _, made), after) ↦ λ key c found.
      put-AllWellTimed v calc'
        (subst IsWellTimed (sym made) (settle-IsWellTimed calc.spec.steps now calc)) p key c
        (cc (ap (λ f. f key) after, found))
]

pub Made-NoneNew : (req : ObjectKey) (v u : View) → Made req v u → NoneNew v u
Made-NoneNew req v u (inl same) = NoneNew-of_same v u (ap (λ x. x Kind.calculations) same)
Made-NoneNew req v u (inr (f, bulk, found, ready, _, inl e)) =
    NoneNew-of_same v u (ap (λ x. x Kind.calculations) e)
Made-NoneNew req v u (inr (f, bulk, found, ready, _, inr e)) =
    NoneNew-of_same v u (ap (λ x. x Kind.calculations) e)

pub LeftIn-NoneNew :
    (node : String) (key : ObjectKey) (v u : View) → LeftIn node key v u → NoneNew v u
LeftIn-NoneNew node key v u (pool, pool', found, left, inl e) =
    NoneNew-of_same v u (ap (λ x. x Kind.calculations) e)
LeftIn-NoneNew node key v u (pool, pool', found, left, inr (e, _)) =
    NoneNew-of_same v u (ap (λ x. x Kind.calculations) e)
