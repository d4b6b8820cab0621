-- ===== src/Janitor/Removals.antt =====
-- What the janitor deletes.
use ccb_operator.Base.{
  ℕ, ◌+◌, ◌<◌, ◌≡◌, refl, sym, subst, ◌∙◌, ◌⊎◌, inl, inr, ◌↔◌, true, false, Bool, if◌then◌else◌,
  Option, none, some, List, [], ◌∷◌, All, arith,
}
use ccb_operator.Base.Maps.{index}
use ccb_operator.Go.{Error, Action, ◌>>=◌}
use ccb_operator.Go.Rules.{Runs, Runs->>=, Runs_of_cases, Runs_given, Runs-caught_either, ended}
use ccb_operator.Api.{Kind, key_of}
use ccb_operator.Api.Meta.{Time, ObjectKey}
use ccb_operator.Api.Calculations.{CalculationPhase, Calculation, is_completed}
use ccb_operator.Cluster.{Cluster}
use ccb_operator.Cluster.View.{View, remove, same_key}
use ccb_operator.Cluster.Laws.{Contract}
use ccb_operator.Cluster.Keeps.{
  Keeps, Keeps-pure, Keeps-now, Keeps->>=, Keeps-caught, Keeps-delete, Keeps-fail, same_key-eq,
}
use ccb_operator.Util.Labels.{results_collected}
use ccb_operator.Janitor.{
  ℤ, pos, max_duration, since, leb_int, has_label, is_due, delete_if, clean_items, aggregate, clean,
}

-- The label for collected results is there.
abbrev pub IsCollected : Calculation → Type 0
IsCollected calc = has_label (index calc.meta.labels results_collected) ≡ true

-- With a retention that is not negative: a calculation is due exactly when it started longer than
-- that ago, its results are collected, and the retention is below the longest duration, at which
-- time.Since stops.
pub is_due_iff :
    (retention now : ℕ) (calc : Calculation)
    → (is_due (pos retention) now calc ≡ true)
      ↔ ((calc.status.start_time + retention < now) × (retention < max_duration) × IsCollected calc)
unfolding is_due since leb_int
is_due_iff retention now calc = ground arith

-- All other kinds are as before, and so is every calculation, unless it is gone, was completed and
-- its results were collected.
pub record OnlyRemoves (before after : View) : Type 0 where
  pub bulks : after Kind.bulks ≡ before Kind.bulks
  pub factories : after Kind.factories ≡ before Kind.factories
  pub pools : after Kind.pools ≡ before Kind.pools
  pub pods : after Kind.pods ≡ before Kind.pods
  pub calculations :
      (key : ObjectKey)
      → (after Kind.calculations key ≡ before Kind.calculations key)
        ⊎ ((after Kind.calculations key ≡ none)
            × (calc : Calculation) × (before Kind.calculations key ≡ some calc)
            × (calc.phase ≡ CalculationPhase.completed)
            × IsCollected calc)

module _ (C : Cluster) (L : Contract C) (retention : ℤ) (v : View) where
  abbrev P : View → Type 0
  P = OnlyRemoves v

  remove-OnlyRemoves :
      (calc : Calculation) (u : View)
      → v Kind.calculations (key_of Kind.calculations calc) ≡ some calc
      → calc.phase ≡ CalculationPhase.completed
      → IsCollected calc
      → P u
      → P (remove u Kind.calculations calc)
  remove-OnlyRemoves calc u stored phase collected h = record {
    bulks = h.bulks;
    factories = h.factories;
    pools = h.pools;
    pods = h.pods;
    calculations = λ key. removed key (same_key key (key_of Kind.calculations calc)) refl;
  }
    where
      removed :
          (key : ObjectKey) (b : Bool)
          → same_key key (key_of Kind.calculations calc) ≡ b
          → let after = if b then none else u Kind.calculations key in
            (after ≡ v Kind.calculations key)
            ⊎ ((after ≡ none)
                × (c : Calculation) × (v Kind.calculations key ≡ some c)
                × (c.phase ≡ CalculationPhase.completed)
                × IsCollected c)
      removed key false e = h.calculations key
      removed key true e = inr (
        refl,
        calc,
        subst (λ j. v Kind.calculations j ≡ some calc)
            (sym (same_key-eq key (key_of Kind.calculations calc) e)) stored,
        phase,
        collected,
      )

  completed_of : (p : CalculationPhase) → is_completed p ≡ true → p ≡ CalculationPhase.completed
  completed_of p e = ground arith

  IsCollected-of :
      (now : Time) (calc : Calculation) → is_due retention now calc ≡ true → IsCollected calc
  unfolding is_due
  IsCollected-of now calc e = ground arith

  clean_items-Keeps :
      (calcs : List Calculation)
      → All (λ c. v Kind.calculations (key_of Kind.calculations c) ≡ some c) calcs
      → Keeps C L P (clean_items C retention calcs)
  unfolding clean_items
  clean_items-Keeps [] h = Keeps-pure C L P _
  clean_items-Keeps (calc ∷ calcs) (stored, h) =
      tested calc stored _ (clean_items-Keeps calcs h) (is_completed calc.phase) refl
    where
      deleted :
          (calc : Calculation) (rest : Action C.World (List Error)) (due : Bool)
          → Keeps C L P rest
          → (due ≡ true → (u : View) → P u → P (remove u Kind.calculations calc))
          → Keeps C L P (delete_if C retention due calc rest)
      deleted calc rest false k removes = k
      deleted calc rest true k removes =
          Keeps->>= C L P _ _
            (Keeps-caught C L P (Keeps-delete C L P Kind.calculations calc (removes refl)))
            λ answer. Keeps->>= C L P _ _ k λ errs. Keeps-pure C L P _

      tested :
          (calc : Calculation)
          → v Kind.calculations (key_of Kind.calculations calc) ≡ some calc
          → (rest : Action C.World (List Error)) → Keeps C L P rest
          → (b : Bool) → is_completed calc.phase ≡ b
          → Keeps C L P (
              if b
              then (C.now >>= λ now. delete_if C retention (is_due retention now calc) calc rest)
              else rest)
      tested calc stored rest k false e = k
      tested calc stored rest k true e = Keeps->>= C L P _ _ (Keeps-now C L P) λ now.
          deleted calc rest (is_due retention now calc) k λ due u.
            remove-OnlyRemoves calc u stored (completed_of calc.phase e)
              (IsCollected-of now calc due)

  list-Listed :
      Runs
        (λ w. L.view w ≡ v)
        (C.list Kind.calculations)
        (λ calcs w.
          All (λ c. v Kind.calculations (key_of Kind.calculations c) ≡ some c) calcs × P (L.view w))
        (λ w. P (L.view w))
  list-Listed =
      Runs_of_cases
        (λ w calcs same got. (
          subst (λ u. All (λ c. u Kind.calculations (key_of Kind.calculations c) ≡ some c) calcs)
              same (L.list_stored Kind.calculations w calcs got),
          unchanged w same,
        ))
        unchanged
    where
      unchanged : (w : C.World) → L.view w ≡ v → P (L.view (C.list Kind.calculations w).1)
      unchanged w same = subst P (sym (L.view-list Kind.calculations w ∙ same)) (record {
        bulks = refl;
        factories = refl;
        pools = refl;
        pods = refl;
        calculations = λ key. inl refl;
      })

  aggregate-Keeps : (e : Option Error) → Keeps C L P (aggregate C retention e)
  aggregate-Keeps none = Keeps-pure C L P _
  aggregate-Keeps (some e) = Keeps-fail C L P _

  clean-Runs :
      Runs (λ w. L.view w ≡ v) (clean C retention) (λ _ w. P (L.view w)) (λ w. P (L.view w))
  unfolding clean
  clean-Runs = Runs->>= _ _ (Runs-caught_either list-Listed) (elim [
    | inl e ↦ Keeps-fail C L P _
    | inr calcs ↦
        Runs_given (All (λ c. v Kind.calculations (key_of Kind.calculations c) ≡ some c) calcs)
          (λ w p. p)
          λ listed. Keeps->>= C L P _ _ (clean_items-Keeps calcs listed) λ errs. aggregate-Keeps _
  ])

-- However a cleaning ends, bulks, factories, pools and pods are as before, and no calculation is
-- new or changed. Each that is gone was completed and carries the label for collected results.
pub clean-OnlyRemoves :
    (C : Cluster) (L : Contract C) (retention : ℤ) (w : C.World)
    → OnlyRemoves (L.view w) (L.view (clean C retention w).1)
clean-OnlyRemoves C L retention w = ended (clean-Runs C L retention (L.view w)) w refl
