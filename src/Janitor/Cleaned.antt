-- ===== src/Janitor/Cleaned.antt =====
-- What a cleaning achieves over a cluster where no call of it fails.
use mathlib.Core.Path.{ap}
use mathlib.Core.Bool.{false≢true}
use ccb_operator.Base.{
  Listed, Distinct, subst, ℕ, ◌+◌, ◌<◌, ◌≤◌, ◌≡◌, refl, sym, ◌∙◌, ◌⊎◌, inl, inr, Bool, true, false,
  Option, none, some, List, [], ◌∷◌, arith, Bool-cases,
}
use ccb_operator.Go.{Error, ok, Action}
use ccb_operator.Go.Success.{Succeeds, Succeeds_of_ok, ok_of_Succeeds}
use ccb_operator.Go.Rules.{Runs->>=, Runs-pure, Runs_given, Runs-from, Runs-map, Runs-caught_either}
use ccb_operator.Api.{Kind, key_of}
use ccb_operator.Api.Meta.{Time}
use ccb_operator.Api.Calculations.{CalculationPhase, Calculation, is_completed}
use ccb_operator.Cluster.{Cluster}
use ccb_operator.Cluster.View.{View, remove, assign_in_self}
use ccb_operator.Cluster.Stored.{AreStored, remove-AreStored}
use ccb_operator.Cluster.Ready.{Written-ok}
use ccb_operator.Cluster.Laws.{Contract}
use ccb_operator.Janitor.{pos, max_duration, is_due, delete_if, clean_items, aggregate, clean}
use ccb_operator.Janitor.Removals.{IsCollected, is_due_iff}

-- The calls of a cleaning succeed: a list is complete and names nothing twice, what is stored can be
-- deleted, and the time does not run backwards.
pub record Serves (C : Cluster) (L : Contract C) : Type 0 where
  pub clock : C.World → ℕ
  pub now_ok : (w : C.World) → (t : Time) × ((C.now w).0 ≡ ok t) × (clock w ≤ t)
  pub clock-now : (w : C.World) → clock w ≤ clock (C.now w).1
  pub list_all :
      (w : C.World)
      → (os : List Calculation) × ((C.list Kind.calculations w).0 ≡ ok os)
        × ((c : Calculation)
            → L.view w Kind.calculations (key_of Kind.calculations c) ≡ some c
            → Listed c os)
        × Distinct os
  pub clock-list : (w : C.World) → clock w ≤ clock (C.list Kind.calculations w).1
  pub delete_ok :
      (c : Calculation) (w : C.World)
      → L.view w Kind.calculations (key_of Kind.calculations c) ≡ some c
      → (C.delete Kind.calculations c w).0 ≡ ok tt
  pub clock-delete :
      (c : Calculation) (w : C.World) → clock w ≤ clock (C.delete Kind.calculations c w).1
  pub new_aggregate-nil : C.new_aggregate [] ≡ none

module _ (C : Cluster) (L : Contract C) (serves : Serves C L) (retention start : ℕ)
    (calc : Calculation) (completed : calc.phase ≡ CalculationPhase.completed)
    (expired : calc.status.start_time + retention < start) (bounded : retention < max_duration)
    (collected : IsCollected calc) where
  abbrev target : View → Option Calculation
  target v = v Kind.calculations (key_of Kind.calculations calc)

  abbrev Gone : C.World → Type 0
  Gone w = target (L.view w) ≡ none

  -- No earlier than the start, with what is left of a list stored, and, if `D`, without the
  -- calculation.
  abbrev Since : List Calculation → Type 0 → C.World → Type 0
  Since left D w = (start ≤ serves.clock w) × (D → Gone w) × AreStored (L.view w) left

  due_later : (now : Time) → start ≤ now → is_due (pos retention) now calc ≡ true
  due_later now h = (is_due_iff retention now calc).1 (omega arith, bounded, collected)

  remove-Gone :
      (x : Calculation) (u : View)
      → (x ≡ calc) ⊎ (u Kind.calculations (key_of Kind.calculations calc) ≡ none)
      → remove u Kind.calculations x Kind.calculations (key_of Kind.calculations calc) ≡ none
  remove-Gone x u (inl e) =
      rw e (assign_in_self u Kind.calculations (key_of Kind.calculations calc) none)
  remove-Gone x u (inr e) = ground arith

  delete-Since :
      (D : Type 0) (x : Calculation) (left : List Calculation)
      → Succeeds
          (Since (x ∷ left) D)
          (C.delete Kind.calculations x)
          (λ _. Since left (D ⊎ (x ≡ calc)))
  delete-Since D x left = Succeeds_of_ok λ w (later, gone, are_stored).
      let now_later = serves.clock-delete x w in
      let deleted = serves.delete_ok x w are_stored.0.0 in
      let removed = Written-ok _ _ deleted (L.view-delete Kind.calculations x w) in
      (
        tt,
        deleted,
        (
          omega arith,
          λ d.
              ap target removed
              ∙ remove-Gone x (L.view w) (elim d [ inl g ↦ inr (gone g) | inr e ↦ inl e ]),
          subst (λ v. AreStored v left) (sym removed)
              (remove-AreStored (L.view w) x left are_stored),
        ),
      )

  now-Since :
      (D : Type 0) (left : List Calculation)
      → Succeeds (Since left D) C.now (λ now w. (start ≤ now) × Since left D w)
  now-Since D left = Succeeds_of_ok λ w (later, gone, are_stored).
      let (now, e, not_before) = serves.now_ok w in
      let now_later = serves.clock-now w in
      (
        now,
        e,
        (
          omega arith,
          (
            omega arith,
            λ d. ap target (L.view-now w) ∙ gone d,
            subst (λ v. AreStored v left) (sym (L.view-now w)) are_stored,
          ),
        ),
      )

  Since-tail :
      (D : Type 0) (x : Calculation) (left : List Calculation) (w : C.World)
      → Since (x ∷ left) D w
      → Since left D w
  Since-tail D x left w (later, gone, ((_, are_stored), (_, once))) =
      (later, gone, (are_stored, once))

  -- What the loop over a list returns and leaves behind.
  abbrev Swept : Type 0 → List Calculation → List Error → C.World → Type 0
  Swept D calcs errs w = (errs ≡ []) × Since [] (D ⊎ Listed calc calcs) w

  Swept-skip :
      (D : Type 0) (x : Calculation) (calcs : List Calculation)
      → (x ≡ calc → ⊥)
      → (errs : List Error) (w : C.World) → Swept D calcs errs w
      → Swept D (x ∷ calcs) errs w
  Swept-skip D x calcs other errs w (e, (later, gone, none_left)) = (
    e,
    (
      later,
      elim [
        | inl d ↦ gone (inl d)
        | inr l ↦ elim l [ inl same ↦ absurd (other same) | inr m ↦ gone (inr m) ]
      ],
      none_left,
    ),
  )

  Swept-next :
      (D : Type 0) (x : Calculation) (calcs : List Calculation) (errs : List Error) (w : C.World)
      → Swept (D ⊎ (x ≡ calc)) calcs errs w
      → Swept D (x ∷ calcs) errs w
  Swept-next D x calcs errs w (e, (later, gone, none_left)) = (
    e,
    (
      later,
      elim [
        | inl d ↦ gone (inl (inl d))
        | inr l ↦ elim l [ inl same ↦ gone (inl (inr same)) | inr m ↦ gone (inr m) ]
      ],
      none_left,
    ),
  )

  delete_if-Succeeds :
      (D : Type 0) (x : Calculation) (calcs : List Calculation) (rest : Action C.World (List Error))
      → ((D' : Type 0) → Succeeds (Since calcs D') rest (Swept D' calcs))
      → (due : Bool) → (due ≡ false → x ≡ calc → ⊥)
      → Succeeds
          (Since (x ∷ calcs) D)
          (delete_if C (pos retention) due x rest)
          (Swept D (x ∷ calcs))
  delete_if-Succeeds D x calcs rest k false other =
      Runs-map (Swept-skip D x calcs (other refl)) (Runs-from (Since-tail D x calcs) (k D))
  delete_if-Succeeds D x calcs rest k true other =
      Runs->>= _ _ (Runs-caught_either (delete-Since D x calcs)) (elim [
        | inl e ↦ record { run = λ w p. absurd p }
        | inr _ ↦
            Runs->>= _ _ (k (D ⊎ (x ≡ calc))) λ errs. Runs-pure errs (Swept-next D x calcs errs)
      ])

  clean_items-Succeeds :
      (calcs : List Calculation) (D : Type 0)
      → Succeeds (Since calcs D) (clean_items C (pos retention) calcs) (Swept D calcs)
  unfolding clean_items
  clean_items-Succeeds [] D = Runs-pure [] λ w (later, gone, are_stored).
      (refl, (later, elim [ inl d ↦ gone d | inr n ↦ absurd n ], are_stored))
  clean_items-Succeeds (x ∷ calcs) D = elim (Bool-cases (is_completed x.phase)) [
    | inr e ↦ rw e (
        Runs-map
          (Swept-skip D x calcs (λ same.
            false≢true (sym e ∙ ap (λ c. is_completed c.phase) same ∙ ap is_completed completed)))
          (Runs-from (Since-tail D x calcs) (clean_items-Succeeds calcs D)))
    | inl e ↦ rw e (
        Runs->>= _ _ (now-Since D (x ∷ calcs)) λ now.
          Runs_given (start ≤ now) (λ w p. p)
            λ later.
              delete_if-Succeeds D x calcs _ (clean_items-Succeeds calcs)
                (is_due (pos retention) now x)
                (λ early same.
                  false≢true
                    (sym early ∙ ap (is_due (pos retention) now) same ∙ due_later now later)))
  ]

  list-Listed :
      Succeeds
        (λ w. (start ≤ serves.clock w) × (target (L.view w) ≡ some calc))
        (C.list Kind.calculations)
        (λ calcs w. Listed calc calcs × Since calcs ⊥ w)
  list-Listed = Succeeds_of_ok λ w (later, stored).
      let (calcs, e, complete, once) = serves.list_all w in
      let list_later = serves.clock-list w in
      (
        calcs,
        e,
        (
          complete calc stored,
          (
            omega arith,
            absurd,
            subst (λ v. AreStored v calcs) (sym (L.view-list Kind.calculations w))
                (L.list_stored Kind.calculations w calcs e, once),
          ),
        ),
      )

  aggregate-Succeeds :
      (P : C.World → Type 0) (errs : List Error)
      → errs ≡ []
      → Succeeds P (aggregate C (pos retention) (C.new_aggregate errs)) (λ _. P)
  aggregate-Succeeds P errs e = rw e (rw serves.new_aggregate-nil (Runs-pure tt λ w p. p))

  clean-Succeeds :
      Succeeds
        (λ w. (start ≤ serves.clock w) × (target (L.view w) ≡ some calc))
        (clean C (pos retention))
        (λ _. Gone)
  unfolding clean
  clean-Succeeds = Runs->>= _ _ (Runs-caught_either list-Listed) (elim [
    | inl e ↦ record { run = λ w p. absurd p }
    | inr calcs ↦
        Runs_given (Listed calc calcs) (λ w p. p)
          λ listed. Runs->>= _ _ (clean_items-Succeeds calcs ⊥) λ errs.
            Runs_given (errs ≡ []) (λ w (e, (later, gone, _)). (e, gone (inr listed)))
              λ e. aggregate-Succeeds Gone errs e
  ])

-- Over a cluster where the calls of a cleaning succeed, it returns no error, and a calculation that
-- is stored when it starts is gone, if it is completed, carries the label for collected results
-- and started longer ago than the retention, which is not negative and below the longest duration.
pub clean-Gone :
    (C : Cluster) (L : Contract C) (serves : Serves C L) (retention : ℕ) (calc : Calculation)
    (w : C.World)
    → L.view w Kind.calculations (key_of Kind.calculations calc) ≡ some calc
    → calc.phase ≡ CalculationPhase.completed
    → calc.status.start_time + retention < serves.clock w
    → retention < max_duration
    → IsCollected calc
    → ((clean C (pos retention) w).0 ≡ ok tt)
      × (L.view (clean C (pos retention) w).1 Kind.calculations (key_of Kind.calculations calc)
          ≡ none)
clean-Gone C L serves retention calc w stored completed expired bounded collected =
    let runs =
      clean-Succeeds C L serves retention (serves.clock w) calc completed expired bounded
        collected in
    let (_, e, gone) = ok_of_Succeeds runs w (omega arith, stored) in (e, gone)
