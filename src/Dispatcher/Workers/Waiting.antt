-- ===== src/Dispatcher/Workers/Waiting.antt =====
-- A calculation of a lost pod: it is deleted, and it waits in its bulk to be assigned again.
use ccb_operator.Base.{
  ◌≡◌, refl, sym, ◌∙◌, ap, subst, ◌==◌, ◌⊎◌, String, Option, none, some, List, ◌∷◌, Distinct, inl,
  inr, Bool, true, false, Listed, arith, if◌then◌else◌,
}
use ccb_operator.Base.Maps.{Entries, index, lookup, insert, lookup-insert}
use ccb_operator.Go.{Error, ok, err}
use ccb_operator.Go.Success.{Succeeds, Succeeds_of_ok}
use ccb_operator.Api.{Kind, key_of}
use ccb_operator.Api.Meta.{ObjectKey, meta_key}
use ccb_operator.Api.Calculations.{CalculationPhase, Calculation}
use ccb_operator.Api.Bulks.{CalculationBulk, BulkCalculation}
use ccb_operator.Api.Workers.{WorkerPool}
use ccb_operator.Cluster.{Cluster}
use ccb_operator.Cluster.View.{View, put, remove, same_key, assign_in_self}
use ccb_operator.Cluster.Laws.{Contract}
use ccb_operator.Cluster.Keeps.{assign_all, assign_there, same_key-eq}
use ccb_operator.Cluster.Stored.{AreStored, remove-AreStored}
use ccb_operator.Cluster.Ready.{Ready, Written-ok}
use ccb_operator.Dispatcher.Phases.{with_phase, bulk_in_phase}

-- The calls succeed, lists are complete and name nothing twice, what is stored can be deleted, and
-- what is missing is answered as not found.
pub record Recovers (C : Cluster) (L : Contract C) : Type 0 where
  pub ready : Ready C L
  pub get_missing :
      (k : Kind) (key : ObjectKey) (w : C.World)
      → L.view w k key ≡ none
      → (e : Error) × ((C.get k key w).0 ≡ err e) × (C.is_not_found e ≡ true)
  pub list_ok : (w : C.World) → (pools : List WorkerPool) × ((C.list Kind.pools w).0 ≡ ok pools)
  pub list_labelled_all :
      (l v : String) (w : C.World)
      → (calcs : List Calculation) × ((C.list_labelled l v w).0 ≡ ok calcs)
        × ((c : Calculation)
            → L.view w Kind.calculations (key_of Kind.calculations c) ≡ some c
            → index c.meta.labels l ≡ some v
            → Listed c calcs)
        × Distinct calcs
  pub delete_ok :
      (c : Calculation) (w : C.World)
      → L.view w Kind.calculations (key_of Kind.calculations c) ≡ some c
      → (C.delete Kind.calculations c w).0 ≡ ok tt

abbrev pub HasMap : CalculationBulk → Type 0
HasMap bulk = (calcs : Entries BulkCalculation) × (bulk.calculations ≡ some calcs)

-- It waits to be assigned again.
abbrev pub IsWaiting : Option BulkCalculation → Type 0
IsWaiting none = ⊥
IsWaiting (some calc) = calc.phase ≡ CalculationPhase.no_phase

insert-IsWaiting :
    (n n' : String) (old : Option BulkCalculation) (m : Entries BulkCalculation)
    → (n ≡ n') ⊎ IsWaiting (lookup n m)
    → IsWaiting (lookup n (insert n' (with_phase CalculationPhase.no_phase old) m))
insert-IsWaiting n n' old m h =
    subst IsWaiting (sym (lookup-insert n n' (with_phase CalculationPhase.no_phase old) m))
      (either (n == n') refl h)
  where
    either :
        (b : Bool)
        → (n == n') ≡ b
        → (n ≡ n') ⊎ IsWaiting (lookup n m)
        → IsWaiting (if b then some (with_phase CalculationPhase.no_phase old) else lookup n m)
    either true e h = refl
    either false e (inl same) = absurd (ground arith)
    either false e (inr waits) = waits

module _ (C : Cluster) (L : Contract C) (recovers : Recovers C L) (v : View) (target : Calculation)
    (bulk_name calc_name : String) where
  abbrev pub home : ObjectKey
  home = record { namespace = target.meta.namespace; name = bulk_name }

  abbrev pub IsFreed : View → Type 0
  IsFreed u =
      (bulk : CalculationBulk) × (u Kind.bulks home ≡ some bulk)
      × IsWaiting (index bulk.calculations calc_name)

  abbrev pub IsGone : View → Type 0
  IsGone u = u Kind.calculations (key_of Kind.calculations target) ≡ none

  -- No bulk is lost, each has a map, what is left of a list is stored, and if `D`, the target is
  -- gone, and if `E`, it is freed.
  pub record Frees (left : List Calculation) (D E : Type 0) (u : View) : Type 0 where
    pub are_stored : AreStored u left
    pub bulks_mapped : (j : ObjectKey) (b : CalculationBulk) → u Kind.bulks j ≡ some b → HasMap b
    pub bulks_there :
        (j : ObjectKey) (b : CalculationBulk)
        → v Kind.bulks j ≡ some b
        → (b' : CalculationBulk) × (u Kind.bulks j ≡ some b')
    pub gone : D → IsGone u
    pub freed : E → IsFreed u

  remove-Gone :
      (x : Calculation) (u : View) → (x ≡ target) ⊎ IsGone u → IsGone (remove u Kind.calculations x)
  remove-Gone x u (inl e) =
      rw e (assign_in_self u Kind.calculations (key_of Kind.calculations target) none)
  remove-Gone x u (inr e) = ground arith

  pub delete-Frees :
      (D : Type 0) (x : Calculation) (left : List Calculation)
      → Succeeds
          (λ w. Frees (x ∷ left) D D (L.view w))
          (C.delete Kind.calculations x)
          (λ _ w. Frees left (D ⊎ (x ≡ target)) D (L.view w))
  delete-Frees D x left = Succeeds_of_ok λ w h.
      let deleted = recovers.delete_ok x w h.are_stored.0.0 in
      let removed = Written-ok _ _ deleted (L.view-delete Kind.calculations x w) in
      (
        tt,
        deleted,
        subst (Frees left (D ⊎ (x ≡ target)) D) (sym removed) (record {
          are_stored = remove-AreStored (L.view w) x left h.are_stored;
          bulks_mapped = h.bulks_mapped;
          bulks_there = h.bulks_there;
          gone = elim [
            | inl d ↦ remove-Gone x (L.view w) (inr (h.gone d))
            | inr e ↦ remove-Gone x (L.view w) (inl e)
          ];
          freed = h.freed;
        }),
      )

  -- The bulk with the phase of one calculation reset.
  abbrev pub reset : String → CalculationBulk → Entries BulkCalculation → CalculationBulk
  reset = bulk_in_phase CalculationPhase.no_phase

  pub Frees-weaken :
      (left : List Calculation) (D D' E E' : Type 0) (u : View)
      → (D' → D)
      → (E' → E)
      → Frees left D E u
      → Frees left D' E' u
  Frees-weaken left D D' E E' u f g h = record {
    are_stored = h.are_stored;
    bulks_mapped = h.bulks_mapped;
    bulks_there = h.bulks_there;
    gone = λ d. h.gone (f d);
    freed = λ e. h.freed (g e);
  }

  reset-IsFreed :
      (u : View) (n : String) (bulk : CalculationBulk) (m : Entries BulkCalculation)
      → u Kind.bulks (meta_key bulk.meta) ≡ some bulk
      → bulk.calculations ≡ some m
      → IsFreed u ⊎ ((meta_key bulk.meta ≡ home) × (calc_name ≡ n))
      → IsFreed (put u Kind.bulks (reset n bulk m))
  reset-IsFreed u n bulk m stored has h = at_home (same_key home (meta_key bulk.meta)) refl h
    where
      was_waiting : home ≡ meta_key bulk.meta → IsFreed u → IsWaiting (lookup calc_name m)
      was_waiting same (found_bulk, found, waits) =
          let e : found_bulk ≡ bulk = cc (found, stored, ap (u Kind.bulks) same) in
          subst (λ c. IsWaiting (index c calc_name)) (ap (λ b. b.calculations) e ∙ has) waits

      reset_waits :
          (calc_name ≡ n) ⊎ IsWaiting (lookup calc_name m)
          → home ≡ meta_key bulk.meta
          → IsFreed (put u Kind.bulks (reset n bulk m))
      reset_waits w same = (
        reset n bulk m,
        subst (λ j. put u Kind.bulks (reset n bulk m) Kind.bulks j ≡ some (reset n bulk m))
            (sym same) (assign_in_self u Kind.bulks (meta_key bulk.meta) (some (reset n bulk m))),
        insert-IsWaiting calc_name n (lookup n m) m w,
      )

      at_home :
          (b : Bool)
          → same_key home (meta_key bulk.meta) ≡ b
          → IsFreed u ⊎ ((meta_key bulk.meta ≡ home) × (calc_name ≡ n))
          → IsFreed (put u Kind.bulks (reset n bulk m))
      at_home true e (inl freed) =
          let same = same_key-eq home (meta_key bulk.meta) e in
          reset_waits (inr (was_waiting same freed)) same
      at_home false e (inl (found_bulk, found, waits)) = (found_bulk, (rw e found), waits)
      at_home b e (inr (same, named)) = reset_waits (inl named) (sym same)

  pub put-Frees :
      (left : List Calculation) (D E Q : Type 0) (u : View) (n : String) (bulk : CalculationBulk)
      (m : Entries BulkCalculation)
      → u Kind.bulks (meta_key bulk.meta) ≡ some bulk
      → bulk.calculations ≡ some m
      → (Q → (meta_key bulk.meta ≡ home) × (calc_name ≡ n))
      → Frees left D E u
      → Frees left D (E ⊎ Q) (put u Kind.bulks (reset n bulk m))
  put-Frees left D E Q u n bulk m stored has named h = record {
    are_stored = h.are_stored;
    bulks_mapped =
        assign_all HasMap (u Kind.bulks) (meta_key bulk.meta) (reset n bulk m) (_, refl)
          h.bulks_mapped;
    bulks_there = λ j b found.
        let (b', still) = h.bulks_there j b found in
        assign_there (u Kind.bulks) (meta_key bulk.meta) j (reset n bulk m) b' still;
    gone = h.gone;
    freed = elim [
      | inl e ↦ reset-IsFreed u n bulk m stored has (inl (h.freed e))
      | inr q ↦ reset-IsFreed u n bulk m stored has (inr (named q))
    ];
  }
