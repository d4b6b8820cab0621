-- ===== src/Dispatcher/Workers/Recovered.antt =====
-- What becomes of a calculation whose pod is gone, over a cluster whose calls succeed.
use ccb_operator.Base.{
  ◌≡◌, refl, sym, ◌∙◌, ap, subst, ◌⊎◌, String, Option, none, some, List, [], ◌∷◌, All, inl, inr,
  true, Listed, Listed-select, select-All, select-Distinct, All-map_of, ◌||◌, select,
}
use ccb_operator.Base.Maps.{index}
use ccb_operator.Go.{Error, ok, caught, caught_outcome}
use ccb_operator.Go.Rules.{Runs->>=, Runs_given, Runs-map, Runs-pure, Runs-caught_either}
use ccb_operator.Go.Success.{Succeeds, Succeeds_of_ok, ok_of_Succeeds}
use ccb_operator.Api.{Kind, key_of}
use ccb_operator.Api.Meta.{ObjectKey, meta_key}
use ccb_operator.Api.Calculations.{CalculationPhase, Calculation, is_created, is_processing}
use ccb_operator.Api.Bulks.{CalculationBulk}
use ccb_operator.Api.Workers.{WorkerPool}
use ccb_operator.Cluster.{Cluster}
use ccb_operator.Cluster.View.{View, put}
use ccb_operator.Cluster.Laws.{Contract}
use ccb_operator.Cluster.Modify.{Same}
use ccb_operator.Cluster.Ready.{modify-Succeeds}
use ccb_operator.Util.Labels.{bulk_label, calculation_name_label, assign_worker_label}
use ccb_operator.Util.Workers.Update.{IsUsable}
use ccb_operator.Dispatcher.Workers.{
  is_active, free_calculation, delete_calculations, delete_assigned_calculations, reconcile,
}
use ccb_operator.Dispatcher.Phases.{write_phase-Succeeds}
use ccb_operator.Dispatcher.Workers.Freed.{IsLost}
use ccb_operator.Dispatcher.Workers.Forgotten.{Forgets, reconcile_worker_in_pools-Forgets}
use ccb_operator.Dispatcher.Workers.Waiting.{
  Recovers, HasMap, IsWaiting, IsFreed, IsGone, Frees, delete-Frees, reset, home, Frees-weaken,
  put-Frees,
}

-- The bulk that a calculation names, if it names one, is there.
abbrev pub NamesBulk : View → Calculation → Type 0
NamesBulk v x =
    (b : String)
    → index x.meta.labels bulk_label ≡ some b
    → (bulk : CalculationBulk) × (v Kind.bulks (record { namespace = x.meta.namespace; name = b })
        ≡ some bulk)

-- Every bulk and pool has a map, and the bulks that calculations name are there.
pub record IsInOrder (v : View) : Type 0 where
  pub pools_usable : (j : ObjectKey) (p : WorkerPool) → v Kind.pools j ≡ some p → IsUsable p
  pub bulks_mapped : (j : ObjectKey) (b : CalculationBulk) → v Kind.bulks j ≡ some b → HasMap b
  pub bulks_named :
      (j : ObjectKey) (x : Calculation) → v Kind.calculations j ≡ some x → NamesBulk v x

module _ (C : Cluster) (L : Contract C) (recovers : Recovers C L) (v : View) (target : Calculation)
    (bulk_name calc_name : String) where
  -- What is to hold of the target, and what is kept on the way.
  abbrev FreesBoth : List Calculation → Type 0 → Type 0 → View → Type 0
  FreesBoth = Frees C L recovers v target bulk_name calc_name

  abbrev HasBulk : Calculation → Type 0
  HasBulk = NamesBulk v

  module _ (in_bulk : index target.meta.labels bulk_label ≡ some bulk_name)
      (in_name : index target.meta.labels calculation_name_label ≡ some calc_name) where
    free-Frees :
        (left : List Calculation) (D E : Type 0) (x : Calculation) (bl nl : Option String)
        → index x.meta.labels bulk_label ≡ bl
        → index x.meta.labels calculation_name_label ≡ nl
        → HasBulk x
        → Succeeds
            (λ w. FreesBoth left D E (L.view w))
            (free_calculation C x.meta.namespace bl nl)
            (λ _ w. FreesBoth left D (E ⊎ (x ≡ target)) (L.view w))
    unfolding free_calculation
    free-Frees left D E x none nl e1 e2 has = Runs-pure _ λ w h.
        Frees-weaken C L recovers v target bulk_name calc_name left D D E (E ⊎ (x ≡ target))
          (L.view w) (λ d. d)
          (elim [
            | inl e ↦ e
            | inr same ↦ absurd (cc (e1, ap (λ c. index c.meta.labels bulk_label) same, in_bulk))
          ])
          h
    free-Frees left D E x (some b) none e1 e2 has = Runs-pure _ λ w h.
        Frees-weaken C L recovers v target bulk_name calc_name left D D E (E ⊎ (x ≡ target))
          (L.view w) (λ d. d)
          (elim [
            | inl e ↦ e
            | inr same ↦
                absurd (cc (e2, ap (λ c. index c.meta.labels calculation_name_label) same, in_name))
          ])
          h
    free-Frees left D E x (some b) (some n) e1 e2 has = record {
      run = λ w h.
          let j : ObjectKey = record { namespace = x.meta.namespace; name = b } in
          let (old, was) = has b e1 in
          let (bulk, found) = h.bulks_there j old was in
          let (m, mapped) = h.bulks_mapped j bulk found in
          let own = L.view-key w Kind.bulks j bulk found in
          (Runs-map
              (λ _ u (b2, made, after).
                subst (FreesBoth left D (E ⊎ (x ≡ target)))
                  (sym (after ∙ ap (put (L.view w) Kind.bulks) made))
                  (put-Frees C L recovers v target bulk_name calc_name left D E (x ≡ target)
                    (L.view w) n bulk m (ap (L.view w Kind.bulks) own ∙ found) mapped
                    (λ same. (own ∙ same_home same, same_name same)) h))
              (modify-Succeeds C L recovers.ready (L.view w) Kind.bulks j _ _ _ bulk
                (λ b2. b2 ≡ reset C L recovers v target bulk_name calc_name n bulk m) found
                (λ b2 e. ap (λ y. meta_key y.meta) e ∙ own)
                (write_phase-Succeeds C L (L.view w) CalculationPhase.no_phase n bulk m
                  mapped))).run
            w refl;
    }
      where
        same_name : x ≡ target → calc_name ≡ n
        same_name same = cc (e2, ap (λ c. index c.meta.labels calculation_name_label) same, in_name)

        same_bulk : x ≡ target → b ≡ bulk_name
        same_bulk same = cc (e1, ap (λ c. index c.meta.labels bulk_label) same, in_bulk)

        same_home :
            x ≡ target
            → ◌≡◌ {A = ObjectKey}
                (record { namespace = x.meta.namespace; name = b })
                (home C L recovers v target bulk_name calc_name)
        same_home same =
            λ i. record { namespace = (same i).meta.namespace; name = same_bulk same i }

    delete_calculations-Frees :
        (calcs : List Calculation) (D : Type 0)
        → All HasBulk calcs
        → Succeeds
            (λ w. FreesBoth calcs D D (L.view w))
            (delete_calculations C calcs)
            (λ _ w. FreesBoth [] (D ⊎ Listed target calcs) (D ⊎ Listed target calcs) (L.view w))
    unfolding delete_calculations
    delete_calculations-Frees [] D h = Runs-pure _ λ w f.
        Frees-weaken C L recovers v target bulk_name calc_name [] D (D ⊎ ⊥) D (D ⊎ ⊥) (L.view w)
          nothing nothing f
      where
        nothing : D ⊎ ⊥ → D
        nothing (inl d) = d
        nothing (inr n) = absurd n
    delete_calculations-Frees (x ∷ calcs) D (has, h) =
        let Now = D ⊎ (x ≡ target) in
        Runs->>= _ _
          (Runs-caught_either (delete-Frees C L recovers v target bulk_name calc_name D x calcs))
          (elim [
            | inl e ↦ record { run = λ w n. absurd n }
            | inr _ ↦ Runs->>= _ _ (free-Frees calcs Now D x _ _ refl refl has) λ _.
                Runs-map
                  (λ _ w f.
                    Frees-weaken C L recovers v target bulk_name calc_name []
                      (Now ⊎ Listed target calcs) (D ⊎ ((x ≡ target) ⊎ Listed target calcs))
                      (Now ⊎ Listed target calcs) (D ⊎ ((x ≡ target) ⊎ Listed target calcs))
                      (L.view w) regroup regroup f)
                  (delete_calculations-Frees calcs Now h)
          ])
      where
        regroup :
            D ⊎ ((x ≡ target) ⊎ Listed target calcs) → (D ⊎ (x ≡ target)) ⊎ Listed target calcs
        regroup (inl d) = inl (inl d)
        regroup (inr (inl e)) = inl (inr e)
        regroup (inr (inr l)) = inr l

    module _ (order : IsInOrder v) (req : ObjectKey)
        (stored : v Kind.calculations (key_of Kind.calculations target) ≡ some target)
        (lost : IsLost req.name target) where
      active : is_active target ≡ true
      active = elim (lost.0) [
        | inl e ↦ ap (λ p. is_created p || is_processing p) e
        | inr e ↦ ap (λ p. is_created p || is_processing p) e
      ]

      abbrev Left : C.World → Type 0
      Left w = Forgets C L recovers.ready recovers.list_ok req.name v (L.view w)

      list-HasBulk : Succeeds Left (C.list_labelled assign_worker_label req.name) (λ calcs w.
          (All HasBulk calcs × Listed target calcs)
          × FreesBoth (select is_active calcs) ⊥ ⊥ (L.view w))
      list-HasBulk = Succeeds_of_ok λ w left.
          let (calcs, e, complete, once) =
            recovers.list_labelled_all assign_worker_label req.name w in
          let listed = L.list_labelled_stored assign_worker_label req.name w calcs e in
          let same = λ (j : ObjectKey). ap (λ f. f j) left.calculations in
          (
            calcs,
            e,
            (
              (
                All-map_of
                    (λ c (found, label).
                      order.bulks_named (key_of Kind.calculations c) c
                        (sym (same (key_of Kind.calculations c)) ∙ found))
                    calcs listed,
                complete target (same (key_of Kind.calculations target) ∙ stored) lost.1,
              ),
              subst (FreesBoth (select is_active calcs) ⊥ ⊥)
                  (sym (L.view-list_labelled assign_worker_label req.name w))
                  (record {
                    are_stored = (
                      All-map_of (λ c p. p.0.0) (select is_active calcs)
                          (select-All is_active _ calcs listed),
                      select-Distinct is_active calcs once,
                    );
                    bulks_mapped = λ j b found.
                        order.bulks_mapped j b (sym (ap (λ f. f j) left.bulks) ∙ found);
                    bulks_there = λ j b found. (b, ap (λ f. f j) left.bulks ∙ found);
                    gone = absurd;
                    freed = absurd;
                  }),
            ),
          )

      abbrev Recovered : C.World → Type 0
      Recovered w =
          IsGone C L recovers v target bulk_name calc_name (L.view w)
          × IsFreed C L recovers v target bulk_name calc_name (L.view w)

      delete_assigned_calculations-Recovered :
          Succeeds Left (delete_assigned_calculations C req.name) (λ _. Recovered)
      unfolding delete_assigned_calculations
      delete_assigned_calculations-Recovered =
          Runs->>= _ _ (Runs-caught_either list-HasBulk) (elim [
            | inl e ↦ record { run = λ w n. absurd n }
            | inr calcs ↦
                Runs_given (All HasBulk calcs × Listed target calcs) (λ w p. p)
                  λ (has, listed).
                    Runs-map
                      (λ _ w f.
                        let l = Listed-select is_active target calcs active listed in
                        (f.gone (inr l), f.freed (inr l)))
                      (delete_calculations-Frees (select is_active calcs) ⊥ (
                        All-map_of (λ c p. p.0) (select is_active calcs)
                          (select-All is_active HasBulk calcs has)))
          ])

      get-missing :
          v Kind.pods req ≡ none
          → Succeeds (Same C L v) (caught (C.get Kind.pods req)) (λ answer w.
            ((e : Error) × (answer ≡ inl e) × (C.is_not_found e ≡ true)) × Same C L v w)
      get-missing missing = Succeeds_of_ok λ w same.
          let (e, failed, not_found) =
            recovers.get_missing Kind.pods req w (ap (λ u. u Kind.pods req) same ∙ missing) in
          (
            inl e,
            ap caught_outcome failed,
            ((e, refl, not_found), L.view-get Kind.pods req w ∙ same),
          )

      reconcile-Recovered :
          v Kind.pods req ≡ none → Succeeds (Same C L v) (reconcile C req) (λ _. Recovered)
      unfolding reconcile
      reconcile-Recovered missing = Runs->>= _ _ (get-missing missing) λ answer.
          Runs_given ((e : Error) × (answer ≡ inl e) × (C.is_not_found e ≡ true)) (λ w p. p)
            λ (e, failed, not_found). rw failed (
              rw not_found (
                Runs->>= _ _
                  (reconcile_worker_in_pools-Forgets C L recovers.ready recovers.list_ok req.name v
                    order.pools_usable)
                  λ _. delete_assigned_calculations-Recovered))

-- Over a cluster whose calls succeed, whose bulks and pools all have a map, and where the bulks
-- that calculations name are there: the reconciliation of a pod that is gone ends without an
-- error, and a stored calculation that was created or processing, assigned to it, and that names
-- its bulk and itself in it, is deleted, while its entry in the bulk has no phase any more.
pub reconcile-Recovers :
    (C : Cluster) (L : Contract C) (recovers : Recovers C L) (req : ObjectKey) (calc : Calculation)
    (bulk_name calc_name : String) (w : C.World)
    → IsInOrder (L.view w)
    → L.view w Kind.pods req ≡ none
    → L.view w Kind.calculations (key_of Kind.calculations calc) ≡ some calc
    → IsLost req.name calc
    → index calc.meta.labels bulk_label ≡ some bulk_name
    → index calc.meta.labels calculation_name_label ≡ some calc_name
    → let after = reconcile C req w in
      (after.0 ≡ ok tt)
      × (L.view after.1 Kind.calculations (key_of Kind.calculations calc) ≡ none)
      × (bulk : CalculationBulk) × (L.view after.1 Kind.bulks
            (record { namespace = calc.meta.namespace; name = bulk_name })
          ≡ some bulk)
      × IsWaiting (index bulk.calculations calc_name)
reconcile-Recovers C L recovers req calc bulk_name calc_name w order gone stored lost in_bulk
      in_name =
    let (_, e, (deleted, (bulk, found, waits))) =
      ok_of_Succeeds
        (reconcile-Recovered C L recovers (L.view w) calc bulk_name calc_name in_bulk in_name order
          req stored lost gone)
        w refl in
    (e, deleted, bulk, found, waits)
