-- ===== src/Cluster/Ready.antt =====
-- A cluster whose calls succeed: what is stored can be read and written, what is
-- not can be created, and the clock answers.
use ccb_operator.Base.{◌≡◌, refl, sym, ◌∙◌, ap, subst, String, some}
use ccb_operator.Go.{Outcome, ok, Action}
use ccb_operator.Go.Success.{Succeeds, Succeeds_of_ok, ok_of_Succeeds}
use ccb_operator.Go.Rules.{Runs, Runs->>=, Runs_given, Runs-map, Runs-wrapping}
use ccb_operator.Api.{Kind, Obj, key_of}
use ccb_operator.Api.Meta.{Time, ObjectKey}
use ccb_operator.Cluster.{Cluster}
use ccb_operator.Cluster.View.{View, put}
use ccb_operator.Cluster.Laws.{Contract, Written}
use ccb_operator.Cluster.Modify.{attempt, modify, retry_first, Same}

pub record Ready (C : Cluster) (L : Contract C) : Type 0 where
  pub now_ok : (w : C.World) → (t : Time) × ((C.now w).0 ≡ ok t)
  pub get_ok :
      (k : Kind) (key : ObjectKey) (w : C.World) (o : Obj k)
      → L.view w k key ≡ some o
      → (C.get k key w).0 ≡ ok o
  pub update_ok :
      (k : Kind) (o old : Obj k) (w : C.World)
      → L.view w k (key_of k o) ≡ some old
      → (C.update k o w).0 ≡ ok tt

pub Written-ok :
    (before : View) {after v : View} (r : Outcome (Unit {0}))
    → r ≡ ok tt
    → Written r before after v
    → v ≡ after
Written-ok before {after} {v} r e h = subst (λ r. Written r before after v) e h

-- From each view alone.
pub Runs_at_view :
    (C : Cluster) (L : Contract C) {A : Type 0} (P : View → Type 0) {m : Action C.World A}
    {Q : A → C.World → Type 0} {E : C.World → Type 0}
    → ((v : View) → P v → Runs (Same C L v) m Q E)
    → Runs (λ w. P (L.view w)) m Q E
Runs_at_view C L P h = record { run = λ w p. (h (L.view w) p).run w refl }

module _ (C : Cluster) (L : Contract C) (ready : Ready C L) (v : View) where
  pub now-Succeeds : Succeeds (Same C L v) C.now (λ _. Same C L v)
  now-Succeeds = Succeeds_of_ok λ w same. let (t, e) = ready.now_ok w in (t, e, L.view-now w ∙ same)

  pub get-Succeeds :
      (k : Kind) (key : ObjectKey) (o : Obj k)
      → v k key ≡ some o
      → Succeeds (Same C L v) (C.get k key) (λ x w. (x ≡ o) × Same C L v w)
  get-Succeeds k key o stored = Succeeds_of_ok λ w same. (
    o,
    ready.get_ok k key w o (ap (λ u. u k key) same ∙ stored),
    (refl, L.view-get k key w ∙ same),
  )

  pub update-Succeeds :
      (k : Kind) (o old : Obj k)
      → v k (key_of k o) ≡ some old
      → Succeeds (Same C L v) (C.update k o) (λ _ w. L.view w ≡ put v k o)
  update-Succeeds k o old stored = Succeeds_of_ok λ w same.
      let e = ready.update_ok k o old w (ap (λ u. u k (key_of k o)) same ∙ stored) in
      (tt, e, Written-ok (L.view w) _ e (L.view-update k o w) ∙ ap (λ u. put u k o) same)

  -- A change that succeeds, and that keeps the object's key, is stored.
  module _ (k : Kind) (key : ObjectKey) (get_message update_message : String)
      (change : Obj k → Action C.World (Obj k)) (o : Obj k) (R : Obj k → Type 0) where
    attempt-Succeeds :
        v k key ≡ some o
        → ((o' : Obj k) → R o' → key_of k o' ≡ key)
        → Succeeds (Same C L v) (change o) (λ o' w. R o' × Same C L v w)
        → Succeeds
            (Same C L v)
            (attempt C k key get_message update_message change)
            (λ _ w. (o' : Obj k) × R o' × (L.view w ≡ put v k o'))
    unfolding attempt
    attempt-Succeeds stored keeps changes =
        Runs->>= _ _ (Runs-wrapping get_message (get-Succeeds k key o stored)) λ x.
          Runs_given (x ≡ o) (λ w p. p)
            λ same_object.
              Runs->>= _ _
                (subst (λ y. Succeeds (Same C L v) (change y) (λ o' w. R o' × Same C L v w))
                  (sym same_object) changes)
                λ o'.
                  Runs_given (R o') (λ w p. p)
                    λ related. Runs-wrapping _ (
                      Runs-map (λ _ w after. (o', related, after))
                        (update-Succeeds k o' o (ap (λ j. v k j) (keeps o' related) ∙ stored)))

    pub modify-Succeeds :
        v k key ≡ some o
        → ((o' : Obj k) → R o' → key_of k o' ≡ key)
        → Succeeds (Same C L v) (change o) (λ o' w. R o' × Same C L v w)
        → Succeeds
            (Same C L v)
            (modify C k key get_message update_message change)
            (λ _ w. (o' : Obj k) × R o' × (L.view w ≡ put v k o'))
    unfolding modify
    modify-Succeeds stored keeps changes = Succeeds_of_ok λ w same.
        let fn = attempt C k key get_message update_message change in
        let (_, e, after) = ok_of_Succeeds (attempt-Succeeds stored keeps changes) w same in
        let once = retry_first C L fn w e in
        (
          tt,
          ap (λ x. x.0) once ∙ e,
          subst (λ x. (o' : Obj k) × R o' × (L.view x.1 ≡ put v k o')) (sym once) after,
        )
