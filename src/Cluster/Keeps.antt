-- ===== src/Cluster/Keeps.antt =====
-- Facts about the view that an action keeps, however it ends.
use mathlib.Core.Path.{fun_ext}
use ccb_operator.Base.{
  ◌≡◌, refl, sym, subst, ◌∙◌, ap, true, String, Option, none, some, arith, Bool-cases, inl, inr,
  ◌⊎◌, Bool, if◌then◌else◌, false,
}
use ccb_operator.Go.{
  Error, Outcome, ok, err, panic, Action, wrapping, caught, ◌>>=◌, pure, panics, fail,
}
use ccb_operator.Go.Rules.{
  Runs, Runs-wrapping, Runs-pure, Runs_of_cases, Runs-caught, Runs->>=, Runs-panics, Runs-fail,
  ended,
}
use ccb_operator.Api.{Kind, Obj, key_of}
use ccb_operator.Api.Meta.{ObjectKey}
use ccb_operator.Cluster.{Cluster}
use ccb_operator.Cluster.View.{View, assign, same_key, put, remove}
use ccb_operator.Cluster.Laws.{Contract, Written}
use ccb_operator.Cluster.Modify.{Runs-retry, modify, attempt}

pub same_key-eq : (a b : ObjectKey) → same_key a b ≡ true → a ≡ b
same_key-eq a b e = ground arith

assign_stored :
    {A : Type 0} (f : ObjectKey → Option A) (key : ObjectKey) (o : A)
    → f key ≡ some o
    → assign f key (some o) ≡ f
assign_stored f key o h = fun_ext λ j. elim (Bool-cases (same_key j key)) [
  | inl e ↦ rw e (sym h ∙ ap f (sym (same_key-eq j key e)))
  | inr e ↦ rw e
]

-- A new entry leaves the others.
pub assign_fresh :
    {A : Type 0} (f : ObjectKey → Option A) (key j : ObjectKey) (o : Option A) (a : A)
    → f key ≡ none
    → f j ≡ some a
    → assign f key o j ≡ some a
assign_fresh f key j o a fresh h = elim (Bool-cases (same_key j key)) [
  | inl e ↦ absurd (cc (fresh, h, ap f (same_key-eq j key e)))
  | inr e ↦ rw e h
]

-- What is found after one entry is written is that entry, or was there.
pub assign_cases :
    {A : Type 0} (f : ObjectKey → Option A) (key j : ObjectKey) (o a : A)
    → assign f key (some o) j ≡ some a
    → (o ≡ a) ⊎ (f j ≡ some a)
assign_cases f key j o a found = cases (same_key j key) found
  where
    cases : (b : Bool) → (if b then some o else f j) ≡ some a → (o ≡ a) ⊎ (f j ≡ some a)
    cases true e = inl (cc e)
    cases false e = inr e

-- What holds of all that was there, and of the new entry, holds of all that is there.
pub assign_all {ℓ} :
    {A : Type 0} (P : A → Type ℓ) (f : ObjectKey → Option A) (key : ObjectKey) (o : A)
    → P o
    → ((j : ObjectKey) (a : A) → f j ≡ some a → P a)
    → (j : ObjectKey) (a : A) → assign f key (some o) j ≡ some a
    → P a
assign_all P f key o p h j a found = elim (assign_cases f key j o a found) [
  | inl e ↦ subst P e p
  | inr old ↦ h j a old
]

-- A new entry leaves nothing missing.
pub assign_there :
    {A : Type 0} (f : ObjectKey → Option A) (key j : ObjectKey) (o a : A)
    → f j ≡ some a
    → (b : A) × (assign f key (some o) j ≡ some b)
assign_there f key j o a h = elim (Bool-cases (same_key j key)) [
  | inl e ↦ (o, rw e refl)
  | inr e ↦ (a, rw e h)
]

-- To write what is stored is to change nothing.
pub put_stored : (v : View) (k : Kind) (o : Obj k) → v k (key_of k o) ≡ some o → put v k o ≡ v
put_stored v Kind.calculations o h = fun_ext (elim [
  | Kind.calculations ↦ assign_stored (v Kind.calculations) (key_of Kind.calculations o) o h
  | _ ↦ refl
])
put_stored v Kind.bulks o h =
    fun_ext
      (elim [ Kind.bulks ↦ assign_stored (v Kind.bulks) (key_of Kind.bulks o) o h | _ ↦ refl ])
put_stored v Kind.factories o h = fun_ext (elim [
  | Kind.factories ↦ assign_stored (v Kind.factories) (key_of Kind.factories o) o h
  | _ ↦ refl
])
put_stored v Kind.pools o h =
    fun_ext
      (elim [ Kind.pools ↦ assign_stored (v Kind.pools) (key_of Kind.pools o) o h | _ ↦ refl ])
put_stored v Kind.pods o h =
    fun_ext (elim [ Kind.pods ↦ assign_stored (v Kind.pods) (key_of Kind.pods o) o h | _ ↦ refl ])

module _ (C : Cluster) (L : Contract C) (P : View → Type 0) where
  open L use {view}

  abbrev pub Holds : C.World → Type 0
  Holds w = P (view w)

  abbrev pub Keeps : {A : Type 0} → Action C.World A → Type 0
  Keeps m = Runs Holds m (λ _. Holds) Holds

  -- An action that leaves the view as it is.
  pub Keeps-of_same :
      {A : Type 0} (m : Action C.World A) → ((w : C.World) → view (m w).1 ≡ view w) → Keeps m
  Keeps-of_same m same =
      Runs_of_cases (λ w a p _. subst P (sym (same w)) p) (λ w p. subst P (sym (same w)) p)

  pub Keeps-now : Keeps C.now
  Keeps-now = Keeps-of_same C.now L.view-now

  pub Keeps-get : (k : Kind) (key : ObjectKey) → Keeps (C.get k key)
  Keeps-get k key = Keeps-of_same (C.get k key) (L.view-get k key)

  pub Keeps-list : (k : Kind) → Keeps (C.list k)
  Keeps-list k = Keeps-of_same (C.list k) (L.view-list k)

  pub Runs-get_stored :
      (k : Kind) (key : ObjectKey)
      → Runs Holds (C.get k key) (λ o w. (view w k key ≡ some o) × Holds w) Holds
  Runs-get_stored k key =
      Runs_of_cases
        (λ w o p got. (
          subst (λ v. v k key ≡ some o) (sym (L.view-get k key w)) (L.get_stored k key w o got),
          subst P (sym (L.view-get k key w)) p,
        ))
        (λ w p. subst P (sym (L.view-get k key w)) p)

  Written-Holds :
      (before after u : View) (r : Outcome (Unit {0})) (h : Written r before after u)
      → P before
      → (r ≡ ok tt → P after)
      → P u
  Written-Holds before after u (ok tt) h p q = subst P (sym h) (q refl)
  Written-Holds before after u (err e) h p q = subst P (sym h) p
  Written-Holds before after u (panic s) h p q = subst P (sym h) p

  pub Keeps-of_ended :
      {A : Type 0} (m : Action C.World A) → ((w : C.World) → Holds w → Holds (m w).1) → Keeps m
  Keeps-of_ended m h = Runs_of_cases (λ w _ p _. h w p) h

  pub Keeps-create :
      (k : Kind) (o : Obj k)
      → ((v : View) → P v → v k (key_of k o) ≡ none → P (put v k o))
      → Keeps (C.create k o)
  Keeps-create k o step = Keeps-of_ended (C.create k o) λ w p.
      let x = C.create k o w in
      Written-Holds (view w) (put (view w) k o) (view x.1) x.0 (L.view-create k o w) p
        (λ done. step (view w) p (L.create_fresh k o w done))

  pub Keeps-update :
      (k : Kind) (o : Obj k) → ((v : View) → P v → P (put v k o)) → Keeps (C.update k o)
  Keeps-update k o step = Keeps-of_ended (C.update k o) λ w p.
      let x = C.update k o w in
      Written-Holds (view w) (put (view w) k o) (view x.1) x.0 (L.view-update k o w) p
        (λ _. step (view w) p)

  pub Keeps-update_stored :
      (k : Kind) (key : ObjectKey) (o : Obj k)
      → Runs (λ w. (view w k key ≡ some o) × Holds w) (C.update k o) (λ _. Holds) Holds
  Keeps-update_stored k key o = Runs_of_cases (λ w _ p _. always w p) always
    where
      always : (w : C.World) → (view w k key ≡ some o) × Holds w → Holds (C.update k o w).1
      always w (stored, p) =
          let x = C.update k o w in
          let same =
            put_stored (view w) k o
              (subst (λ j. view w k j ≡ some o) (sym (L.view-key w k key o stored)) stored) in
          Written-Holds (view w) (put (view w) k o) (view x.1) x.0 (L.view-update k o w) p
            (λ _. subst P (sym same) p)

  pub Keeps-delete :
      (k : Kind) (o : Obj k) → ((v : View) → P v → P (remove v k o)) → Keeps (C.delete k o)
  Keeps-delete k o step = Keeps-of_ended (C.delete k o) λ w p.
      let x = C.delete k o w in
      Written-Holds (view w) (remove (view w) k o) (view x.1) x.0 (L.view-delete k o w) p
        (λ _. step (view w) p)

  pub Keeps-pure : {A : Type 0} (a : A) → Keeps (pure a)
  Keeps-pure a = Runs-pure a (λ w p. p)

  pub Keeps-caught : {A : Type 0} {m : Action C.World A} → Keeps m → Keeps (caught m)
  Keeps-caught h = Runs-caught h

  pub Keeps-wrapping :
      {A : Type 0} {m : Action C.World A} (message : String) → Keeps m → Keeps (wrapping message m)
  Keeps-wrapping message h = Runs-wrapping message h

  pub Keeps->>= :
      {A B : Type 0} (m : Action C.World A) (f : A → Action C.World B)
      → Keeps m
      → ((a : A) → Keeps (f a))
      → Keeps (m >>= f)
  Keeps->>= m f h k = Runs->>= m f h k

  pub Keeps-retry :
      {A : Type 0} {fn : Action C.World A} → Keeps fn → Keeps (C.retry_on_conflict A fn)
  Keeps-retry h = Runs-retry C L P h

  -- What is kept holds at the end, whatever the outcome.
  pub kept : {A : Type 0} {m : Action C.World A} → Keeps m → (w : C.World) → Holds w → Holds (m w).1
  kept h w p = ended h w p

module _ (C : Cluster) (L : Contract C) (P : View → Type 0) where
  -- A retried change of one object, if every object may be stored there.
  pub Keeps-modify :
      (k : Kind) (key : ObjectKey) (get_message update_message : String)
      (change : Obj k → Action C.World (Obj k))
      → ((o : Obj k) → Keeps C L P (change o))
      → ((o : Obj k) (v : View) → P v → P (put v k o))
      → Keeps C L P (modify C k key get_message update_message change)
  unfolding modify attempt
  Keeps-modify k key get_message update_message change kept_by puts = Keeps-retry C L P (
      Keeps->>= C L P _ _ (Keeps-wrapping C L P get_message (Keeps-get C L P k key)) λ o.
        Keeps->>= C L P _ _ (kept_by o)
          λ o'. Keeps-wrapping C L P _ (Keeps-update C L P k o' (puts o')))

  pub Keeps-panics : {A : Type 0} (s : String) → Keeps C L P {A = A} (panics s)
  Keeps-panics s = Runs-panics s

  pub Keeps-fail : {A : Type 0} (e : Error) → Keeps C L P {A = A} (fail e)
  Keeps-fail e = Runs-fail e
