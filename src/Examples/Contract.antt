-- ===== src/Examples/Contract.antt =====
-- The cluster in memory meets the client's contract.
use mathlib.Core.Path.{fun_ext}
use ccb_operator.Base.{
  ◌≡◌, refl, sym, Bool, true, false, if◌then◌else◌, String, Option, none, some, List, [], ◌∷◌, All,
  All-map_of, Distinct, ◌≢◌, ◌∙◌, ap, arith, Bool-cases, inl, inr, ◌==◌, subst,
}
use ccb_operator.Base.Maps.{index}
use ccb_operator.Go.{Outcome, ok, err, panic}
use ccb_operator.Api.{Kind, Obj, key_of}
use ccb_operator.Api.Meta.{ObjectKey}
use ccb_operator.Api.Calculations.{Calculation}
use ccb_operator.Cluster.View.{same_key, assign, put, remove}
use ccb_operator.Cluster.Keeps.{same_key-eq}
use ccb_operator.Cluster.Laws.{Contract, Written, settled, conflicts}
use ccb_operator.Examples.Memory.{
  Memory, find, without, write, view, kept, collect, labelled, or_missing, create_in, update_in,
  delete_in, memory,
}

find-without :
    (k : Kind) (key : ObjectKey) (os : List (Obj k)) (j : ObjectKey)
    → find k (without k key os) j ≡ (if same_key j key then none else find k os j)
unfolding find without
find-without k key [] j = ground arith
find-without k key (o ∷ os) j = elim (Bool-cases (same_key key (key_of k o))) [
  | inl e ↦ rw e (rw (find-without k key os j, same_key-eq key (key_of k o) e) (ground arith))
  | inr e ↦ rw e (rw (find-without k key os j) (ground arith))
]

view-write_cons :
    (m : Memory) (k : Kind) (o : Obj k) → view (write m k (o ∷ m.objects k)) ≡ put (view m) k o
unfolding find
view-write_cons m Kind.calculations o = fun_ext (elim [ Kind.calculations ↦ refl | _ ↦ refl ])
view-write_cons m Kind.bulks o = fun_ext (elim [ Kind.bulks ↦ refl | _ ↦ refl ])
view-write_cons m Kind.factories o = fun_ext (elim [ Kind.factories ↦ refl | _ ↦ refl ])
view-write_cons m Kind.pools o = fun_ext (elim [ Kind.pools ↦ refl | _ ↦ refl ])
view-write_cons m Kind.pods o = fun_ext (elim [ Kind.pods ↦ refl | _ ↦ refl ])

without_ext :
    (k : Kind) (key : ObjectKey) (os : List (Obj k))
    → find k (without k key os) ≡ assign (find k os) key none
without_ext k key os = fun_ext (find-without k key os)

pub view-without :
    (m : Memory) (k : Kind) (o : Obj k)
    → view (write m k (without k (key_of k o) (m.objects k))) ≡ remove (view m) k o
view-without m Kind.calculations o = fun_ext (elim [
  | Kind.calculations ↦
      without_ext Kind.calculations (key_of Kind.calculations o) (m.objects Kind.calculations)
  | _ ↦ refl
])
view-without m Kind.bulks o = fun_ext (elim [
  | Kind.bulks ↦ without_ext Kind.bulks (key_of Kind.bulks o) (m.objects Kind.bulks)
  | _ ↦ refl
])
view-without m Kind.factories o = fun_ext (elim [
  | Kind.factories ↦ without_ext Kind.factories (key_of Kind.factories o) (m.objects Kind.factories)
  | _ ↦ refl
])
view-without m Kind.pools o = fun_ext (elim [
  | Kind.pools ↦ without_ext Kind.pools (key_of Kind.pools o) (m.objects Kind.pools)
  | _ ↦ refl
])
view-without m Kind.pods o = fun_ext (elim [
  | Kind.pods ↦ without_ext Kind.pods (key_of Kind.pods o) (m.objects Kind.pods)
  | _ ↦ refl
])

find_head-key :
    (k : Kind) (x : Obj k) (rest : Option (Obj k)) (key : ObjectKey) (o : Obj k) (b : Bool)
    → same_key key (key_of k x) ≡ b
    → (rest ≡ some o → key_of k o ≡ key)
    → (if b then some x else rest) ≡ some o
    → key_of k o ≡ key
find_head-key k x rest key o true e f h = cc (same_key-eq key (key_of k x) e, h)
find_head-key k x rest key o false e f h = f h

pub find-key :
    (k : Kind) (os : List (Obj k)) (key : ObjectKey) (o : Obj k)
    → find k os key ≡ some o
    → key_of k o ≡ key
unfolding find
find-key k [] key o h = absurd (cc h)
find-key k (x ∷ os) key o h = find_head-key k x (find k os key) key o _ refl (find-key k os key o) h

-- Every object that a list returns is the one stored under its key.
kept-All :
    (k : Kind) (all : List (Obj k)) (key : ObjectKey) (later r : Option (Obj k)) (os : List (Obj k))
    → find k all key ≡ r
    → All (λ o. find k all (key_of k o) ≡ some o) os
    → All (λ o. find k all (key_of k o) ≡ some o) (kept {A = Obj k} later r os)
kept-All k all key (some _) r os e h = h
kept-All k all key none none os e h = h
kept-All k all key none (some x) os e h =
    (subst (λ j. find k all j ≡ some x) (sym (find-key k all key x e)) e, h)

pub collect-All :
    (k : Kind) (all os : List (Obj k))
    → All (λ o. find k all (key_of k o) ≡ some o) (collect k all os)
unfolding collect
collect-All k all [] = tt
collect-All k all (o ∷ os) =
    kept-All k all (key_of k o) (find k os (key_of k o)) _ (collect k all os) refl
      (collect-All k all os)

-- Every object that a list returns has a key of the list, and no object is returned twice.
abbrev HasKey : (k : Kind) → List (Obj k) → Obj k → Type 0
HasKey k os o = find k os (key_of k o) ≢ none

HasKey-cons :
    (k : Kind) (x : Obj k) (os : List (Obj k)) (o : Obj k) → HasKey k os o → HasKey k (x ∷ os) o
unfolding find
HasKey-cons k x os o h = elim (Bool-cases (same_key (key_of k o) (key_of k x))) [
  | inl e ↦ λ missing. absurd (cc (rw e at missing))
  | inr e ↦ λ missing. h (rw e at missing)
]

HasKey-head :
    (k : Kind) (x : Obj k) (os : List (Obj k)) (o : Obj k)
    → key_of k o ≡ key_of k x
    → HasKey k (x ∷ os) o
unfolding find
HasKey-head k x os o same =
    let self : same_key (key_of k x) (key_of k x) ≡ true = ground arith in
    let test : same_key (key_of k o) (key_of k x) ≡ true =
      ap (λ j. same_key j (key_of k x)) same ∙ self in
    rw test (λ missing. absurd (cc missing))

kept-Once :
    (k : Kind) (all : List (Obj k)) (x : Obj k) (os rest : List (Obj k)) (later r : Option (Obj k))
    → find k os (key_of k x) ≡ later
    → find k all (key_of k x) ≡ r
    → All (HasKey k os) rest × Distinct rest
    → All (HasKey k (x ∷ os)) (kept {A = Obj k} later r rest)
      × Distinct (kept {A = Obj k} later r rest)
kept-Once k all x os rest (some _) r e f (h, d) = (All-map_of (HasKey-cons k x os) rest h, d)
kept-Once k all x os rest none none e f (h, d) = (All-map_of (HasKey-cons k x os) rest h, d)
kept-Once k all x os rest none (some o) e f (h, d) =
    let same = find-key k all (key_of k x) o f in
    (
      (HasKey-head k x os o same, All-map_of (HasKey-cons k x os) rest h),
      (
        All-map_of
            (λ y has eq. has (ap (λ z. find k os (key_of k z)) (sym eq) ∙ ap (find k os) same ∙ e))
            rest h,
        d,
      ),
    )

pub collect-Once :
    (k : Kind) (all os : List (Obj k))
    → All (HasKey k os) (collect k all os) × Distinct (collect k all os)
unfolding collect
collect-Once k all [] = (tt, tt)
collect-Once k all (o ∷ os) =
    kept-Once k all o os (collect k all os) _ _ refl refl (collect-Once k all os)

module _ (l v : String) (P : Calculation → Type 0) where
  abbrev pub Found : Calculation → Type 0
  Found o = P o × (index o.meta.labels l ≡ some v)

  labelled_cons-All :
      (o : Calculation) (os : List Calculation) (x : Option String)
      → index o.meta.labels l ≡ x
      → P o
      → All Found os
      → All Found (elim x [ none ↦ os | some y ↦ if v == y then o ∷ os else os ])
  labelled_cons-All o os none e p h = h
  labelled_cons-All o os (some y) e p h = elim (Bool-cases (v == y)) [
    | inl t ↦ rw t ((p, ground arith), h)
    | inr t ↦ rw t h
  ]

  pub labelled-All : (os : List Calculation) → All P os → All Found (labelled l v os)
  unfolding labelled
  labelled-All [] h = tt
  labelled-All (o ∷ os) (p, h) =
      labelled_cons-All o (labelled l v os) (index o.meta.labels l) refl p (labelled-All os h)

pub labelled-Distinct :
    (l v : String) (os : List Calculation) → Distinct os → Distinct (labelled l v os)
unfolding labelled
labelled-Distinct l v [] d = tt
labelled-Distinct l v (o ∷ os) (other, d) =
    labelled_cons-Distinct (index o.meta.labels l) (labelled_each os other)
      (labelled-Distinct l v os d)
  where
    labelled_each :
        (os : List Calculation) → All (λ y. o ≢ y) os → All (λ y. o ≢ y) (labelled l v os)
    labelled_each os h =
        All-map_of (λ y p. p.0) (labelled l v os) (labelled-All l v (λ y. o ≢ y) os h)

    labelled_cons-Distinct :
        (x : Option String)
        → All (λ y. o ≢ y) (labelled l v os)
        → Distinct (labelled l v os)
        → Distinct (elim x [
          | none ↦ labelled l v os
          | some y ↦ if v == y then o ∷ labelled l v os else labelled l v os
        ])
    labelled_cons-Distinct none h d = d
    labelled_cons-Distinct (some y) h d = elim (Bool-cases (v == y)) [
      | inl t ↦ rw t (h, d)
      | inr t ↦ rw t d
    ]

pub stored-or_missing : {A : Type 0} (r : Option A) (a : A) → or_missing r ≡ ok a → r ≡ some a
stored-or_missing none a h = absurd (cc h)
stored-or_missing (some b) a h = cc h

pub never_conflicts : {A : Type 0} (r : Outcome A) → conflicts (λ e. false) r ≡ false
never_conflicts (ok a) = refl
never_conflicts (err e) = refl
never_conflicts (panic s) = refl

pub create_in-Written :
    (m : Memory) (k : Kind) (o : Obj k) (r : Option (Obj k))
    → Written (create_in m k o r).0 (view m) (put (view m) k o) (view (create_in m k o r).1)
create_in-Written m k o none = view-write_cons m k o
create_in-Written m k o (some _) = refl

pub create_in-none :
    (m : Memory) (k : Kind) (o : Obj k) (r : Option (Obj k))
    → (create_in m k o r).0 ≡ ok tt
    → r ≡ none
create_in-none m k o none h = refl
create_in-none m k o (some _) h = absurd (cc h)

pub update_in-Written :
    (m : Memory) (k : Kind) (o : Obj k) (r : Option (Obj k))
    → Written (update_in m k o r).0 (view m) (put (view m) k o) (view (update_in m k o r).1)
update_in-Written m k o none = refl
update_in-Written m k o (some _) = view-write_cons m k o

pub delete_in-Written :
    (m : Memory) (k : Kind) (o : Obj k) (r : Option (Obj k))
    → Written (delete_in m k o r).0 (view m) (remove (view m) k o) (view (delete_in m k o r).1)
delete_in-Written m k o none = refl
delete_in-Written m k o (some _) = view-without m k o

-- The objects that the calls read and write are those of the view.
unfoldable pub memory-Contract : Contract memory
memory-Contract = record {
  view = view;
  view-key = λ m k key o h. find-key k (m.objects k) key o h;
  view-now = λ m. refl;
  view-back_off = λ m. refl;
  view-get = λ k key m. refl;
  get_stored = λ k key m o h. stored-or_missing (view m k key) o h;
  view-list = λ k m. refl;
  list_stored = λ k m os h.
      subst (λ xs. All (λ o. view m k (key_of k o) ≡ some o) xs) (cc h)
        (collect-All k (m.objects k) (m.objects k));
  view-list_labelled = λ l v m. refl;
  list_labelled_stored = λ l v m os h.
      subst
        (λ xs.
          All
            (λ o.
              (view m Kind.calculations (key_of Kind.calculations o) ≡ some o)
              × (index o.meta.labels l ≡ some v))
            xs)
        (cc h)
        (labelled-All l v _ _ (
          collect-All Kind.calculations (m.objects Kind.calculations)
            (m.objects Kind.calculations)));
  view-create = λ k o m. create_in-Written m k o (view m k (key_of k o));
  create_fresh = λ k o m h. create_in-none m k o (view m k (key_of k o)) h;
  view-update = λ k o m. update_in-Written m k o (view m k (key_of k o));
  view-delete = λ k o m. delete_in-Written m k o (view m k (key_of k o));
  retried = λ A fn m. settled refl (never_conflicts (fn m).0);
}
