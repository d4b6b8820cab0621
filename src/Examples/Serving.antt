-- ===== src/Examples/Serving.antt =====
-- The calls of the cluster in memory succeed.
use ccb_operator.Base.{
  Listed, All, ◌≢◌, ◌≤◌, ◌⊎◌, ◌==◌, String, String-discrete, Bool-cases, ◌≡◌, refl, sym, ◌∙◌, ap,
  subst, true, if◌then◌else◌, Option, none, some, List, [], ◌∷◌, arith, inl, inr,
}
use ccb_operator.Base.Maps.{index}
use ccb_operator.Go.{ok, err, external, Error}
use ccb_operator.Api.Meta.{ObjectKey}
use ccb_operator.Dispatcher.Workers.Waiting.{Recovers}
use ccb_operator.Api.{Kind, Obj, key_of}
use ccb_operator.Cluster.Ready.{Ready}
use ccb_operator.Api.Calculations.{Calculation}
use ccb_operator.Cluster.View.{same_key}
use ccb_operator.Cluster.Keeps.{same_key-eq}
use ccb_operator.Janitor.Cleaned.{Serves}
use ccb_operator.Examples.Memory.{
  Memory, view, or_missing, update_in, memory, find, collect, labelled, kept, delete_in,
}
use ccb_operator.Examples.Contract.{memory-Contract, collect-Once, labelled-Distinct}

module _ (all : List Calculation) (c : Calculation)
    (stored : find Kind.calculations all (key_of Kind.calculations c) ≡ some c) where
  Listed-kept :
      (later r : Option Calculation) (os : List Calculation)
      → Listed c os
      → Listed c (kept later r os)
  Listed-kept (some _) r os h = h
  Listed-kept none none os h = h
  Listed-kept none (some x) os h = inr h

  Listed-here :
      (x : Calculation) (later : Option Calculation) (os : List Calculation)
      → key_of Kind.calculations c ≡ key_of Kind.calculations x
      → (later ≢ none → Listed c os)
      → Listed c (kept later (find Kind.calculations all (key_of Kind.calculations x)) os)
  Listed-here x (some _) os same k = k λ missing. absurd (cc missing)
  Listed-here x none os same k =
      subst (λ r. Listed c (kept none r os)) (sym stored ∙ ap (find Kind.calculations all) same)
        (inl refl)

  pub Listed-collect :
      (os : List Calculation)
      → find Kind.calculations os (key_of Kind.calculations c) ≢ none
      → Listed c (collect Kind.calculations all os)
  unfolding find collect
  Listed-collect [] found = absurd (found refl)
  Listed-collect (x ∷ os) found =
      let key = key_of Kind.calculations c in
      elim (Bool-cases (same_key key (key_of Kind.calculations x))) [
        | inl e ↦
            let same = same_key-eq key (key_of Kind.calculations x) e in
            Listed-here x _ _ same (λ later.
              Listed-collect os
                λ missing. later (ap (find Kind.calculations os) (sym same) ∙ missing))
        | inr e ↦
            Listed-kept (find Kind.calculations os (key_of Kind.calculations x)) _ _
              (Listed-collect os λ missing. found (rw e missing))
      ]

  pub Listed-collect-all : Listed c (collect Kind.calculations all all)
  Listed-collect-all = Listed-collect all λ missing. absurd (cc (stored, missing))

pub delete_in-clock :
    (m : Memory) (c : Calculation) (r : Option Calculation)
    → m.clock ≤ (delete_in m Kind.calculations c r).1.clock
delete_in-clock m c none = omega arith
delete_in-clock m c (some _) = omega arith

pub delete_found :
    (m : Memory) (k : Kind) (o old : Obj k) (r : Option (Obj k))
    → r ≡ some old
    → (delete_in m k o r).0 ≡ ok tt
delete_found m k o old r e = rw e refl

unfoldable pub memory-Serves : Serves memory memory-Contract
unfolding memory-Contract
memory-Serves = record {
  clock = λ m. m.clock;
  now_ok = λ m. (m.clock, refl, omega arith);
  clock-now = λ m. omega arith;
  list_all = λ m. (
    _,
    refl,
    λ c stored. Listed-collect-all (m.objects Kind.calculations) c stored,
    (collect-Once Kind.calculations _ (m.objects Kind.calculations)).1,
  );
  clock-list = λ m. omega arith;
  delete_ok = λ c m stored.
      delete_found m Kind.calculations c c (view m Kind.calculations (key_of Kind.calculations c))
        stored;
  clock-delete = λ c m. delete_in-clock m c (view m Kind.calculations (key_of Kind.calculations c));
  new_aggregate-nil = refl;
}

get_found : {A : Type 0} (r : Option A) (a : A) → r ≡ some a → (or_missing r) ≡ ok a
get_found r a e = rw e refl

update_found :
    (m : Memory) (k : Kind) (o old : Obj k) (r : Option (Obj k))
    → r ≡ some old
    → (update_in m k o r).0 ≡ ok tt
update_found m k o old r e = rw e refl

pub memory-Ready : Ready memory memory-Contract
unfolding memory-Contract
memory-Ready = record {
  now_ok = λ m. (m.clock, refl);
  get_ok = λ k key m o stored. get_found (view m k key) o stored;
  update_ok = λ k o old m stored. update_found m k o old (view m k (key_of k o)) stored;
}

Listed-labelled :
    (l v : String) (c : Calculation) (os : List Calculation)
    → index c.meta.labels l ≡ some v
    → Listed c os
    → Listed c (labelled l v os)
unfolding labelled
Listed-labelled l v c [] e h = h
Listed-labelled l v c (o ∷ os) e h =
    listed (index o.meta.labels l) refl h (λ h2. Listed-labelled l v c os e h2)
  where
    listed :
        (x : Option String)
        → index o.meta.labels l ≡ x
        → (o ≡ c) ⊎ Listed c os
        → (Listed c os → Listed c (labelled l v os))
        → Listed c (elim x [
          | none ↦ labelled l v os
          | some y ↦ if v == y then o ∷ labelled l v os else labelled l v os
        ])
    listed none f (inl same) later = absurd (cc (f, ap (λ x. index x.meta.labels l) same, e))
    listed none f (inr h2) later = later h2
    listed (some y) f (inl same) later =
        let named : v ≡ y = cc (f, ap (λ x. index x.meta.labels l) same, e) in
        let t : (v == y) ≡ true = ground arith in rw t (inl same)
    listed (some y) f (inr h2) later = elim (Bool-cases (v == y)) [
      | inl t ↦ rw t (inr (later h2))
      | inr t ↦ rw t (later h2)
    ]

get_missed :
    {A : Type 0} (r : Option A)
    → r ≡ none
    → (e : Error) × (or_missing r ≡ err e) × (memory.is_not_found e ≡ true)
unfolding String-discrete
get_missed r e = rw e (external "not found", refl, refl)

pub memory-Recovers : Recovers memory memory-Contract
unfolding memory-Contract
memory-Recovers = record {
  ready = memory-Ready;
  get_missing = λ k key m missing. get_missed (view m k key) missing;
  list_ok = λ m. (_, refl);
  list_labelled_all = λ l v m. (
    _,
    refl,
    λ c stored label.
        Listed-labelled l v c
          (collect Kind.calculations (m.objects Kind.calculations) (m.objects Kind.calculations))
          label (Listed-collect-all (m.objects Kind.calculations) c stored),
    labelled-Distinct l v _ (collect-Once Kind.calculations _ (m.objects Kind.calculations)).1,
  );
  delete_ok = λ c m stored.
      delete_found m Kind.calculations c c (view m Kind.calculations (key_of Kind.calculations c))
        stored;
}

-- What holds of all objects holds of one that is found.
pub find-All :
    (k : Kind) (P : Obj k → Type 0) (os : List (Obj k)) (key : ObjectKey) (o : Obj k)
    → All P os
    → find k os key ≡ some o
    → P o
unfolding find
find-All k P [] key o h found = absurd (cc found)
find-All k P (x ∷ os) key o (p, h) found = elim (Bool-cases (same_key key (key_of k x))) [
  | inl e ↦
      let f : ◌≡◌ {A = Option (Obj k)} (some x) (some o) = rw e at found in
      let same : x ≡ o = cc f in subst P same p
  | inr e ↦ find-All k P os key o h (rw e at found)
]
