-- ===== src/Examples/Memory.antt =====
-- A cluster in memory, with a clock, whose calls meet the client's contract.
use ccb_operator.Base.{
  ℕ, suc, Bool, false, if◌then◌else◌, String, Option, none, some, List, [], ◌∷◌, ◌==◌,
}
use ccb_operator.Base.Maps.{index}
use ccb_operator.Go.{Error, external, Outcome, ok, err}
use ccb_operator.Api.{Kind, Obj, key_of}
use ccb_operator.Api.Meta.{ObjectKey}
use ccb_operator.Api.Calculations.{Calculation}
use ccb_operator.Cluster.{Cluster}
use ccb_operator.Cluster.View.{View, same_key}

pub record Memory : Type 0 where
  pub clock : ℕ
  pub objects : (k : Kind) → List (Obj k)
  pub answers : List ℕ  -- the statuses of the HTTP answers

unfoldable pub find : (k : Kind) → List (Obj k) → ObjectKey → Option (Obj k)
find k [] key = none
find k (o ∷ os) key = if same_key key (key_of k o) then some o else find k os key

unfoldable pub without : (k : Kind) → ObjectKey → List (Obj k) → List (Obj k)
without k key [] = []
without k key (o ∷ os) =
    let rest = without k key os in if same_key key (key_of k o) then rest else o ∷ rest

abbrev pub write : Memory → (k : Kind) → List (Obj k) → Memory
write m Kind.calculations os = record m {
  objects = elim [ Kind.calculations ↦ os | k ↦ m.objects k ];
}
write m Kind.bulks os = record m { objects = elim [ Kind.bulks ↦ os | k ↦ m.objects k ] }
write m Kind.factories os = record m { objects = elim [ Kind.factories ↦ os | k ↦ m.objects k ] }
write m Kind.pools os = record m { objects = elim [ Kind.pools ↦ os | k ↦ m.objects k ] }
write m Kind.pods os = record m { objects = elim [ Kind.pods ↦ os | k ↦ m.objects k ] }

abbrev pub view : Memory → View
view m k key = find k (m.objects k) key

-- The object under a key, before the others, if no later one has the key.
abbrev pub kept : {A : Type 0} → Option A → Option A → List A → List A
kept (some later) found os = os
kept none none os = os
kept none (some o) os = o ∷ os

unfoldable pub collect : (k : Kind) → List (Obj k) → List (Obj k) → List (Obj k)
collect k all [] = []
collect k all (o ∷ os) =
    kept {A = Obj k} (find k os (key_of k o)) (find k all (key_of k o)) (collect k all os)

unfoldable pub labelled : String → String → List Calculation → List Calculation
labelled l v [] = []
labelled l v (o ∷ os) =
    let rest = labelled l v os in
    elim (index o.meta.labels l) [ none ↦ rest | some x ↦ if v == x then o ∷ rest else rest ]

abbrev pub or_missing : {A : Type 0} → Option A → Outcome A
or_missing none = err (external "not found")
or_missing (some a) = ok a

-- The result of a write that needs the key to be free, or taken.
abbrev pub create_in :
    (m : Memory) (k : Kind) (o : Obj k) → Option (Obj k) → Outcome (Unit {0}) × Memory
create_in m k o none = (ok tt, write m k (o ∷ m.objects k))
create_in m k o (some _) = (err (external "already exists"), m)

abbrev pub update_in :
    (m : Memory) (k : Kind) (o : Obj k) → Option (Obj k) → Outcome (Unit {0}) × Memory
update_in m k o none = (err (external "not found"), m)
update_in m k o (some _) = (ok tt, write m k (o ∷ m.objects k))

abbrev is_missing : Error → Bool
is_missing (external s) = s == "not found"
is_missing _ = false

abbrev first_error : List Error → Option Error
first_error [] = none
first_error (e ∷ _) = some e

abbrev pub delete_in :
    (m : Memory) (k : Kind) (o : Obj k) → Option (Obj k) → Outcome (Unit {0}) × Memory
delete_in m k o none = (err (external "not found"), m)
delete_in m k o (some _) = (ok tt, write m k (without k (key_of k o) (m.objects k)))

-- No other client interferes, so no call is in conflict.
abbrev pub memory : Cluster
memory = record {
  World = Memory;
  now = λ m. (ok (m.clock), record m { clock = suc m.clock });
  back_off = λ m. m;
  get = λ k key m. (or_missing (view m k key), m);
  list = λ k m. (ok (collect k (m.objects k) (m.objects k)), m);
  list_labelled = λ l v m. (
    ok (
        labelled l v
          (collect Kind.calculations (m.objects Kind.calculations) (m.objects Kind.calculations))),
    m,
  );
  create = λ k o m. create_in m k o (view m k (key_of k o));
  update = λ k o m. update_in m k o (view m k (key_of k o));
  delete = λ k o m. delete_in m k o (view m k (key_of k o));
  retry_on_conflict = λ A fn m. fn m;
  is_conflict = λ e. false;
  is_not_found = is_missing;
  is_unauthorized = λ e. false;
  is_forbidden = λ e. false;
  is_internal_error = λ e. false;
  new_aggregate = first_error;
}
