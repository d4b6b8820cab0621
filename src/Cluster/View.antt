-- ===== src/Cluster/View.antt =====
-- The objects that the API server holds, by kind and key.
use ccb_operator.Base.{◌≡◌, Bool, ◌&&◌, ◌==◌, if◌then◌else◌, Option, none, some, arith}
use ccb_operator.Api.{Kind, Obj, key_of}
use ccb_operator.Api.Meta.{ObjectKey}

abbrev pub View : Type 0
View = (k : Kind) → ObjectKey → Option (Obj k)

abbrev pub same_key : ObjectKey → ObjectKey → Bool
same_key a b = a.namespace == b.namespace && a.name == b.name

-- One kind's objects after the entry at `key` is set to `o`, or removed.
abbrev pub assign {ℓ} :
    {A : Type ℓ} → (ObjectKey → Option A) → ObjectKey → Option A → ObjectKey → Option A
assign f key o j = if same_key j key then o else f j

abbrev pub assign_in : View → (k : Kind) → ObjectKey → Option (Obj k) → View
assign_in v Kind.calculations key o Kind.calculations = assign (v Kind.calculations) key o
assign_in v Kind.bulks key o Kind.bulks = assign (v Kind.bulks) key o
assign_in v Kind.factories key o Kind.factories = assign (v Kind.factories) key o
assign_in v Kind.pools key o Kind.pools = assign (v Kind.pools) key o
assign_in v Kind.pods key o Kind.pods = assign (v Kind.pods) key o
assign_in v _ key o k = v k

-- The view with `o` stored under its own key.
abbrev pub put : View → (k : Kind) → Obj k → View
put v k o = assign_in v k (key_of k o) (some o)

abbrev pub remove : View → (k : Kind) → Obj k → View
remove v k o = assign_in v k (key_of k o) none

-- What is stored under a key is found under it.
pub assign_in_self :
    (v : View) (k : Kind) (key : ObjectKey) (o : Option (Obj k)) → assign_in v k key o k key ≡ o
assign_in_self v Kind.calculations key o = ground arith
assign_in_self v Kind.bulks key o = ground arith
assign_in_self v Kind.factories key o = ground arith
assign_in_self v Kind.pools key o = ground arith
assign_in_self v Kind.pods key o = ground arith
