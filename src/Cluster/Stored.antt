-- ===== src/Cluster/Stored.antt =====
-- A list of calculations, each stored as it is listed, and none twice.
use ccb_operator.Base.{◌≡◌, ap, ◌≢◌, some, List, [], ◌∷◌, All, Distinct, inl, inr, Bool-cases}
use ccb_operator.Api.{Kind, key_of}
use ccb_operator.Api.Calculations.{Calculation}
use ccb_operator.Cluster.View.{View, same_key, remove}
use ccb_operator.Cluster.Keeps.{same_key-eq}

abbrev pub IsStored : View → Calculation → Type 0
IsStored v c = v Kind.calculations (key_of Kind.calculations c) ≡ some c

abbrev pub AreStored : View → List Calculation → Type 0
AreStored v calcs = All (IsStored v) calcs × Distinct calcs

-- A calculation that is removed is not one of the others.
remove-IsStored :
    (v : View) (x y : Calculation)
    → IsStored v x
    → IsStored v y
    → x ≢ y
    → IsStored (remove v Kind.calculations x) y
remove-IsStored v x y hx hy other =
    elim (Bool-cases (same_key (key_of Kind.calculations y) (key_of Kind.calculations x))) [
      | inl e ↦
          let same = same_key-eq (key_of Kind.calculations y) (key_of Kind.calculations x) e in
          absurd (other (cc (hx, hy, ap (v Kind.calculations) same)))
      | inr e ↦ rw e hy
    ]

pub remove-AreStored :
    (v : View) (x : Calculation) (calcs : List Calculation)
    → AreStored v (x ∷ calcs)
    → AreStored (remove v Kind.calculations x) calcs
remove-AreStored v x calcs ((hx, h), (other, d)) = (each calcs h other, d)
  where
    each :
        (calcs : List Calculation)
        → All (IsStored v) calcs
        → All (λ y. x ≢ y) calcs
        → All (IsStored (remove v Kind.calculations x)) calcs
    each [] h other = tt
    each (y ∷ calcs) (hy, h) (o, other) = (remove-IsStored v x y hx hy o, each calcs h other)
