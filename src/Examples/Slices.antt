-- ===== src/Examples/Slices.antt =====
-- A `sort.Slice` by insertion, which keeps what is documented.
use ccb_operator.Base.{
  ◌≡◌, Bool, true, false, if◌then◌else◌, none, some, List, [], ◌∷◌, All, All-map_of, arith, ltb,
}
use ccb_operator.Base.Sort.{IsSorted, sort, sort-IsSorted, sort-perm}
use ccb_operator.Util.Workers.{Slices}
use ccb_operator.Util.Workers.First.{IsStrictWeak, Ascending, Sorts}

module _ {A : Type 0} (lt : A → A → Bool) where
  abbrev at_most : A → A → Bool
  at_most a b = if lt b a then false else true

  module _ (weak : IsStrictWeak lt) where
    at_most_total : (a b : A) → at_most a b ≡ false → at_most b a ≡ true
    at_most_total a b h = ground (arith, weak.0 b a)

    IsSorted-from : (x : A) (xs : List A) → IsSorted at_most (x ∷ xs) → All (λ y. lt y x ≡ false) xs
    IsSorted-from x [] s = tt
    IsSorted-from x (y ∷ xs) (h, s) =
        let least : lt y x ≡ false = ground arith in
        (least, All-map_of (λ z k. weak.1 x y z least k) xs (IsSorted-from y xs s))

    IsSorted-Ascending : (xs : List A) → IsSorted at_most xs → Ascending lt xs
    IsSorted-Ascending [] s = tt
    IsSorted-Ascending (x ∷ xs) s = (IsSorted-from x xs s, IsSorted-Ascending xs s.1)

abbrev pub slices : Slices
slices = record {
  sort_slice = λ A lt. sort (at_most lt);
  before = λ s t. elim s [ none ↦ false | some m ↦ elim t [ none ↦ false | some n ↦ ltb m n ] ];
}

pub slices-Sorts : Sorts slices
slices-Sorts = record {
  sort_slice-perm = λ A lt xs. sort-perm (at_most lt) xs;
  sort_slice-Ascending = λ A lt weak xs.
      IsSorted-Ascending lt weak (sort (at_most lt) xs)
        (sort-IsSorted (at_most lt) (at_most_total lt weak) xs);
}
