-- ===== src/Util/Calculations/Sorted.antt =====
-- GetSortedCreatedCalculations: which items it returns, and in which order.
use ccb_operator.Base.{
  ◌≡◌, refl, String, none, some, List, [], ◌∷◌, map, All, Listed, Distinct, ap, ◌==◌, All-map_of,
  arith, Bool-cases, inl, inr,
}
use ccb_operator.Base.Maps.{GoMap, Entries, NodupKeys, entries, lookup}
use ccb_operator.Base.Sort.{
  IsSorted, sort, sort-IsSorted, sort-Distinct, sort-Listed, sort-All, text_le, text_le_total,
}
use ccb_operator.Api.Calculations.{CalculationPhase, is_no_phase}
use ccb_operator.Api.Bulks.{BulkCalculation}
use ccb_operator.Util.Calculations.{Item, created_keys, items_at, get_sorted_created_calculations}

abbrev pub names : List Item → List String
names = map (λ i. i.name)

module _ (calcs : Entries BulkCalculation) where
  -- The key of a calculation that has no phase yet.
  abbrev pub IsWaiting : String → Type 0
  IsWaiting k =
      (c : BulkCalculation) × (lookup k calcs ≡ some c) × (c.phase ≡ CalculationPhase.no_phase)

  -- An item that is such an entry.
  abbrev pub IsEntry : Item → Type 0
  IsEntry i =
      (lookup i.name calcs ≡ some i.calculation) × (i.calculation.phase ≡ CalculationPhase.no_phase)

  names-items_at : (keys : List String) → names (items_at (some calcs) keys) ≡ keys
  unfolding items_at
  names-items_at [] = refl
  names-items_at (k ∷ keys) = rw (names-items_at keys)

  items_at-IsEntry :
      (keys : List String) → All IsWaiting keys → All IsEntry (items_at (some calcs) keys)
  unfolding items_at
  items_at-IsEntry [] h = tt
  items_at-IsEntry (k ∷ keys) ((c, found, waits), h) =
      (rw found (refl, waits), items_at-IsEntry keys h)

IsWaiting-cons :
    (k : String) (v : BulkCalculation) (calcs : Entries BulkCalculation)
    → lookup k calcs ≡ none
    → (j : String) → IsWaiting calcs j
    → IsWaiting ((k, v) ∷ calcs) j
unfolding lookup
IsWaiting-cons k v calcs fresh j (c, found, waits) = (c, ground arith, waits)

created_keys-IsWaiting :
    (calcs : Entries BulkCalculation) → NodupKeys calcs → All (IsWaiting calcs) (created_keys calcs)
unfolding created_keys lookup
created_keys-IsWaiting [] u = tt
created_keys-IsWaiting ((k, v) ∷ calcs) (fresh, u) =
    let rest =
      All-map_of (IsWaiting-cons k v calcs fresh) (created_keys calcs)
        (created_keys-IsWaiting calcs u) in
    elim (Bool-cases (is_no_phase v.phase)) [
      | inl e ↦ rw e ((v, ground arith, ground arith), rest)
      | inr e ↦ rw e rest
    ]

created_keys-Listed :
    (calcs : Entries BulkCalculation) (j : String)
    → IsWaiting calcs j
    → Listed j (created_keys calcs)
unfolding created_keys lookup
created_keys-Listed [] j (c, found, waits) = absurd (cc found)
created_keys-Listed ((k, v) ∷ calcs) j (c, found, waits) =
    let later = λ (h : IsWaiting calcs j). created_keys-Listed calcs j h in
    elim (Bool-cases (j == k)) [
      | inl e ↦
          let here : v.phase ≡ CalculationPhase.no_phase = ground arith in
          let same : k ≡ j = ground arith in rw (here, created_keys) (inl same)
      | inr e ↦
          let old : lookup j calcs ≡ some c = ground arith in
          elim (Bool-cases (is_no_phase v.phase)) [
            | inl f ↦ rw f (inr (later (c, old, waits)))
            | inr f ↦ rw f (later (c, old, waits))
          ]
    ]

created_keys-Distinct :
    (calcs : Entries BulkCalculation) → NodupKeys calcs → Distinct (created_keys calcs)
unfolding created_keys lookup
created_keys-Distinct [] u = tt
created_keys-Distinct ((k, v) ∷ calcs) (fresh, u) =
    let rest = created_keys-Distinct calcs u in
    elim (Bool-cases (is_no_phase v.phase)) [
      | inl e ↦ rw e (
        All-map_of
            (λ j (c, found, waits) same. absurd (cc (fresh, found, ap (λ x. lookup x calcs) same)))
            (created_keys calcs) (created_keys-IsWaiting calcs u),
        rest,
      )
      | inr e ↦ rw e rest
    ]

-- The items are in ascending order of their keys, each key once, each is an entry without a phase,
-- and every key of an entry without a phase is among them.
pub get_sorted_created_calculations_lem :
    (calcs : GoMap BulkCalculation)
    → NodupKeys (entries calcs)
    → let items = get_sorted_created_calculations calcs in
      IsSorted text_le (names items)
      × Distinct (names items)
      × All (IsEntry (entries calcs)) items
      × ((k : String) → IsWaiting (entries calcs) k → Listed k (names items))
unfolding get_sorted_created_calculations lookup
get_sorted_created_calculations_lem none u = (tt, tt, tt, λ k (c, found, waits). absurd (cc found))
get_sorted_created_calculations_lem (some calcs) u =
    let keys = created_keys calcs in
    rw (names-items_at calcs (sort text_le keys)) (
      sort-IsSorted text_le text_le_total keys,
      sort-Distinct text_le keys (created_keys-Distinct calcs u),
      items_at-IsEntry calcs (sort text_le keys)
          (sort-All text_le (IsWaiting calcs) keys (created_keys-IsWaiting calcs u)),
      λ k waits. sort-Listed text_le k keys (created_keys-Listed calcs k waits),
    )
