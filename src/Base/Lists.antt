-- ===== src/Base/Lists.antt =====
-- Lists measured by native numbers, predicates on their members, and a few of Go's idioms.
use Prim.Native.Nat.{ℕ, zero, suc, ◌+◌, min}
use mathlib.Core.Path.{◌≡◌, refl, ap, ◌∙◌}
use mathlib.Core.Logic.{◌≢◌, ◌⊎◌, inl, inr}
use mathlib.Core.Bool.{Bool, true, false, ◌&&◌, ◌||◌}
use mathlib.Core.List.{List, [], ◌∷◌, ◌++◌, map, Mem, not-mem-nil, forall_mem-cons}
use mathlib.Core.Option.{Option, none, some}
use native.Mathlib.Omega.{arith}
use ccb_operator.Base.Tests.{if◌then◌else◌, Bool-cases}

module _ {ℓ} {A : Type ℓ} where
  abbrev pub length : List A → ℕ
  length [] = 0
  length (x ∷ xs) = suc (length xs)

  abbrev pub get_elem? : List A → ℕ → Option A
  get_elem? [] i = none
  get_elem? (x ∷ xs) zero = some x
  get_elem? (x ∷ xs) (suc i) = get_elem? xs i

  abbrev pub set : List A → ℕ → A → List A
  set [] i v = []
  set (x ∷ xs) zero v = v ∷ xs
  set (x ∷ xs) (suc i) v = x ∷ set xs i v

  abbrev pub take : ℕ → List A → List A
  take zero xs = []
  take (suc i) [] = []
  take (suc i) (x ∷ xs) = x ∷ take i xs

  -- The members that pass a test, in order.
  abbrev pub select : (A → Bool) → List A → List A
  select p [] = []
  select p (x ∷ xs) = let rest = select p xs in if p x then x ∷ rest else rest

  abbrev pub any : (A → Bool) → List A → Bool
  any p [] = false
  any p (x ∷ xs) = p x || any p xs

  abbrev pub all : (A → Bool) → List A → Bool
  all p [] = true
  all p (x ∷ xs) = p x && all p xs

  abbrev pub All {κ} : (A → Type κ) → List A → Type κ
  All P [] = Unit
  All P (x ∷ xs) = P x × All P xs

  abbrev pub replicate : ℕ → A → List A
  replicate zero a = []
  replicate (suc n) a = a ∷ replicate n a

  abbrev pub zip {κ} : {B : Type κ} → List A → List B → List (A × B)
  zip [] ys = []
  zip (x ∷ xs) [] = []
  zip (x ∷ xs) (y ∷ ys) = (x, y) ∷ zip xs ys

  -- No member occurs twice.
  abbrev pub Distinct : List A → Type ℓ
  Distinct [] = Unit
  Distinct (x ∷ xs) = All (λ y. x ≢ y) xs × Distinct xs

  pub length-append : (xs ys : List A) → length (xs ++ ys) ≡ length xs + length ys
  length-append [] ys = omega arith
  length-append (x ∷ xs) ys = omega (arith, length-append xs ys)

  -- The member behind a first part stands at that part's length.
  pub get_elem?-append :
      (xs : List A) (y : A) (ys : List A) → get_elem? (xs ++ (y ∷ ys)) (length xs) ≡ some y
  get_elem?-append [] y ys = refl
  get_elem?-append (x ∷ xs) y ys = get_elem?-append xs y ys

  pub set-append :
      (xs : List A) (y : A) (ys : List A) (z : A)
      → set (xs ++ (y ∷ ys)) (length xs) z ≡ (xs ++ (z ∷ [])) ++ ys
  set-append [] y ys z = refl
  set-append (x ∷ xs) y ys z = ap (λ l. x ∷ l) (set-append xs y ys z)

  -- What is selected passed the test, and is as the members were.
  pub select-All {κ} :
      (p : A → Bool) (P : A → Type κ) (xs : List A)
      → All P xs
      → All (λ x. P x × (p x ≡ true)) (select p xs)
  select-All p P [] h = tt
  select-All p P (x ∷ xs) (q, h) =
      let rest = select-All p P xs h in
      elim (Bool-cases (p x)) [ inl e ↦ rw e ((q, e), rest) | inr e ↦ rw e rest ]

  pub All-map_of {κ μ} :
      {P : A → Type κ} {Q : A → Type μ} (f : (a : A) → P a → Q a) (xs : List A)
      → All P xs
      → All Q xs
  All-map_of f [] h = tt
  All-map_of f (x ∷ xs) h = (f x h.0, All-map_of f xs h.1)

module _ {ℓ} {A : Type ℓ} where
  pub length-set : (xs : List A) (i : ℕ) (v : A) → length (set xs i v) ≡ length xs
  length-set [] i v = refl
  length-set (x ∷ xs) zero v = refl
  length-set (x ∷ xs) (suc i) v = ap suc (length-set xs i v)

module _ {A B : Type 0} where
  pub All-zip :
      (P : A → Type 0) (Q : B → Type 0) (xs : List A) (ys : List B)
      → All P xs
      → All Q ys
      → All (λ e. P e.0 × Q e.1) (zip xs ys)
  All-zip P Q [] ys p q = tt
  All-zip P Q (x ∷ xs) [] p q = tt
  All-zip P Q (x ∷ xs) (y ∷ ys) p q = ((p.0, q.0), All-zip P Q xs ys p.1 q.1)

  zip-All_right :
      (Q : B → Type 0) (xs : List A) (ys : List B) → All Q ys → All Q (map (λ e. e.1) (zip xs ys))
  zip-All_right Q [] ys q = tt
  zip-All_right Q (x ∷ xs) [] q = tt
  zip-All_right Q (x ∷ xs) (y ∷ ys) q = (q.0, zip-All_right Q xs ys q.1)

  pub zip-Distinct_right :
      (xs : List A) (ys : List B) → Distinct ys → Distinct (map (λ e. e.1) (zip xs ys))
  zip-Distinct_right [] ys d = tt
  zip-Distinct_right (x ∷ xs) [] d = tt
  zip-Distinct_right (x ∷ xs) (y ∷ ys) d =
      (zip-All_right (λ z. y ≢ z) xs ys d.0, zip-Distinct_right xs ys d.1)

  pub length-zip : (xs : List A) (ys : List B) → length (zip xs ys) ≡ min (length xs) (length ys)
  length-zip [] ys = omega arith
  length-zip (x ∷ xs) [] = omega arith
  length-zip (x ∷ xs) (y ∷ ys) = omega (arith, length-zip xs ys)

-- What holds of all members holds of each.
pub All-at {κ} :
    {A : Type 0} (P : A → Type κ)
    → ((a : A) → IsProp (P a))
    → (xs : List A) → All P xs
    → (a : A) → Mem a xs
    → P a
All-at P prop [] h a m = absurd (not-mem-nil m)
All-at P prop (x ∷ xs) (p, h) a m = (forall_mem-cons prop).1 (p, All-at P prop xs h) a m

-- The list has the member.
abbrev pub Listed : {A : Type 0} → A → List A → Type 0
Listed a [] = ⊥
Listed a (x ∷ xs) = (x ≡ a) ⊎ Listed a xs

pub Listed-select :
    {A : Type 0} (p : A → Bool) (a : A) (xs : List A)
    → p a ≡ true
    → Listed a xs
    → Listed a (select p xs)
Listed-select p a [] e l = l
Listed-select p a (x ∷ xs) e (inl same) = rw (ap p same ∙ e) (inl same)
Listed-select p a (x ∷ xs) e (inr l) = elim (Bool-cases (p x)) [
  | inl t ↦ rw t (inr (Listed-select p a xs e l))
  | inr t ↦ rw t (Listed-select p a xs e l)
]

pub select-Distinct :
    {A : Type 0} (p : A → Bool) (xs : List A) → Distinct xs → Distinct (select p xs)
select-Distinct p [] d = d
select-Distinct p (x ∷ xs) (other, d) = elim (Bool-cases (p x)) [
  | inl t ↦ rw t (
    All-map_of (λ y h. h.0) (select p xs) (select-All p (λ y. x ≢ y) xs other),
    select-Distinct p xs d,
  )
  | inr t ↦ rw t (select-Distinct p xs d)
]
