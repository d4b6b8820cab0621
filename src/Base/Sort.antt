-- ===== src/Base/Sort.antt =====
-- The order of texts, and `sort.Strings`: ties are equal texts, so the sorted list is determined and
-- insertion finds it.
use Prim.Native.Nat.{ℕ, suc, compare as compare_ℕ}
use Prim.Native.Char.{code}
use Prim.Native.String.compare
use Prim.Native.String.{String, compare, then as and_then}
use mathlib.Core.Path.{◌≡◌, refl, sym, ◌∙◌, ap}
use mathlib.Core.Logic.{◌≢◌, ◌⊎◌, inl, inr}
use mathlib.Core.Bool.{Bool, true, false, false≢true}
use mathlib.Core.List.{List, [], ◌∷◌, Perm}
use mathlib.Core.List.Perm
use native.Mathlib.Omega.{arith}
use text.Mathlib.Text.{is_le}
use ccb_operator.Base.Lists.{All, Listed, Distinct, length}
use ccb_operator.Base.Tests.{Bool-cases, if◌then◌else◌}

unfoldable pub text_le : String → String → Bool
text_le a b = is_le (compare a b)

compared_total :
    (m n : ℕ) (s t : String)
    → (text_le s t ≡ false → text_le t s ≡ true)
    → is_le (and_then (compare_ℕ m n) (compare s t)) ≡ false
    → is_le (and_then (compare_ℕ n m) (compare t s)) ≡ true
unfolding text_le
compared_total m n s t rest h = ground arith

pub text_le_total : (a b : String) → text_le a b ≡ false → text_le b a ≡ true
unfolding text_le
text_le_total String.[] String.[] h = refl
text_le_total String.[] (String.◌∷◌ d t) h =
    absurd (false≢true (sym h ∙ ap is_le (compare.nil-cons d t)))
text_le_total (String.◌∷◌ c s) String.[] h = ap is_le (compare.nil-cons c s)
text_le_total (String.◌∷◌ c s) (String.◌∷◌ d t) h =
    ap is_le (compare.cons-cons d c t s)
    ∙ compared_total (code c) (code d) s t (text_le_total s t)
        (sym (ap is_le (compare.cons-cons c d s t)) ∙ h)

compared_trans :
    (l m n : ℕ) (s t u : String)
    → (text_le s t ≡ true → text_le t u ≡ true → text_le s u ≡ true)
    → is_le (and_then (compare_ℕ l m) (compare s t)) ≡ true
    → is_le (and_then (compare_ℕ m n) (compare t u)) ≡ true
    → is_le (and_then (compare_ℕ l n) (compare s u)) ≡ true
unfolding text_le
compared_trans l m n s t u rest h k = ground arith

pub text_le_trans : (a b c : String) → text_le a b ≡ true → text_le b c ≡ true → text_le a c ≡ true
unfolding text_le
text_le_trans String.[] b String.[] h k = refl
text_le_trans String.[] b (String.◌∷◌ e u) h k = ap is_le (compare.nil-cons e u)
text_le_trans (String.◌∷◌ c s) String.[] u h k =
    absurd (false≢true (sym (ap is_le (compare.cons-nil c s)) ∙ h))
text_le_trans (String.◌∷◌ c s) (String.◌∷◌ d t) String.[] h k =
    absurd (false≢true (sym (ap is_le (compare.cons-nil d t)) ∙ k))
text_le_trans (String.◌∷◌ c s) (String.◌∷◌ d t) (String.◌∷◌ e u) h k =
    ap is_le (compare.cons-cons c e s u)
    ∙ compared_trans (code c) (code d) (code e) s t u (text_le_trans s t u)
        (sym (ap is_le (compare.cons-cons c d s t)) ∙ h)
        (sym (ap is_le (compare.cons-cons d e t u)) ∙ k)

module _ {ℓ} {A : Type ℓ} (le : A → A → Bool) where
  insert_sorted : A → List A → List A
  insert_sorted x [] = x ∷ []
  insert_sorted x (y ∷ ys) = if le x y then x ∷ y ∷ ys else y ∷ insert_sorted x ys

  unfoldable pub sort : List A → List A
  unfolding insert_sorted
  sort [] = []
  sort (x ∷ xs) = insert_sorted x (sort xs)

  abbrev FirstFrom : A → List A → Type 0
  FirstFrom x [] = Unit
  FirstFrom x (y ∷ ys) = le x y ≡ true

  -- Each member is at most the next one.
  abbrev pub IsSorted : List A → Type 0
  IsSorted [] = Unit
  IsSorted (x ∷ xs) = FirstFrom x xs × IsSorted xs

  module _ (total : (x y : A) → le x y ≡ false → le y x ≡ true) where
    insert_sorted-FirstFrom :
        (y x : A) (ys : List A) → le y x ≡ true → FirstFrom y ys → FirstFrom y (insert_sorted x ys)
    unfolding insert_sorted
    insert_sorted-FirstFrom y x [] h f = h
    insert_sorted-FirstFrom y x (z ∷ ys) h f = ground arith

    insert_sorted-IsSorted : (x : A) (ys : List A) → IsSorted ys → IsSorted (insert_sorted x ys)
    unfolding insert_sorted
    insert_sorted-IsSorted x [] s = (tt, tt)
    insert_sorted-IsSorted x (y ∷ ys) (f, s) =
        ground (arith, total x y, insert_sorted-IsSorted x ys s, insert_sorted-FirstFrom y x ys)

    pub sort-IsSorted : (xs : List A) → IsSorted (sort xs)
    unfolding sort
    sort-IsSorted [] = tt
    sort-IsSorted (x ∷ xs) = insert_sorted-IsSorted x (sort xs) (sort-IsSorted xs)

  insert_sorted-All {κ} :
      (P : A → Type κ) (x : A) (ys : List A) → P x → All P ys → All P (insert_sorted x ys)
  unfolding insert_sorted
  insert_sorted-All P x [] p h = (p, tt)
  insert_sorted-All P x (y ∷ ys) p h = elim (Bool-cases (le x y)) [
    | inl e ↦ rw e (p, h)
    | inr e ↦ rw e (h.0, insert_sorted-All P x ys p h.1)
  ]

  pub sort-All {κ} : (P : A → Type κ) (xs : List A) → All P xs → All P (sort xs)
  unfolding sort
  sort-All P [] h = tt
  sort-All P (x ∷ xs) h = insert_sorted-All P x (sort xs) h.0 (sort-All P xs h.1)

  insert_sorted-Distinct :
      (x : A) (ys : List A) → All (λ y. x ≢ y) ys → Distinct ys → Distinct (insert_sorted x ys)
  unfolding insert_sorted
  insert_sorted-Distinct x [] n d = (tt, tt)
  insert_sorted-Distinct x (y ∷ ys) n d = elim (Bool-cases (le x y)) [
    | inl e ↦ rw e (n, d)
    | inr e ↦ rw e (
      insert_sorted-All (λ z. y ≢ z) x ys (λ q. n.0 (sym q)) d.0,
      insert_sorted-Distinct x ys n.1 d.1,
    )
  ]

  pub sort-Distinct : (xs : List A) → Distinct xs → Distinct (sort xs)
  unfolding sort
  sort-Distinct [] d = tt
  sort-Distinct (x ∷ xs) d =
      insert_sorted-Distinct x (sort xs) (sort-All (λ y. x ≢ y) xs d.0) (sort-Distinct xs d.1)

  insert_sorted-length : (x : A) (ys : List A) → length (insert_sorted x ys) ≡ suc (length ys)
  unfolding insert_sorted
  insert_sorted-length x [] = refl
  insert_sorted-length x (y ∷ ys) = ground (arith, insert_sorted-length x ys)

  pub length-sort : (xs : List A) → length (sort xs) ≡ length xs
  unfolding sort
  length-sort [] = refl
  length-sort (x ∷ xs) = omega (arith, insert_sorted-length x (sort xs), length-sort xs)

  insert_sorted-perm : (x : A) (ys : List A) → Perm (insert_sorted x ys) (x ∷ ys)
  unfolding insert_sorted
  insert_sorted-perm x [] = Perm.refl _
  insert_sorted-perm x (y ∷ ys) = elim (Bool-cases (le x y)) [
    | inl e ↦ rw e (Perm.refl _)
    | inr e ↦ rw e (Perm.trans (Perm.cons y (insert_sorted-perm x ys)) (Perm.swap x y ys))
  ]

  pub sort-perm : (xs : List A) → Perm (sort xs) xs
  unfolding sort
  sort-perm [] = Perm.refl _
  sort-perm (x ∷ xs) = Perm.trans (insert_sorted-perm x (sort xs)) (Perm.cons x (sort-perm xs))

module _ {A : Type 0} (le : A → A → Bool) where
  insert_sorted-Listed :
      (a x : A) (ys : List A) → (x ≡ a) ⊎ Listed a ys → Listed a (insert_sorted le x ys)
  unfolding insert_sorted
  insert_sorted-Listed a x [] h = h
  insert_sorted-Listed a x (y ∷ ys) h = elim (Bool-cases (le x y)) [
    | inl e ↦ rw e h
    | inr e ↦ rw e (elim h [
      | inl same ↦ inr (insert_sorted-Listed a x ys (inl same))
      | inr l ↦ elim l [ inl same ↦ inl same | inr m ↦ inr (insert_sorted-Listed a x ys (inr m)) ]
    ])
  ]

  pub sort-Listed : (a : A) (xs : List A) → Listed a xs → Listed a (sort le xs)
  unfolding sort
  sort-Listed a [] l = l
  sort-Listed a (x ∷ xs) (inl same) = insert_sorted-Listed a x (sort le xs) (inl same)
  sort-Listed a (x ∷ xs) (inr l) = insert_sorted-Listed a x (sort le xs) (inr (sort-Listed a xs l))
