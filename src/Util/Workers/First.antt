-- ===== src/Util/Workers/First.antt =====
-- GetFirstAvailableWorker against `sort.Slice` as it is documented.
use mathlib.Core.Path.{sym, ◌∙◌}
use mathlib.Core.Bool.{true≢false}
use mathlib.Core.List.{Perm, Mem, mem-cons_self, mem-cons_of_mem}
use mathlib.Core.List.Perm
use ccb_operator.Base.{
  ◌≡◌, All-at, All-map_of, String, Bool, true, false, Option, none, some, List, [], ◌∷◌, All, arith,
  Bool-cases, inl, inr,
}
use ccb_operator.Base.Maps.{GoMap, entries}
use ccb_operator.Base.Sort.{text_le, text_le_total, text_le_trans}
use ccb_operator.Api.Workers.{Worker, is_available}
use ccb_operator.Util.Workers.{
  Slices, values, text_lt, first_available, sort_workers, get_first_available_worker,
}

-- What `sort.Slice` asks of its test: that it is a strict weak order.
abbrev pub IsStrictWeak : {A : Type 0} → (A → A → Bool) → Type 0
IsStrictWeak {A} lt =
    ((a b : A) → lt a b ≡ true → lt b a ≡ false)
    × ((a b c : A) → lt b a ≡ false → lt c b ≡ false → lt c a ≡ false)

-- No member is less than one before it.
abbrev pub Ascending : {A : Type 0} → (A → A → Bool) → List A → Type 0
Ascending lt [] = Unit
Ascending lt (x ∷ xs) = All (λ y. lt y x ≡ false) xs × Ascending lt xs

-- `sort.Slice` keeps the members, and sorts them where the test is such an order.
pub record Sorts (S : Slices) : Type 1 where
  pub sort_slice-perm :
      (A : Type 0) (lt : A → A → Bool) (xs : List A) → Perm (S.sort_slice A lt xs) xs
  pub sort_slice-Ascending :
      (A : Type 0) (lt : A → A → Bool)
      → IsStrictWeak lt
      → (xs : List A) → Ascending lt (S.sort_slice A lt xs)

abbrev pub before_by_node : Worker → Worker → Bool
before_by_node a b = text_lt a.node b.node

-- The worker that stands for a list: none, if none is available, or else an available member whose
-- node is at most that of every available one.
abbrev pub StandsFor : List Worker → Option Worker → Type 0
StandsFor workers none = (v : Worker) → Mem v workers → is_available v.state ≡ false
StandsFor workers (some w) =
    Mem w workers
    × (is_available w.state ≡ true)
    × ((v : Worker) → Mem v workers → is_available v.state ≡ true → text_le w.node v.node ≡ true)

-- The same of a list in order, member by member.
abbrev IsFirst : List Worker → Option Worker → Type 0
IsFirst workers none = All (λ v. is_available v.state ≡ false) workers
IsFirst workers (some w) =
    Mem w workers
    × (is_available w.state ≡ true)
    × All (λ v. is_available v.state ≡ true → text_le w.node v.node ≡ true) workers

IsFirst-StandsFor :
    (workers : List Worker) (w : Option Worker) → IsFirst workers w → StandsFor workers w
IsFirst-StandsFor workers none h = All-at _ (λ v. (hlevel)) workers h
IsFirst-StandsFor workers (some w) (m, a, h) = (m, a, All-at _ (λ v. (hlevel)) workers h)

StandsFor-perm :
    (workers sorted : List Worker)
    → Perm sorted workers
    → (w : Option Worker) → StandsFor sorted w
    → StandsFor workers w
StandsFor-perm workers sorted p none h = λ v m. h v ((Perm.mem_iff p).1 m)
StandsFor-perm workers sorted p (some w) (m, a, h) =
    ((Perm.mem_iff p).0 m, a, λ v m'. h v ((Perm.mem_iff p).1 m'))

IsFirst-skip :
    (x : Worker) (xs : List Worker) (w : Option Worker)
    → is_available x.state ≡ false
    → IsFirst xs w
    → IsFirst (x ∷ xs) w
IsFirst-skip x xs none e h = (e, h)
IsFirst-skip x xs (some w) e (m, a, h) =
    (mem-cons_of_mem x m, a, ((λ b. absurd (true≢false (sym b ∙ e))), h))

before_le : (x v : Worker) → before_by_node v x ≡ false → text_le x.node v.node ≡ true
before_le x v h = ground arith

text_le_refl : (a : String) → text_le a a ≡ true
text_le_refl a = elim (Bool-cases (text_le a a)) [ inl e ↦ e | inr e ↦ text_le_total a a e ]

first_available-IsFirst :
    (workers : List Worker)
    → Ascending before_by_node workers
    → IsFirst workers (first_available workers)
unfolding first_available
first_available-IsFirst [] s = tt
first_available-IsFirst (x ∷ xs) (least, s) = elim (Bool-cases (is_available x.state)) [
  | inl e ↦ rw e (
    mem-cons_self,
    e,
    ((λ _. text_le_refl x.node), All-map_of (λ v h _. before_le x v h) xs least),
  )
  | inr e ↦ rw e (IsFirst-skip x xs (first_available xs) e (first_available-IsFirst xs s))
]

before_by_node-IsStrictWeak : IsStrictWeak before_by_node
before_by_node-IsStrictWeak = (
  λ a b h. ground (arith, text_le_total b.node a.node),
  λ a b c h k. ground (arith, text_le_trans a.node b.node c.node),
)

-- Over a `sort.Slice` that keeps what it documents, the worker that is returned is an available one
-- of the map, and no available one has a lesser node. None is returned only if none is available.
pub get_first_available_worker_lem :
    (S : Slices)
    → Sorts S
    → (workers : GoMap Worker)
    → StandsFor (values (entries workers)) (get_first_available_worker S workers)
unfolding get_first_available_worker sort_workers
get_first_available_worker_lem S laws workers =
    let sorted = sort_workers S workers in
    StandsFor-perm (values (entries workers)) sorted
      (Perm.trans (laws.sort_slice-perm Worker _ _) (laws.sort_slice-perm Worker _ _))
      (first_available sorted)
      (IsFirst-StandsFor sorted (first_available sorted) (
        first_available-IsFirst sorted
          (laws.sort_slice-Ascending Worker before_by_node before_by_node-IsStrictWeak _)))
