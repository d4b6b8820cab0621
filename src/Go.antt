-- ===== src/Go.antt =====
-- Go's errors, and code that reads and changes the world, fails with an error, or panics.
pub mod Rules
pub mod Answers
pub mod Success
use ccb_operator.Base.{◌⊎◌, inl, inr, String, Option, none, some}

-- `external` is an error value that a library returns, named by a text. `text` is made by
-- errors.New or fmt.Errorf, and `wrap` by fmt.Errorf with `%w`.
pub data Error : Type 0 where
  external : String → Error
  text : String → Error
  wrap : String → Error → Error

pub data Outcome (A : Type 0) : Type 0 where
  ok : A → Outcome A
  err : Error → Outcome A
  panic : String → Outcome A

abbrev pub Action : Type 0 → Type 0 → Type 0
Action W A = W → Outcome A × W

-- What `if err != nil { return fmt.Errorf(message, err) }` makes of an outcome.
abbrev pub wrap_error : {A : Type 0} → String → Outcome A → Outcome A
wrap_error message (ok a) = ok a
wrap_error message (err e) = err (wrap message e)
wrap_error message (panic s) = panic s

abbrev pub describe_error : {A : Type 0} → String → Outcome A → Outcome A
describe_error message (ok a) = ok a
describe_error message (err e) = err (text message)
describe_error message (panic s) = panic s

module _ {W A : Type 0} where
  abbrev pub pure : A → Action W A
  pure a w = (ok a, w)

  abbrev pub fail : Error → Action W A
  fail e w = (err e, w)

  abbrev pub panics : String → Action W A
  panics s w = (panic s, w)

  abbrev pub wrapping : String → Action W A → Action W A
  wrapping message m w = (wrap_error message (m w).0, (m w).1)

  -- The same with `%v`, which keeps the error's text alone.
  abbrev pub describing : String → Action W A → Action W A
  describing message m w = (describe_error message (m w).0, (m w).1)

  abbrev pub or_panic : Option A → String → Action W A
  or_panic none s = panics s
  or_panic (some a) s = pure a

-- What runs after an outcome: nothing, if it is an error or a panic.
abbrev pub resume : {W A B : Type 0} → Outcome A → W → (A → Action W B) → Outcome B × W
resume (ok a) w f = f a w
resume (err e) w f = (err e, w)
resume (panic s) w f = (panic s, w)

infixl 5 ◌>>=◌ ◌>>◌
abbrev pub ◌>>=◌ : {W A B : Type 0} → Action W A → (A → Action W B) → Action W B
◌>>=◌ m f w = resume (m w).0 (m w).1 f

abbrev pub ◌>>◌ : {W B : Type 0} → Action W (Unit {0}) → Action W B → Action W B
m >> k = m >>= λ _. k

-- `m` with its error as a value, for a caller that goes on after it. A panic is no error.
abbrev pub caught_outcome : {A : Type 0} → Outcome A → Outcome (Error ⊎ A)
caught_outcome (ok a) = ok (inr a)
caught_outcome (err e) = ok (inl e)
caught_outcome (panic s) = panic s

abbrev pub caught : {W A : Type 0} → Action W A → Action W (Error ⊎ A)
caught m w = (caught_outcome (m w).0, (m w).1)

-- `if err != nil { bad }`, and what follows it.
abbrev pub unless_error : {W A B : Type 0} → Action W A → Action W B → (A → Action W B) → Action W B
unless_error m bad good = caught m >>= λ answer. elim answer [ inl e ↦ bad | inr a ↦ good a ]
