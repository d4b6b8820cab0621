-- ===== src/Go/Answers.antt =====
-- Rules for code that goes on after an error, and so ends without one.
use ccb_operator.Base.{inl, inr}
use ccb_operator.Go.{
  Outcome, ok, err, panic, Action, caught, caught_outcome, resume, unless_error, ◌>>=◌,
}

-- What holds of a value and the world behind it. An error does not occur, and a panic, which ends
-- the process, says nothing.
abbrev pub Answer : {W A : Type 0} → (A → W → Type 0) → Outcome A → W → Type 0
Answer Q (ok a) w = Q a w
Answer Q (err e) w = ⊥
Answer Q (panic s) w = Unit {0}

pub record Answers {W A : Type 0} (m : Action W A) (Q : A → W → Type 0) : Type 0 where
  pub answer : (w : W) → Answer Q (m w).0 (m w).1

-- An action that returns no error.
abbrev pub NoError : {W A : Type 0} → Action W A → Type 0
NoError m = Answers m (λ _ _. Unit {0})

module _ {W A B : Type 0} (Q : B → W → Type 0) where
  Answer-resume :
      (R : A → W → Type 0) (r : Outcome A) (w : W) (f : A → Action W B)
      → Answer R r w
      → ((a : A) (u : W) → R a u → Answer Q (f a u).0 (f a u).1)
      → let x = resume r w f in Answer Q x.0 x.1
  Answer-resume R (ok a) w f h k = k a w h
  Answer-resume R (err e) w f h k = h
  Answer-resume R (panic s) w f h k = h

module _ {W A B : Type 0} {Q : B → W → Type 0} where
  -- After an action of whose value and world something is known.
  pub Answers_after :
      {R : A → W → Type 0} (m : Action W A) (f : A → Action W B)
      → Answers m R
      → ((a : A) (u : W) → R a u → Answer Q (f a u).0 (f a u).1)
      → Answers (m >>= f) Q
  Answers_after {R} m f h k = record {
    answer = λ w. Answer-resume Q R (m w).0 (m w).1 f (h.answer w) k;
  }

  pub Answers->>= :
      (m : Action W A) (f : A → Action W B)
      → NoError m
      → ((a : A) → Answers (f a) Q)
      → Answers (m >>= f) Q
  Answers->>= m f h k = Answers_after m f h (λ a u _. (k a).answer u)

NoError-caught_outcome :
    {W A : Type 0} (r : Outcome A) (w : W) → Answer (λ _ _. Unit {0}) (caught_outcome r) w
NoError-caught_outcome (ok a) w = tt
NoError-caught_outcome (err e) w = tt
NoError-caught_outcome (panic s) w = tt

pub NoError-caught : {W A : Type 0} (m : Action W A) → NoError (caught m)
NoError-caught m = record { answer = λ w. NoError-caught_outcome (m w).0 (m w).1 }

-- Both ways on after an action that may fail.
pub Answers-unless_error :
    {W A B : Type 0} {Q : B → W → Type 0} (m : Action W A) (bad : Action W B)
    (good : A → Action W B)
    → Answers bad Q
    → ((a : A) → Answers (good a) Q)
    → Answers (unless_error m bad good) Q
Answers-unless_error m bad good h k =
    Answers->>= (caught m) _ (NoError-caught m) (elim [ inl e ↦ h | inr a ↦ k a ])
