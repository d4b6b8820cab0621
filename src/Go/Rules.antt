-- ===== src/Go/Rules.antt =====
-- Rules for what an action leaves behind, in the style of Hoare: from a world with `P`, it ends
-- with `Q` of its value and the world, or fails or panics with `E` of the world.
use ccb_operator.Base.{◌≡◌, refl, String, ◌⊎◌, inl, inr}
use ccb_operator.Go.{
  Error, Outcome, ok, err, panic, Action, wrap_error, wrapping, resume, ◌>>=◌, pure, caught,
  caught_outcome, panics, fail,
}

abbrev pub Ends : {W A : Type 0} → (A → W → Type 0) → (W → Type 0) → Outcome A → W → Type 0
Ends Q E (ok a) w = Q a w
Ends Q E (err e) w = E w
Ends Q E (panic s) w = E w

module _ {W A : Type 0} (Q : A → W → Type 0) (E : W → Type 0) where
  Ends-wrap_error :
      (message : String) (r : Outcome A) (w : W) → Ends Q E r w → Ends Q E (wrap_error message r) w
  Ends-wrap_error message (ok a) w h = h
  Ends-wrap_error message (err e) w h = h
  Ends-wrap_error message (panic s) w h = h

  Ends-map :
      (Q' : A → W → Type 0)
      → ((a : A) (w : W) → Q a w → Q' a w)
      → (r : Outcome A) (w : W) → Ends Q E r w
      → Ends Q' E r w
  Ends-map Q' f (ok a) w h = f a w h
  Ends-map Q' f (err e) w h = h
  Ends-map Q' f (panic s) w h = h

Ends-weaken :
    {W A : Type 0} (Q Q' : A → W → Type 0) (E E' : W → Type 0)
    → ((a : A) (w : W) → Q a w → Q' a w)
    → ((w : W) → E w → E' w)
    → (r : Outcome A) (w : W) → Ends Q E r w
    → Ends Q' E' r w
Ends-weaken Q Q' E E' f g (ok a) w h = f a w h
Ends-weaken Q Q' E E' f g (err e) w h = g w h
Ends-weaken Q Q' E E' f g (panic s) w h = g w h

module _ {W A : Type 0} (Q : A → W → Type 0) (E : W → Type 0) where
  -- From what is known of the result.
  pub Ends_of_cases : (r : Outcome A) (w : W) → ((a : A) → r ≡ ok a → Q a w) → E w → Ends Q E r w
  Ends_of_cases (ok a) w q e = q a refl
  Ends_of_cases (err x) w q e = e
  Ends_of_cases (panic s) w q e = e

module _ {W A : Type 0} where
  pub record Runs (P : W → Type 0) (m : Action W A) (Q : A → W → Type 0) (E : W → Type 0)
      : Type 0 where
    pub run : (w : W) → P w → Ends Q E (m w).0 (m w).1

  module _ {P : W → Type 0} {m : Action W A} {Q : A → W → Type 0} {E : W → Type 0} where
    pub Runs-wrapping : (message : String) → Runs P m Q E → Runs P (wrapping message m) Q E
    Runs-wrapping message h = record {
      run = λ w p. Ends-wrap_error Q E message (m w).0 (m w).1 (h.run w p);
    }

    pub Runs_of_cases :
        ((w : W) (a : A) → P w → (m w).0 ≡ ok a → Q a (m w).1)
        → ((w : W) → P w → E (m w).1)
        → Runs P m Q E
    Runs_of_cases q e = record {
      run = λ w p. Ends_of_cases Q E (m w).0 (m w).1 (λ a. q w a p) (e w p);
    }

    -- What the precondition says of more than the world is carried past the action.
    pub Runs_given :
        (F : Type 0) {P' : W → Type 0}
        → ((w : W) → P' w → F × P w)
        → (F → Runs P m Q E)
        → Runs P' m Q E
    Runs_given F f h = record { run = λ w p. let (x, q) = f w p in (h x).run w q }

    pub Runs-from : {P' : W → Type 0} → ((w : W) → P' w → P w) → Runs P m Q E → Runs P' m Q E
    Runs-from f h = record { run = λ w p. h.run w (f w p) }

    pub Runs-weaken :
        {Q' : A → W → Type 0} {E' : W → Type 0}
        → ((a : A) (w : W) → Q a w → Q' a w)
        → ((w : W) → E w → E' w)
        → Runs P m Q E
        → Runs P m Q' E'
    Runs-weaken {Q'} {E'} f g h = record {
      run = λ w p. Ends-weaken Q Q' E E' f g (m w).0 (m w).1 (h.run w p);
    }

    pub Runs-map :
        {Q' : A → W → Type 0} → ((a : A) (w : W) → Q a w → Q' a w) → Runs P m Q E → Runs P m Q' E
    Runs-map {Q'} f h = record { run = λ w p. Ends-map Q E Q' f (m w).0 (m w).1 (h.run w p) }

  pub Runs-pure :
      {P : W → Type 0} {Q : A → W → Type 0} {E : W → Type 0} (a : A)
      → ((w : W) → P w → Q a w)
      → Runs P (pure a) Q E
  Runs-pure a h = record { run = h }

-- An action whose error does not end its caller.
Ends-caught_outcome :
    {W A : Type 0} (Q : A → W → Type 0) (E I : W → Type 0) (r : Outcome A) (w : W)
    → Ends Q E r w
    → ((a : A) → Q a w → I w)
    → (E w → I w)
    → Ends (λ _. I) I (caught_outcome r) w
Ends-caught_outcome Q E I (ok a) w h f g = f a h
Ends-caught_outcome Q E I (err e) w h f g = g h
Ends-caught_outcome Q E I (panic s) w h f g = g h

pub Runs-caught :
    {W A : Type 0} {P : W → Type 0} {m : Action W A} {I : W → Type 0}
    → Runs P m (λ _. I) I
    → Runs P (caught m) (λ _. I) I
Runs-caught {m} {I} h = record {
  run = λ w p. Ends-caught_outcome (λ _. I) I I (m w).0 (m w).1 (h.run w p) (λ _ i. i) (λ i. i);
}

-- The same, with what is known of the value that its caller gets.
abbrev pub Answered : {W A : Type 0} → (A → W → Type 0) → (W → Type 0) → Error ⊎ A → W → Type 0
Answered Q E (inl e) w = E w
Answered Q E (inr a) w = Q a w

Ends-Answered :
    {W A : Type 0} (Q : A → W → Type 0) (E : W → Type 0) (r : Outcome A) (w : W)
    → Ends Q E r w
    → Ends (Answered Q E) E (caught_outcome r) w
Ends-Answered Q E (ok a) w h = h
Ends-Answered Q E (err e) w h = h
Ends-Answered Q E (panic s) w h = h

pub Runs-caught_either :
    {W A : Type 0} {P : W → Type 0} {m : Action W A} {Q : A → W → Type 0} {E : W → Type 0}
    → Runs P m Q E
    → Runs P (caught m) (Answered Q E) E
Runs-caught_either {m} {Q} {E} h = record {
  run = λ w p. Ends-Answered Q E (m w).0 (m w).1 (h.run w p);
}

pub Runs-panics :
    {W A : Type 0} {P : W → Type 0} {Q : A → W → Type 0} (s : String) → Runs P (panics s) Q P
Runs-panics s = record { run = λ w p. p }

pub Runs-fail :
    {W A : Type 0} {P : W → Type 0} {Q : A → W → Type 0} (e : Error) → Runs P (fail e) Q P
Runs-fail e = record { run = λ w p. p }

module _ {W A B : Type 0} (Q : A → W → Type 0) (R : B → W → Type 0) (E : W → Type 0) where
  Ends-resume :
      (f : A → Action W B) (r : Outcome A) (w : W)
      → Ends Q E r w
      → ((a : A) → Runs (Q a) (f a) R E)
      → Ends R E (resume r w f).0 (resume r w f).1
  Ends-resume f (ok a) w q h = (h a).run w q
  Ends-resume f (err e) w q h = q
  Ends-resume f (panic s) w q h = q

pub Runs->>= :
    {W A B : Type 0} {P : W → Type 0} {Q : A → W → Type 0} {R : B → W → Type 0} {E : W → Type 0}
    (m : Action W A) (f : A → Action W B)
    → Runs P m Q E
    → ((a : A) → Runs (Q a) (f a) R E)
    → Runs P (m >>= f) R E
Runs->>= {Q} {R} {E} m f h k = record {
  run = λ w p. Ends-resume Q R E f (m w).0 (m w).1 (h.run w p) k;
}

-- What holds at each end holds at the end.
Ends-either : {W A : Type 0} (Q : W → Type 0) (r : Outcome A) (w : W) → Ends (λ _. Q) Q r w → Q w
Ends-either Q (ok a) w h = h
Ends-either Q (err e) w h = h
Ends-either Q (panic s) w h = h

pub ended :
    {W A : Type 0} {P Q : W → Type 0} {m : Action W A}
    → Runs P m (λ _. Q) Q
    → (w : W) → P w
    → Q (m w).1
ended {Q} {m} h w p = Ends-either Q (m w).0 (m w).1 (h.run w p)
