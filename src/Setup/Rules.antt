-- ===== src/Setup/Rules.antt =====
-- Rules for the setting up of a command, where nothing is said of a process that has ended.
use ccb_operator.Base.{◌≡◌, refl, String, ◌⊎◌, inl, inr}
use ccb_operator.Go.{
  Error, Outcome, ok, err, panic, Action, pure, panics, fail, resume, caught_outcome, unless_error,
}
use ccb_operator.Go.Rules.{Ends, Runs, Runs_of_cases}
use ccb_operator.Setup.{or_fatal, or_exit}

-- Nothing is said of an end by an error or a panic.
abbrev pub Ensures : {W A : Type 0} → (W → Type 0) → Action W A → (A → W → Type 0) → Type 0
Ensures P m Q = Runs P m Q (λ _. Unit {0})

module _ {W A : Type 0} (Q : A → W → Type 0) where
  Ends-or_fatal :
      (message : String) (r : Outcome A) (w : W)
      → Ends Q (λ _. Unit {0}) r w
      → let x =
          resume {A = Error ⊎ A} {B = A}
            (caught_outcome r)
            w
            (elim [ inl e ↦ panics message | inr a ↦ pure a ]) in
        Ends Q (λ _. Unit {0}) x.0 x.1
  Ends-or_fatal message (ok a) w h = h
  Ends-or_fatal message (err e) w h = tt
  Ends-or_fatal message (panic s) w h = tt

module _ {W A : Type 0} {P : W → Type 0} {Q : A → W → Type 0} where
  pub Ensures-or_fatal :
      (message : String) {m : Action W A} → Ensures P m Q → Ensures P (or_fatal message m) Q
  Ensures-or_fatal message {m} h = record {
    run = λ w p. Ends-or_fatal Q message (m w).0 (m w).1 (h.run w p);
  }

module _ {W A : Type 0} where
  pub Ensures-or_exit :
      (r : Error ⊎ A) → Ensures (λ (_ : W). Unit {0}) (or_exit r) (λ a _. r ≡ inr a)
  Ensures-or_exit (inl e) = record { run = λ w p. tt }
  Ensures-or_exit (inr a) = record { run = λ w p. refl }

  -- Of an action nothing is known, and a fact that is no state still holds behind it.
  pub Ensures-any : {F : Type 0} (m : Action W A) → Ensures (λ _. F) m (λ _ _. F)
  Ensures-any m = Runs_of_cases (λ w a f _. f) (λ w f. tt)

module _ {W : Type 0} {P Q : W → Type 0} where
  -- `if err != nil { return e }`, with an error of its own.
  pub Ensures-unless_error :
      (e : Error) {m : Action W (Unit {0})}
      → Ensures P m (λ _. Q)
      → Ensures P (unless_error m (fail e) pure) (λ _. Q)
  Ensures-unless_error e {m} h = record { run = λ w p. ways (m w).0 (m w).1 (h.run w p) }
    where
      ways :
          (r : Outcome (Unit {0})) (w : W)
          → Ends (λ _. Q) (λ _. Unit {0}) r w
          → let x =
              resume {A = Error ⊎ Unit {0}} {B = Unit {0}}
                (caught_outcome r)
                w
                (elim [ inl _ ↦ fail e | inr a ↦ pure a ]) in
            Ends (λ _. Q) (λ _. Unit {0}) x.0 x.1
      ways (ok a) w h = h
      ways (err x) w h = tt
      ways (panic s) w h = tt
