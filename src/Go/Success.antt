-- ===== src/Go/Success.antt =====
-- Rules for code that ends with a value: no error and no panic.
use ccb_operator.Base.{◌≡◌, refl, inl, inr}
use ccb_operator.Go.{Outcome, ok, err, panic, Action, caught, ◌>>=◌}
use ccb_operator.Go.Rules.{Ends, Runs, Runs-weaken, Runs->>=, Runs-caught_either}

abbrev pub Succeeds : {W A : Type 0} → (W → Type 0) → Action W A → (A → W → Type 0) → Type 0
Succeeds P m Q = Runs P m Q (λ _. ⊥)

Ends-ok :
    {W A : Type 0} (Q : A → W → Type 0) (r : Outcome A) (w : W) (a : A)
    → r ≡ ok a
    → Q a w
    → Ends Q (λ _. ⊥) r w
Ends-ok Q r w a e q = rw e q

pub Succeeds_of_ok :
    {W A : Type 0} {P : W → Type 0} {m : Action W A} {Q : A → W → Type 0}
    → ((w : W) → P w → (a : A) × ((m w).0 ≡ ok a) × Q a (m w).1)
    → Succeeds P m Q
Succeeds_of_ok {m} {Q} h = record {
  run = λ w p. let (a, e, q) = h w p in Ends-ok Q (m w).0 (m w).1 a e q;
}

value_of :
    {W A : Type 0} (Q : A → W → Type 0) (r : Outcome A) (w : W)
    → Ends Q (λ _. ⊥) r w
    → (a : A) × (r ≡ ok a) × Q a w
value_of Q (ok a) w q = (a, refl, q)
value_of Q (err e) w q = absurd q
value_of Q (panic s) w q = absurd q

pub ok_of_Succeeds :
    {W A : Type 0} {P : W → Type 0} {m : Action W A} {Q : A → W → Type 0}
    → Succeeds P m Q
    → (w : W) → P w
    → (a : A) × ((m w).0 ≡ ok a) × Q a (m w).1
ok_of_Succeeds {m} {Q} h w p = value_of Q (m w).0 (m w).1 (h.run w p)

-- Where an end with an error or a panic has to satisfy something, success does.
pub Runs_of_Succeeds :
    {W A : Type 0} {P : W → Type 0} {m : Action W A} {Q : A → W → Type 0} {E : W → Type 0}
    → Succeeds P m Q
    → Runs P m Q E
Runs_of_Succeeds h = Runs-weaken (λ _ _ q. q) (λ _ n. absurd n) h

-- `_ = m()` and what follows, where `m` succeeds.
pub Succeeds-ignored :
    {W A B : Type 0} {P Q : W → Type 0} {R : B → W → Type 0} (m : Action W A) (rest : Action W B)
    → Succeeds P m (λ _. Q)
    → Succeeds Q rest R
    → Succeeds P (caught m >>= λ _. rest) R
Succeeds-ignored m rest h k =
    Runs->>= _ _ (Runs-caught_either h)
      (elim [ inl e ↦ record { run = λ w n. absurd n } | inr _ ↦ k ])
