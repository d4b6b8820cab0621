-- ===== src/ApiServer/Answers.antt =====
-- How often the handlers answer a request, and with which status.
use ccb_operator.Base.{ℕ, ◌≡◌, refl, ◌∙◌, ap, ◌⊎◌, inl, inr, String, List, [], ◌∷◌, ◌++◌}
use ccb_operator.Go.{Outcome, ok, err, panic, Action, caught, caught_outcome}
use ccb_operator.Go.Rules.{Ends, Runs, Runs->>=, Runs-map}
use ccb_operator.Api.{Kind}
use ccb_operator.Api.Meta.{ObjectKey}
use ccb_operator.Cluster.{Cluster}
use ccb_operator.Util.Formats.{Formats}
use ccb_operator.ApiServer.{
  Context, Payload, answered, response_error, get_all, get_by_name, get_calculation,
}

-- The answers to a request are kept apart from the cluster, and reads do not panic.
pub record Answering (C : Cluster) (c : Context C.World) : Type 0 where
  pub statuses : C.World → List ℕ
  pub json_ok : (s : ℕ) (p : Payload) (w : C.World) → (c.json s p w).0 ≡ ok tt
  pub statuses-json :
      (s : ℕ) (p : Payload) (w : C.World) → statuses (c.json s p w).1 ≡ statuses w ++ (s ∷ [])
  pub get_calm :
      (k : Kind) (key : ObjectKey) (w : C.World)
      → Ends
          (λ _ u. statuses u ≡ statuses w)
          (λ _. ⊥)
          (caught_outcome (C.get k key w).0)
          (C.get k key w).1
  pub list_calm :
      (k : Kind) (w : C.World)
      → Ends
          (λ _ u. statuses u ≡ statuses w)
          (λ _. ⊥)
          (caught_outcome (C.list k w).0)
          (C.list k w).1

abbrev pub IsStatus : ℕ → Type 0
IsStatus s = (s ≡ 200) ⊎ (s ≡ 400)

module _ (C : Cluster) (c : Context C.World) (A : Answering C c) (before : List ℕ) where
  -- One more answer was given, with status 200 or 400.
  abbrev pub AnsweredOnce : C.World → Type 0
  AnsweredOnce w = (s : ℕ) × IsStatus s × (A.statuses w ≡ before ++ (s ∷ []))

  abbrev pub Before : C.World → Type 0
  Before w = A.statuses w ≡ before

  pub Ends-then :
      {X : Type 0} (r : Outcome X) (u : C.World) (l : List ℕ)
      → Ends (λ _ x. A.statuses x ≡ l) (λ _. ⊥) r u
      → l ≡ before
      → Ends (λ _. Before) (λ _. ⊥) r u
  Ends-then (ok a) u l h e = h ∙ e
  Ends-then (err a) u l h e = h
  Ends-then (panic a) u l h e = h

  Runs-get_calm :
      (k : Kind) (key : ObjectKey) → Runs Before (caught (C.get k key)) (λ _. Before) (λ _. ⊥)
  Runs-get_calm k key = record { run = λ w h. Ends-then _ _ _ (A.get_calm k key w) h }

  Runs-list_calm : (k : Kind) → Runs Before (caught (C.list k)) (λ _. Before) (λ _. ⊥)
  Runs-list_calm k = record { run = λ w h. Ends-then _ _ _ (A.list_calm k w) h }

  pub Runs-json :
      (s : ℕ) (p : Payload)
      → Runs Before (c.json s p) (λ _ w. A.statuses w ≡ before ++ (s ∷ [])) (λ _. ⊥)
  Runs-json s p = record {
    run = λ w h.
        answer (c.json s p w).0 (c.json s p w).1 (A.json_ok s p w)
          (A.statuses-json s p w ∙ ap (λ x. x ++ (s ∷ [])) h);
  }
    where
      answer :
          (r : Outcome (Unit {0})) (u : C.World)
          → r ≡ ok tt
          → A.statuses u ≡ before ++ (s ∷ [])
          → Ends (λ _ w. A.statuses w ≡ before ++ (s ∷ [])) (λ _. ⊥) r u
      answer (ok _) u e h = h
      answer (err _) u e h = absurd (cc e)
      answer (panic _) u e h = absurd (cc e)

  -- What answers once after the read of one object or of a list.
  pub answered_once :
      {X : Type 0} (namespace failed : String) (m : Action C.World X) (payload : X → Payload)
      → Runs Before (caught m) (λ _. Before) (λ _. ⊥)
      → Runs Before
          (answered C namespace c failed m (λ x. c.json 200 (payload x)))
          (λ _. AnsweredOnce)
          (λ _. ⊥)
  unfolding response_error
  answered_once namespace failed m payload h = Runs->>= _ _ h (elim [
    | inl e ↦ Runs-map (λ _ w sent. (400, inr refl, sent)) (Runs-json 400 _)
    | inr x ↦ Runs-map (λ _ w sent. (200, inl refl, sent)) (Runs-json 200 _)
  ])

-- From where these answers were given, the action gives exactly one more and then succeeds.
abbrev pub Once :
    (C : Cluster) (c : Context C.World)
    → Answering C c
    → List ℕ
    → Action C.World (Unit {0})
    → Type 0
Once C c A before m = Runs (λ w. A.statuses w ≡ before) m (λ _. AnsweredOnce C c A before) (λ _. ⊥)

-- If reads of the cluster do not panic and do not answer, then each handler that lists a kind,
-- reads one object of it, or searches the calculations gives exactly one answer, with status 200
-- or 400, and neither fails nor panics.
pub reads-AnsweredOnce :
    (C : Cluster) (namespace : String) (c : Context C.World) (A : Answering C c) (F : Formats)
    (k : Kind) (failed : String) (before : List ℕ)
    → Once C c A before (get_all C namespace c k failed)
      × Once C c A before (get_by_name C namespace c k failed)
      × Once C c A before (get_calculation C namespace c F)
unfolding get_all get_by_name get_calculation
reads-AnsweredOnce C namespace c A F k failed before = (
  answered_once C c A before namespace failed (C.list k) _ (Runs-list_calm C c A before k),
  answered_once C c A before namespace _ (C.get k _) _ (Runs-get_calm C c A before k _),
  answered_once C c A before namespace _ (C.list Kind.calculations) _
      (Runs-list_calm C c A before Kind.calculations),
)
