-- ===== src/ApiServer/Writes.antt =====
-- How often the handlers that create a bulk and that delete a calculation answer a request.
use ccb_operator.Base.{ℕ, ◌≡◌, ◌⊎◌, String, Option, none, some, List, [], ◌∷◌, ◌++◌}
use ccb_operator.Go.{Error, Outcome, ok, err, Action, caught_outcome}
use ccb_operator.Go.Rules.{Ends, Runs}
use ccb_operator.Api.{Kind, Obj}
use ccb_operator.Cluster.{Cluster}
use ccb_operator.Util.Formats.{Formats}
use ccb_operator.ApiServer.{Context, Unmarshal}
use ccb_operator.ApiServer.Answers.{Answering, Before, AnsweredOnce}

-- The action neither panics nor answers.
abbrev pub IsSilent :
    {X : Type 0} (C : Cluster) (c : Context C.World) → Answering C c → Action C.World X → Type 0
IsSilent C c A m =
    (w : C.World)
    → Ends (λ _ u. A.statuses u ≡ A.statuses w) (λ _. ⊥) (caught_outcome (m w).0) (m w).1

-- The reading of a body, and the writes to the cluster.
pub record Accepting (C : Cluster) (c : Context C.World) (A : Answering C c) : Type 0 where
  pub read_silent : IsSilent C c A c.read_body
  pub create_silent : (k : Kind) (o : Obj k) → IsSilent C c A (C.create k o)
  pub delete_silent : (k : Kind) (o : Obj k) → IsSilent C c A (C.delete k o)

-- The answers that are there when an error has been answered, if there was one.
abbrev pub refused : Option Error → List ℕ → List ℕ
refused none before = before
refused (some _) before = before ++ (400 ∷ [])

abbrev pub error_of : {X : Type 0} → Outcome X → Option Error
error_of (err e) = some e
error_of _ = none

-- What is wrong with a body that was read, or that was not.
abbrev pub body_error : Unmarshal → Outcome String → Option Error
body_error unmarshal (ok body) = (unmarshal body).0
body_error unmarshal _ = none

-- From where these answers were given, the action answers this error with 400, if there is one, then
-- gives exactly one more answer, with status 200 or 400, and succeeds.
abbrev pub OnceMore :
    (C : Cluster) (c : Context C.World)
    → Answering C c
    → List ℕ
    → (C.World → Type 0)
    → Option Error
    → Action C.World (Unit {0})
    → Type 0
OnceMore C c A before P e m =
    Runs (λ w. Before C c A before w × P w) m (λ _. AnsweredOnce C c A (refused e before)) (λ _. ⊥)

module _ (C : Cluster) (namespace : String) (c : Context C.World) (A : Answering C c)
    (accepting : Accepting C c A) (before : List ℕ) where
  abbrev Known : {X : Type 0} → Outcome X → Error ⊎ X → Type 0
  Known r answer = caught_outcome r ≡ ok answer
