-- ===== src/Cluster/Laws.antt =====
-- What the program relies on: the documented behaviour of the client, for one that no other
-- client interferes with between two calls. Any call may fail, and one that fails has changed
-- nothing. The view is a ghost: no definition of the program reads it.
use ccb_operator.Base.{◌≡◌, true, false, Bool, none, some, List, All, String}
use ccb_operator.Base.Maps.{index}
use ccb_operator.Go.{Error, Outcome, ok, err, Action}
use ccb_operator.Api.{Kind, Obj, key_of}
use ccb_operator.Api.Meta.{ObjectKey}
use ccb_operator.Cluster.{Cluster}
use ccb_operator.Cluster.View.{View, put, remove}

abbrev pub conflicts : {A : Type 0} → (Error → Bool) → Outcome A → Bool
conflicts test (err e) = test e
conflicts test _ = false

-- RetryOnConflict: `fn` is run again, after a wait, while it returns a conflict; the last error is
-- returned when the attempts are used up.
module _ {W A : Type 0} (test : Error → Bool) (wait : W → W) (fn : Action W A) where
  pub data Retried : W → Outcome A → W → Type 0 where
    settled :
        {w w' : W} {r : Outcome A} → fn w ≡ (r, w') → conflicts test r ≡ false → Retried w r w'
    gave_up : {w w' : W} {e : Error} → fn w ≡ (err e, w') → test e ≡ true → Retried w (err e) w'
    again :
        {w w' v : W} {e : Error} {r : Outcome A}
        → fn w ≡ (err e, w')
        → test e ≡ true
        → Retried (wait w') r v
        → Retried w r v

-- What a write left behind: `after` if it succeeded, and nothing changed if not.
abbrev pub Written : Outcome (Unit {0}) → View → View → View → Type 0
Written (ok _) before after v = v ≡ after
Written _ before after v = v ≡ before

pub record Contract (C : Cluster) : Type 1 where
  pub view : C.World → View
  pub view-key :
      (w : C.World) (k : Kind) (key : ObjectKey) (o : Obj k)
      → view w k key ≡ some o
      → key_of k o ≡ key
  pub view-now : (w : C.World) → view (C.now w).1 ≡ view w
  pub view-back_off : (w : C.World) → view (C.back_off w) ≡ view w
  pub view-get : (k : Kind) (key : ObjectKey) (w : C.World) → view (C.get k key w).1 ≡ view w
  pub get_stored :
      (k : Kind) (key : ObjectKey) (w : C.World) (o : Obj k)
      → (C.get k key w).0 ≡ ok o
      → view w k key ≡ some o
  pub view-list : (k : Kind) (w : C.World) → view (C.list k w).1 ≡ view w
  pub list_stored :
      (k : Kind) (w : C.World) (os : List (Obj k))
      → (C.list k w).0 ≡ ok os
      → All (λ o. view w k (key_of k o) ≡ some o) os
  pub view-list_labelled : (l v : String) (w : C.World) → view (C.list_labelled l v w).1 ≡ view w
  pub list_labelled_stored :
      (l v : String) (w : C.World) (os : List (Obj Kind.calculations))
      → (C.list_labelled l v w).0 ≡ ok os
      → All
          (λ o.
            (view w Kind.calculations (key_of Kind.calculations o) ≡ some o)
            × (index o.meta.labels l ≡ some v))
          os
  pub view-create :
      (k : Kind) (o : Obj k) (w : C.World)
      → Written (C.create k o w).0 (view w) (put (view w) k o) (view (C.create k o w).1)
  pub create_fresh :
      (k : Kind) (o : Obj k) (w : C.World)
      → (C.create k o w).0 ≡ ok tt
      → view w k (key_of k o) ≡ none
  pub view-update :
      (k : Kind) (o : Obj k) (w : C.World)
      → Written (C.update k o w).0 (view w) (put (view w) k o) (view (C.update k o w).1)
  pub view-delete :
      (k : Kind) (o : Obj k) (w : C.World)
      → Written (C.delete k o w).0 (view w) (remove (view w) k o) (view (C.delete k o w).1)
  pub retried :
      (A : Type 0) (fn : Action C.World A) (w : C.World)
      → Retried C.is_conflict C.back_off fn w
          (C.retry_on_conflict A fn w).0
          (C.retry_on_conflict A fn w).1
