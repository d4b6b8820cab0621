-- ===== src/System/Preserved.antt =====
-- What the workers' own parts do to calculations whose phase and times fit together.
use ccb_operator.Base.{◌≡◌, some, refl, sym, subst}
use ccb_operator.Go.{Action}
use ccb_operator.Go.Rules.{Runs, Runs-weaken, ended}
use ccb_operator.Api.{Kind}
use ccb_operator.Api.Meta.{Time, ObjectKey}
use ccb_operator.Api.Calculations.{Calculation}
use ccb_operator.Api.Workers.{WorkerPool, WorkerState}
use ccb_operator.Cluster.{Cluster}
use ccb_operator.Cluster.View.{View, put}
use ccb_operator.Cluster.Laws.{Contract}
use ccb_operator.Cluster.Modify.{Same, Modified}
use ccb_operator.Cluster.Keeps.{Keeps, Keeps-wrapping, Keeps-of_ended}
use ccb_operator.Worker.{Identity}
use ccb_operator.Worker.Messages.{Message, Result}
use ccb_operator.Worker.Controller.{in_process, in_failure, mark_worker, reconcile, receive}
use ccb_operator.Worker.Controller.Reports.{Reported}
use ccb_operator.Worker.Pools
use ccb_operator.Worker.Pools.Membership.{
  Joined, register_worker_in_pool-Joined, remove_worker_from_pool-LeftIn,
}
use ccb_operator.System.Timed.{
  AllWellTimed, IsWellTimed, NoneNew-AllWellTimed, put-AllWellTimed, LeftIn-NoneNew,
}
use ccb_operator.Worker.Controller.Kept.{mark_worker-Kept, receive-Kept, reconcile-Kept}

module _ (C : Cluster) (L : Contract C) where
  abbrev pub Preserves : {A : Type 0} → Action C.World A → Type 0
  Preserves m = Keeps C L AllWellTimed m

  -- From what the action does to the view.
  pub Preserves-of_change :
      {A : Type 0} (m : Action C.World A)
      → ((w : C.World) → AllWellTimed (L.view w) → AllWellTimed (L.view (m w).1))
      → Preserves m
  Preserves-of_change m h = Keeps-of_ended C L AllWellTimed m h

  Preserves-of_Runs :
      {A : Type 0} (m : Action C.World A) (Q : View → View → Type 0)
      → ((v : View) → Runs (Same C L v) m (λ _ w. Q v (L.view w)) (Same C L v))
      → ((v u : View) → Q v u → AllWellTimed v → AllWellTimed u)
      → Preserves m
  Preserves-of_Runs m Q runs step = Preserves-of_change m λ w p.
      ended
        (Runs-weaken (λ _ u q. step (L.view w) (L.view u) q p)
          (λ u same. subst AllWellTimed (sym same) p) (runs (L.view w)))
        w refl

  pool-AllWellTimed :
      (R : WorkerPool → WorkerPool → Type 0) (key : ObjectKey) (v u : View)
      → Modified C L Kind.pools R key v u
      → AllWellTimed v
      → AllWellTimed u
  pool-AllWellTimed R key v u (c, c', found, r, after) p = subst AllWellTimed (sym after) p

  take-AllWellTimed :
      (v : View) (key : ObjectKey) (c : Calculation) (now : Time)
      → v Kind.calculations key ≡ some c
      → AllWellTimed v
      → AllWellTimed (put v Kind.calculations (in_process now c))
  unfolding in_process
  take-AllWellTimed v key c now found p = put-AllWellTimed v (in_process now c) (now, refl) p

  fail-AllWellTimed :
      (v : View) (key : ObjectKey) (c : Calculation) (now : Time)
      → v Kind.calculations key ≡ some c
      → AllWellTimed v
      → AllWellTimed (put v Kind.calculations (in_failure now c))
  unfolding in_failure
  fail-AllWellTimed v key c now found p = put-AllWellTimed v (in_failure now c) (now, refl) p

  report-AllWellTimed :
      (v : View) (key : ObjectKey) (r : Result) (c c' : Calculation)
      → v Kind.calculations key ≡ some c
      → Reported r c c'
      → AllWellTimed v
      → AllWellTimed (put v Kind.calculations c')
  report-AllWellTimed v key r c c' found (step, _, _, _, _, rest) p =
      put-AllWellTimed v c' (subst IsWellTimed (sym rest) (p key c found)) p

  pub mark_worker-Preserves :
      (me : Identity) (state : WorkerState) → Preserves (mark_worker C me state)
  mark_worker-Preserves =
      mark_worker-Kept C L AllWellTimed take-AllWellTimed fail-AllWellTimed report-AllWellTimed
        (λ v pool p. p)

  pub receive-Preserves : (me : Identity) (m : Message) → Preserves (receive C me m)
  receive-Preserves =
      receive-Kept C L AllWellTimed take-AllWellTimed fail-AllWellTimed report-AllWellTimed
        (λ v pool p. p)

  pub reconcile-Preserves :
      (me : Identity) (send : Calculation → Action C.World (Unit {0})) (req : ObjectKey)
      → ((calc : Calculation) → Preserves (send calc))
      → Preserves (reconcile C me send req)
  reconcile-Preserves =
      reconcile-Kept C L AllWellTimed take-AllWellTimed fail-AllWellTimed report-AllWellTimed
        (λ v pool p. p)

  pub register-Preserves : (me : Identity) (req : ObjectKey) → Preserves (Pools.reconcile C me req)
  unfolding Pools.reconcile
  register-Preserves me req = Keeps-wrapping C L AllWellTimed _ (
      Preserves-of_Runs _ _ (λ v. register_worker_in_pool-Joined C L me v)
        (λ v u. pool-AllWellTimed (Joined me) (Pools.pool_key me) v u))

  pub leave-Preserves : (me : Identity) → Preserves (Pools.remove_worker_from_pool C me)
  leave-Preserves me =
      Preserves-of_Runs _ _ (λ v. remove_worker_from_pool-LeftIn C L me v)
        (λ v u h. NoneNew-AllWellTimed v u (LeftIn-NoneNew me.nodename (Pools.pool_key me) v u h))
