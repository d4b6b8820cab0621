-- ===== src/Worker/Controller/Kept.antt =====
-- What the worker's controller keeps of the cluster.
use ccb_operator.Base.{
  ◌≡◌, some, [], ◌∷◌, List, refl, sym, subst, inl, inr, ◌&&◌, ◌==◌, Bool, true, false, String, ◌<>◌,
  if◌then◌else◌,
}
use ccb_operator.Go.{Error, wrap, Action, pure, fail, wrapping, ◌>>=◌}
use ccb_operator.Go.Rules.{Runs, Runs-weaken, Runs-pure, Runs->>=, ended}
use ccb_operator.Api.{Kind}
use ccb_operator.Api.Meta.{Time, ObjectKey}
use ccb_operator.Api.Calculations.{Calculation, is_created}
use ccb_operator.Api.Workers.{WorkerPool, WorkerState}
use ccb_operator.Cluster.{Cluster}
use ccb_operator.Cluster.View.{View, put}
use ccb_operator.Cluster.Laws.{Contract}
use ccb_operator.Cluster.Modify.{Same, Modified, Runs-modify, Runs-now}
use ccb_operator.Cluster.Keeps.{
  Keeps, Keeps-pure, Keeps-get, Keeps->>=, Keeps-caught, Keeps-wrapping, Keeps-fail, Keeps-of_ended,
}
use ccb_operator.Util.Workers.Update.{EntryWritten, update_worker_status_in_pool-Written}
use ccb_operator.Util.Workers.{touched}
use ccb_operator.Worker.{Identity}
use ccb_operator.Worker.Messages.{Message, Result, step_result, calc_error}
use ccb_operator.Worker.Controller.{
  in_process, in_failure, mark_worker, start_processing, reconcile, update_error_calculation,
  update_calculation, receive, message, result_updater, stop, Signal,
}
use ccb_operator.Worker.Controller.Reports.{Reported, update_calculation-Reported}

-- Whatever stays true when a calculation of the cluster is taken, fails, or gets the status of a
-- step, and when a pool is written, stays true here.
module _ (C : Cluster) (L : Contract C) (P : View → Type 0)
    (takes : (v : View) (key : ObjectKey) (c : Calculation) (now : Time)
      → v Kind.calculations key ≡ some c
      → P v
      → P (put v Kind.calculations (in_process now c)))
    (fails : (v : View) (key : ObjectKey) (c : Calculation) (now : Time)
      → v Kind.calculations key ≡ some c
      → P v
      → P (put v Kind.calculations (in_failure now c)))
    (reports : (v : View) (key : ObjectKey) (r : Result) (c c' : Calculation)
      → v Kind.calculations key ≡ some c
      → Reported r c c'
      → P v
      → P (put v Kind.calculations c'))
    (pools : (v : View) (pool : WorkerPool) → P v → P (put v Kind.pools pool)) where
  Kept-of_Runs :
      {A : Type 0} (m : Action C.World A) (Q : View → View → Type 0)
      → ((v : View) → Runs (Same C L v) m (λ _ w. Q v (L.view w)) (Same C L v))
      → ((v u : View) → Q v u → P v → P u)
      → Keeps C L P m
  Kept-of_Runs m Q runs step = Keeps-of_ended C L P m λ w p.
      ended
        (Runs-weaken (λ _ u q. step (L.view w) (L.view u) q p) (λ u same. subst P (sym same) p)
          (runs (L.view w)))
        w refl

  calculation-Kept :
      (R : Calculation → Calculation → Type 0) (key : ObjectKey)
      → ((v : View) (c c' : Calculation)
          → v Kind.calculations key ≡ some c
          → R c c'
          → P v
          → P (put v Kind.calculations c'))
      → (v u : View) → Modified C L Kind.calculations R key v u
      → P v
      → P u
  calculation-Kept R key step v u (c, c', found, r, after) p =
      subst P (sym after) (step v c c' found r p)

  pool-Kept :
      (R : WorkerPool → WorkerPool → Type 0) (key : ObjectKey) (v u : View)
      → Modified C L Kind.pools R key v u
      → P v
      → P u
  pool-Kept R key v u (c, c', found, r, after) p = subst P (sym after) (pools v c' p)

  pub mark_worker-Kept :
      (me : Identity) (state : WorkerState) → Keeps C L P (mark_worker C me state)
  unfolding mark_worker
  mark_worker-Kept me state =
      Kept-of_Runs _ _
        (λ v.
          update_worker_status_in_pool-Written C L me.worker_pool me.nodename me.namespace state v)
        (λ v u.
          pool-Kept (EntryWritten me.nodename (touched state))
            (record { namespace = me.namespace; name = me.worker_pool }) v u)

  start_processing-Kept :
      (me : Identity) (req : ObjectKey) → Keeps C L P (start_processing C me req)
  unfolding start_processing in_process
  start_processing-Kept me req =
      Kept-of_Runs _ _
        (λ v.
          Runs-modify C L Kind.calculations req _ _ _
            (λ c c'. (now : Time) × (c' ≡ in_process now c))
            (λ u c. Runs->>= _ _ (Runs-now C L u) λ now. Runs-pure _ λ w same. ((now, refl), same))
            v)
        (calculation-Kept _ req λ v c c' found (now, made) p.
          subst (λ x. P (put v Kind.calculations x)) (sym made) (takes v req c now found p))

  update_error_calculation-Kept :
      (me : Identity) (name : String) → Keeps C L P (update_error_calculation C me name)
  unfolding update_error_calculation in_failure
  update_error_calculation-Kept me name =
      Kept-of_Runs _ _
        (λ v.
          Runs-modify C L Kind.calculations _ _ _ _ (λ c c'. (now : Time) × (c' ≡ in_failure now c))
            (λ u c. Runs->>= _ _ (Runs-now C L u) λ now. Runs-pure _ λ w same. ((now, refl), same))
            v)
        (calculation-Kept _ _ λ v c c' found (now, made) p.
          subst (λ x. P (put v Kind.calculations x)) (sym made) (fails v _ c now found p))

  update_calculation-Kept : (me : Identity) (r : Result) → Keeps C L P (update_calculation C me r)
  update_calculation-Kept me r =
      Kept-of_Runs _ _ (λ v. update_calculation-Reported C L me r v)
        (calculation-Kept (Reported r) _
          λ v c c' found reported p. reports v _ r c c' found reported p)

  pub receive-Kept : (me : Identity) (m : Message) → Keeps C L P (receive C me m)
  unfolding receive
  receive-Kept me (step_result r) =
      Keeps->>= C L P _ _ (Keeps-caught C L P (update_calculation-Kept me r))
        λ _. Keeps-pure C L P _
  receive-Kept me (calc_error name) =
      Keeps->>= C L P _ _ (Keeps-caught C L P (update_error_calculation-Kept me name)) λ _.
        Keeps->>= C L P _ _ (Keeps-caught C L P (mark_worker-Kept me WorkerState.available))
          λ _. Keeps-pure C L P _

  pub reconcile-Kept :
      (me : Identity) (send : Calculation → Action C.World (Unit {0})) (req : ObjectKey)
      → ((calc : Calculation) → Keeps C L P (send calc))
      → Keeps C L P (reconcile C me send req)
  unfolding reconcile
  reconcile-Kept me send req sends =
      Keeps->>= C L P _ _ (Keeps-caught C L P (Keeps-get C L P Kind.calculations req)) (elim [
        | inl e ↦ missing e (C.is_not_found e)
        | inr calc ↦ taken calc (calc.assign == me.hostname && is_created calc.phase)
      ])
    where
      missing :
          (e : Error) (b : Bool)
          → Keeps C L P (
              if b
              then pure tt
              else fail (
                  wrap
                    ("failed to get calculation: " <> req.name <> " in namespace " <> req.namespace)
                    e))
      missing e true = Keeps-pure C L P _
      missing e false = Keeps-fail C L P _

      taken :
          (calc : Calculation) (b : Bool)
          → Keeps C L P (
              if b
              then (wrapping "failed to update worker's state in worker pool"
                    (mark_worker C me WorkerState.processing)
                  >>= λ _. send calc >>= λ _. start_processing C me req)
              else pure tt)
      taken calc true =
          Keeps->>= C L P _ _ (Keeps-wrapping C L P _ (mark_worker-Kept me WorkerState.processing))
            λ _. Keeps->>= C L P _ _ (sends calc) λ _. start_processing-Kept me req
      taken calc false = Keeps-pure C L P _

  pub result_updater-Kept :
      (me : Identity) (signals : List Signal) → Keeps C L P (result_updater C me signals)
  unfolding result_updater
  result_updater-Kept me [] = Keeps-pure C L P _
  result_updater-Kept me (stop ∷ signals) = Keeps-pure C L P _
  result_updater-Kept me (message m ∷ signals) =
      Keeps->>= C L P _ _ (receive-Kept me m) λ _. result_updater-Kept me signals
