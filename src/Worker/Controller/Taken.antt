-- ===== src/Worker/Controller/Taken.antt =====
-- A worker that takes a calculation, over a cluster whose calls succeed.
use ccb_operator.Base.{◌≡◌, refl, ap, subst, sym, true, inl, inr, ◌==◌, ◌&&◌, String, arith}
use ccb_operator.Go.{Action}
use ccb_operator.Go.Success.{Succeeds}
use ccb_operator.Go.Rules.{
  Runs->>=, Runs_given, Runs-map, Runs-pure, Runs-wrapping, Runs-caught_either,
}
use ccb_operator.Api.{Kind}
use ccb_operator.Api.Meta.{Time}
use ccb_operator.Api.Calculations.{CalculationPhase, Calculation, is_created}
use ccb_operator.Api.Workers.{WorkerState}
use ccb_operator.Cluster.{Cluster}
use ccb_operator.Cluster.Laws.{Contract}
use ccb_operator.Cluster.Ready.{Ready, get-Succeeds, now-Succeeds}
use ccb_operator.Worker.{Identity}
use ccb_operator.Worker.Controller.{in_process, start_processing, reconcile}
use ccb_operator.Worker.Controller.Received.{Holds, key, modify-Holds, mark_worker-Succeeds}

module _ (C : Cluster) (L : Contract C) (ready : Ready C L) (me : Identity) (name : String) where
  abbrev Has : Calculation → C.World → Type 0
  Has calc w = Holds C L ready me name calc (L.view w)

  start_processing-Succeeds :
      (calc : Calculation)
      → Succeeds
          (Has calc)
          (start_processing C me (key C L ready me name))
          (λ _ w. (now : Time) × Has (in_process now calc) w)
  unfolding start_processing in_process
  start_processing-Succeeds calc =
      Runs-map (λ _ w (calc', (now, e), holds). (now, subst (λ c. Has c w) e holds))
        (modify-Holds C L ready me name _ _ _ calc
          (λ calc'. (now : Time) × (calc' ≡ in_process now calc))
          (λ calc' (now, e). ap (λ c. c.meta) e)
          λ v.
            Runs->>= _ _ (now-Succeeds C L ready v)
              λ now. Runs-pure _ λ w same. ((now, refl), same))

  get-Has :
      (calc : Calculation)
      → Succeeds
          (Has calc)
          (C.get Kind.calculations (key C L ready me name))
          (λ x w. (x ≡ calc) × Has calc w)
  get-Has calc = record {
    run = λ w holds.
        (Runs-map (λ x u (e, same). (e, subst (Holds C L ready me name calc) (sym same) holds))
            (get-Succeeds C L ready (L.view w) Kind.calculations _ calc holds.0)).run
          w refl;
  }

  -- A created calculation that is assigned to the worker is sent to its executor, and is stored
  -- as processing then.
  pub reconcile-Takes :
      (send : Calculation → Action C.World (Unit {0})) (calc : Calculation)
      → Succeeds (Has calc) (send calc) (λ _. Has calc)
      → calc.assign ≡ me.hostname
      → calc.phase ≡ CalculationPhase.created
      → Succeeds
          (Has calc)
          (reconcile C me send (key C L ready me name))
          (λ _ w. (now : Time) × Has (in_process now calc) w)
  unfolding reconcile
  reconcile-Takes send calc sends mine created =
      Runs->>= _ _ (Runs-caught_either (get-Has calc)) (elim [
        | inl e ↦ record { run = λ w n. absurd n }
        | inr x ↦
            Runs_given (x ≡ calc) (λ w p. p)
              λ same. rw same (
                rw chosen (
                  Runs->>= _ _
                    (Runs-wrapping _
                      (mark_worker-Succeeds C L ready me name WorkerState.processing calc))
                    λ _. Runs->>= _ _ sends λ _. start_processing-Succeeds calc))
      ])
    where
      chosen : calc.assign == me.hostname && is_created calc.phase ≡ true
      chosen = ground arith
