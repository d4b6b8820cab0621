-- ===== src/System.antt =====
-- The whole program on one cluster, as the sequence of what its parts do: the dispatcher's four
-- controllers, the workers' controllers, their operator's end and their executors, the janitor,
-- and any other client that writes what the program's users write.
pub mod Timed
pub mod Preserved
pub mod Invariant
pub mod Execution
pub mod Delivery
use ccb_operator.Base.{◌≡◌, ◌≢◌, String}
use ccb_operator.Go.{Action}
use ccb_operator.Api.{Kind, Obj}
use ccb_operator.Api.Meta.{ObjectKey}
use ccb_operator.Api.Calculations.{Calculation}
use ccb_operator.Api.Workers.{WorkerState}
use ccb_operator.Cluster.{Cluster}
use ccb_operator.Grpc.{ResultsClient}
use ccb_operator.Util.Formats.{Formats}
use ccb_operator.Dispatcher.Bulks
use ccb_operator.Dispatcher.Calculations
use ccb_operator.Dispatcher.Factory
use ccb_operator.Dispatcher.Workers
use ccb_operator.Worker.{Identity}
use ccb_operator.Worker.Messages.{Message}
use ccb_operator.Worker.Controller
use ccb_operator.Worker.Pools
use ccb_operator.Janitor.{ℤ, clean}

module _ (F : Formats) (C : Cluster) (G : ResultsClient C.World) (O : Factory.Outside C.World)
    (nfs_path : String) where
  -- One part at work, from the world before to the world after. The executor's only call of the
  -- client is the update of its worker's state.
  pub data Turn : C.World → C.World → Type 0 where
    bulk_reconciled : (req : ObjectKey) (w : C.World) → Turn w (Bulks.reconcile F C G req w).1
    calculation_reconciled :
        (req : ObjectKey) (w : C.World) → Turn w (Calculations.reconcile C req w).1
    factory_reconciled :
        (req : ObjectKey) (w : C.World) → Turn w (Factory.reconcile C O nfs_path req w).1
    pod_reconciled : (req : ObjectKey) (w : C.World) → Turn w (Workers.reconcile C req w).1
    worker_registered :
        (me : Identity) (req : ObjectKey) (w : C.World) → Turn w (Pools.reconcile C me req w).1
    worker_left : (me : Identity) (w : C.World) → Turn w (Pools.remove_worker_from_pool C me w).1
    report_received :
        (me : Identity) (m : Message) (w : C.World) → Turn w (Controller.receive C me m w).1
    state_updated :
        (me : Identity) (state : WorkerState) (w : C.World)
        → Turn w (Controller.mark_worker C me state w).1
    janitor_cleaned : (retention : ℤ) (w : C.World) → Turn w (clean C retention w).1
    -- What the API server and its users do besides: they delete objects of any kind, and create
    -- and change those that are no calculations.
    client_created :
        (k : Kind) (o : Obj k) (w : C.World) → k ≢ Kind.calculations → Turn w (C.create k o w).1
    client_updated :
        (k : Kind) (o : Obj k) (w : C.World) → k ≢ Kind.calculations → Turn w (C.update k o w).1
    client_deleted : (k : Kind) (o : Obj k) (w : C.World) → Turn w (C.delete k o w).1

  -- Any number of turns, one after the other. A worker that takes a calculation waits in the
  -- middle of its reconciliation until its executor receives it, and then others have their turns.
  pub data Reaches : C.World → C.World → Type 0 where
    here : {w : C.World} → Reaches w w
    turn : {w v u : C.World} → Turn w v → Reaches v u → Reaches w u
    calculation_taken :
        (me : Identity) (send : Calculation → Action C.World (Unit {0})) (req : ObjectKey)
        {w u : C.World}
        → ((calc : Calculation) (v : C.World) → Reaches v (send calc v).1)
        → Reaches (Controller.reconcile C me send req w).1 u
        → Reaches w u
