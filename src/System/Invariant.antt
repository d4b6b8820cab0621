-- ===== src/System/Invariant.antt =====
-- What holds of every calculation that is stored, whatever the parts of the program do.
use ccb_operator.Base.{◌≡◌, String}
use ccb_operator.Base.Maps.{Entries}
use ccb_operator.Api.Calculations.{Calculation}
use ccb_operator.Cluster.{Cluster}
use ccb_operator.Cluster.View.{put, remove}
use ccb_operator.Cluster.Laws.{Contract}
use ccb_operator.Cluster.Keeps.{Keeps-create, Keeps-update, Keeps-delete, kept}
use ccb_operator.Grpc.{ResultsClient}
use ccb_operator.Util.Formats.{Formats}
use ccb_operator.Dispatcher.Bulks.Reconciled.{reconcile-OnlyAdds}
use ccb_operator.Dispatcher.Calculations.Settled.{reconcile-Finished}
use ccb_operator.Dispatcher.Factory.{Outside}
use ccb_operator.Dispatcher.Factory.Made.{reconcile-Made}
use ccb_operator.Dispatcher.Workers.Freed.{reconcile-OnlyFrees}
use ccb_operator.Janitor.Removals.{clean-OnlyRemoves}
use ccb_operator.System.{
  Turn, bulk_reconciled, calculation_reconciled, factory_reconciled, pod_reconciled,
  worker_registered, worker_left, report_received, state_updated, janitor_cleaned, client_created,
  client_updated, client_deleted, Reaches, here, turn, calculation_taken,
}
use ccb_operator.System.Timed.{
  AllWellTimed, NoneNew-AllWellTimed, put_other-NoneNew, remove-NoneNew, OnlyFrees-NoneNew,
  OnlyRemoves-NoneNew, OnlyAdds-AllWellTimed, Settles-AllWellTimed, Made-NoneNew,
}
use ccb_operator.System.Preserved.{
  Preserves-of_change, mark_worker-Preserves, receive-Preserves, reconcile-Preserves,
  register-Preserves, leave-Preserves,
}

module _ (F : Formats) (C : Cluster) (G : ResultsClient C.World) (O : Outside C.World)
    (nfs_path : String) (L : Contract C)
    (separate : (q : Entries String) (w : C.World) → L.view (G.get_data q w).1 ≡ L.view w)
    (read_apart : (path : String) (w : C.World) → L.view (O.read_file path w).1 ≡ L.view w)
    (send_apart : (calc : Calculation) (w : C.World) → L.view (O.send calc w).1 ≡ L.view w) where
  Turn-AllWellTimed :
      (w u : C.World)
      → Turn F C G O nfs_path w u
      → AllWellTimed (L.view w)
      → AllWellTimed (L.view u)
  Turn-AllWellTimed w u (bulk_reconciled req _) p =
      OnlyAdds-AllWellTimed _ _ (reconcile-OnlyAdds F C G L separate req w) p
  Turn-AllWellTimed w u (calculation_reconciled req _) p =
      Settles-AllWellTimed req _ _ (reconcile-Finished C L req w) p
  Turn-AllWellTimed w u (factory_reconciled req _) p =
      NoneNew-AllWellTimed (L.view w) (L.view u)
        (Made-NoneNew req (L.view w) (L.view u)
          (reconcile-Made C L O nfs_path read_apart send_apart req w))
        p
  Turn-AllWellTimed w u (pod_reconciled req _) p =
      NoneNew-AllWellTimed (L.view w) (L.view u)
        (OnlyFrees-NoneNew req.name (L.view w) (L.view u) (reconcile-OnlyFrees C L req w)) p
  Turn-AllWellTimed w u (worker_registered me req _) p =
      kept C L AllWellTimed (register-Preserves C L me req) w p
  Turn-AllWellTimed w u (worker_left me _) p = kept C L AllWellTimed (leave-Preserves C L me) w p
  Turn-AllWellTimed w u (report_received me m _) p =
      kept C L AllWellTimed (receive-Preserves C L me m) w p
  Turn-AllWellTimed w u (state_updated me state _) p =
      kept C L AllWellTimed (mark_worker-Preserves C L me state) w p
  Turn-AllWellTimed w u (janitor_cleaned retention _) p =
      NoneNew-AllWellTimed (L.view w) (L.view u)
        (OnlyRemoves-NoneNew (L.view w) (L.view u) (clean-OnlyRemoves C L retention w)) p
  Turn-AllWellTimed w u (client_created k o _ n) p =
      kept C L AllWellTimed
        (Keeps-create C L AllWellTimed k o
          (λ v q _. NoneNew-AllWellTimed v (put v k o) (put_other-NoneNew v k o n) q))
        w p
  Turn-AllWellTimed w u (client_updated k o _ n) p =
      kept C L AllWellTimed
        (Keeps-update C L AllWellTimed k o
          (λ v. NoneNew-AllWellTimed v (put v k o) (put_other-NoneNew v k o n)))
        w p
  Turn-AllWellTimed w u (client_deleted k o _) p =
      kept C L AllWellTimed
        (Keeps-delete C L AllWellTimed k o
          (λ v. NoneNew-AllWellTimed v (remove v k o) (remove-NoneNew v k o)))
        w p

  -- With the results service, the factory's files and its channel apart from the cluster: if every
  -- stored calculation is created, or processing with a pending time, or completed or failed with
  -- a completion time, then this is so after any number of turns of the dispatcher, the workers,
  -- the janitor and other clients, in any order, those between which a worker waits included.
  pub Reaches-AllWellTimed :
      (w u : C.World)
      → Reaches F C G O nfs_path w u
      → AllWellTimed (L.view w)
      → AllWellTimed (L.view u)
  Reaches-AllWellTimed w u here p = p
  Reaches-AllWellTimed w u (turn {v} t rest) p =
      Reaches-AllWellTimed v u rest (Turn-AllWellTimed w v t p)
  Reaches-AllWellTimed w u (calculation_taken me send req waits rest) p =
      Reaches-AllWellTimed _ u rest (
        kept C L AllWellTimed
          (reconcile-Preserves C L me send req λ calc.
            Preserves-of_change C L (send calc) λ v q. Reaches-AllWellTimed v _ (waits calc v) q)
          w p)
