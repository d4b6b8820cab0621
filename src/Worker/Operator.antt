-- ===== src/Worker/Operator.antt =====
-- pkg/worker/operator.go and cmd/worker/main.go, from the start of the goroutines on: the process of
-- one worker as steps. controllerruntime.SetupSignalHandler, which is from outside, cancels the
-- context at the first signal and ends the process at the second one.
pub mod Stopping
use ccb_operator.Base.{Bool, true, false, ◌≡◌}
use ccb_operator.Go.{Outcome, ok, err, panic, caught}
use ccb_operator.Cluster.{Cluster}
use ccb_operator.Worker.{Identity}
use ccb_operator.Worker.Pools.{remove_worker_from_pool}

-- Where main is: in Run of the operator, in its own loop behind it, or nowhere any more.
pub data Position : Type 0 where
  in_run in_loop exited : Position

-- `stopped` tells whether stopCh is closed, and `cancelled` whether the context is. `manager_ended`
-- tells whether the manager's Start has returned.
pub record Process (W : Type 0) : Type 0 where
  pub main : Position
  pub stopped : Bool
  pub cancelled : Bool
  pub manager_ended : Bool
  pub world : W

-- The process when Run has started its goroutines.
abbrev pub started : {W : Type 0} → W → Process W
started w = record {
  main = in_run;
  stopped = false;
  cancelled = false;
  manager_ended = false;
  world = w;
}

-- What is left of Run when it has received from stopCh. An error is logged.
unfoldable pub deregister : (C : Cluster) → Identity → Process C.World → Process C.World
unfolding remove_worker_from_pool
deregister C me p = record p {
  main = in_loop;
  world = (caught (remove_worker_from_pool C me) p.world).1;
}

module _ (C : Cluster) (me : Identity) (Other : C.World → C.World → Type 0) where
  pub data ProcessStep : Process C.World → Process C.World → Type 0 where
    first_signal :
        {p : Process C.World} → p.cancelled ≡ false → ProcessStep p (record p { cancelled = true })
    second_signal :
        {p : Process C.World} → p.cancelled ≡ true → ProcessStep p (record p { main = exited })
    -- Start returns when the context is cancelled, and then its goroutine waits for stopCh. Its
    -- error ends the process.
    manager_returns :
        {p : Process C.World}
        → p.cancelled ≡ true
        → ProcessStep p (record p { manager_ended = true })
    manager_fails : {p : Process C.World} → ProcessStep p (record p { main = exited })
    -- Run receives from stopCh, which is possible when it is closed.
    run_returns :
        {p : Process C.World}
        → p.main ≡ in_run
        → p.stopped ≡ true
        → ProcessStep p (deregister C me p)
    -- main's own loop receives a signal, closes stopCh and exits.
    loop_stops :
        {p : Process C.World}
        → p.main ≡ in_loop
        → ProcessStep p (record p { main = exited; stopped = true })
    -- The other goroutines and processes.
    other_step :
        {p : Process C.World} {w : C.World}
        → Other p.world w
        → ProcessStep p (record p { world = w })

  pub data Becomes : Process C.World → Process C.World → Type 0 where
    here : {p : Process C.World} → Becomes p p
    next : {p q r : Process C.World} → Becomes p q → ProcessStep q r → Becomes p r
