-- ===== src/Worker/Operator/Stopping.antt =====
-- What a signal does to a worker.
use ccb_operator.Base.{◌≡◌, refl, false, ◌⊎◌, inl, inr}
use ccb_operator.Cluster.{Cluster}
use ccb_operator.Worker.{Identity}
use ccb_operator.Worker.Operator.{
  in_run, exited, Process, started, ProcessStep, first_signal, second_signal, manager_returns,
  manager_fails, run_returns, loop_stops, other_step, Becomes, here, next,
}

-- Any number of steps of the others.
pub data Others {W : Type 0} (Other : W → W → Type 0) : W → W → Type 0 where
  none_yet : {w : W} → Others Other w w
  one_more : {w v u : W} → Others Other w v → Other v u → Others Other w u

module _ (C : Cluster) (me : Identity) (Other : C.World → C.World → Type 0) (w : C.World) where
  -- main is in Run or gone, stopCh is open, and the cluster is what the others made of it.
  pub record Stuck (p : Process C.World) : Type 0 where
    pub position : (p.main ≡ in_run) ⊎ (p.main ≡ exited)
    pub open_channel : p.stopped ≡ false
    pub untouched : Others Other w p.world

  ProcessStep-Stuck : (p q : Process C.World) → ProcessStep C me Other p q → Stuck p → Stuck q
  ProcessStep-Stuck p q (first_signal e) h = record {
    position = h.position;
    open_channel = h.open_channel;
    untouched = h.untouched;
  }
  ProcessStep-Stuck p q (second_signal e) h = record {
    position = inr refl;
    open_channel = h.open_channel;
    untouched = h.untouched;
  }
  ProcessStep-Stuck p q (manager_returns e) h = record {
    position = h.position;
    open_channel = h.open_channel;
    untouched = h.untouched;
  }
  ProcessStep-Stuck p q manager_fails h = record {
    position = inr refl;
    open_channel = h.open_channel;
    untouched = h.untouched;
  }
  ProcessStep-Stuck p q (run_returns e closed) h = absurd (cc (closed, h.open_channel))
  ProcessStep-Stuck p q (loop_stops e) h = absurd (not_in_loop h.position)
    where
      not_in_loop : (p.main ≡ in_run) ⊎ (p.main ≡ exited) → ⊥
      not_in_loop (inl f) = absurd (cc (e, f))
      not_in_loop (inr f) = absurd (cc (e, f))
  ProcessStep-Stuck p q (other_step o) h = record {
    position = h.position;
    open_channel = h.open_channel;
    untouched = one_more h.untouched o;
  }

  -- Whatever signals a worker gets and however its goroutines are scheduled, from the moment Run of
  -- its operator waits, main is in Run or has exited, stopCh, which only main's own loop behind Run
  -- closes, stays open, and the cluster is changed by the steps of others only. So the worker's own
  -- deregistration, which comes after the wait for stopCh, is never run.
  pub Becomes-Stuck : (p : Process C.World) → Becomes C me Other (started w) p → Stuck p
  Becomes-Stuck p here = record { position = inl refl; open_channel = refl; untouched = none_yet }
  Becomes-Stuck p (next {q} before step) = ProcessStep-Stuck q p step (Becomes-Stuck q before)
