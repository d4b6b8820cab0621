-- ===== src/Worker/Messages.antt =====
-- What the executor sends to the result updater over its two channels (pkg/util/results.go), and
-- the world together with all that was sent, oldest first.
use ccb_operator.Base.{ℕ, String, Option, List, [], ◌∷◌, ◌++◌}
use ccb_operator.Base.Bytes.{Bytes}
use ccb_operator.Go.{Error, ok, Action}
use ccb_operator.Api.Calculations.{CalculationPhase}

pub record Result : Type 0 where
  pub calc_name : String
  pub step : ℕ
  pub status : CalculationPhase
  pub stdout_stderr : Bytes
  pub command_error : Option Error

pub data Message : Type 0 where
  step_result : Result → Message
  calc_error : String → Message

pub record Traced (W : Type 0) : Type 0 where
  pub world : W
  pub sent : List Message

module _ {W : Type 0} where
  -- `stepUpdaterChan <- result` and `calcErrorChan <- calc.Name`
  abbrev pub emit : Message → Action (Traced W) (Unit {0})
  emit m t = (ok tt, record t { sent = t.sent ++ (m ∷ []) })

  abbrev pub quietly : {A : Type 0} → Action W A → Action (Traced W) A
  quietly m t = ((m t.world).0, record t { world = (m t.world).1 })
