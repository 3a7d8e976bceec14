-- ===== src/Control/Run/Reports.antt =====
-- What the telemetry says of a run.
use franka_deploy.Common.{
  Bool, nought, ◌≡◌, ◌⊎◌, true, false, Option, none, some, List, [], map, Float, Vec, Numpy,
}
use franka_deploy.Control.Config.{LoopConfig}
use franka_deploy.Safety.Limits.{Joint}
use franka_deploy.Safety.Workspace.{Axis, WorkspaceBounds}
use franka_deploy.Control.Loop.{running, error}
use franka_deploy.Control.Ticks
use franka_deploy.Control.Ticks.{
  Row, Fault, robot_error, oscillation_tripped, index_error, adapter_error, RobotState, Tick,
  Progress, ThreadState, swap, lead, execute, row_at, limited, fenced, paced, round_of,
}
use franka_deploy.Control.Run.{blank, Report, Ended, Parts, prepared, rounds}
use franka_deploy.Control.Run.Measures.{last_of, Reports}

module _ (np : Numpy) (cfg : LoopConfig) (joints : List Joint) (fk : Vec Joint → Vec Axis)
    (row_to_joint_target : Row → Vec Joint → Option (Vec Joint × Float))
    (workspace : WorkspaceBounds) where
  -- A fault: the telemetry is nothing but the fault, and the robot node was told to stop. The state is error, or
  -- running if the thread has ended before `start` sets it.
  abbrev pub Stopped : Bool → Fault → Ended → Type 0
  Stopped start_lags f e =
      (e.telemetry ≡ blank error (some f))
      × (((start_lags ≡ false) × (e.state ≡ error)) ⊎ ((start_lags ≡ true) × (e.state ≡ running)))
      × (e.node_stopped ≡ true)

  abbrev pub Left : Bool → Option Fault → ThreadState → Ended → Type 0
  Left start_lags none s e =
      (e.state ≡ running)
      × (e.node_stopped ≡ false)
      × Reports (last_of s.commanded) s.progress e.telemetry
  Left start_lags (some f) s e = Stopped start_lags f e

  abbrev pub Begun : Bool → Parts → Vec Joint → Progress → List (Tick × Report) → Ended → Type 0
  Begun start_lags parts q0 p ts e =
      let (s, fault) =
        Ticks.rounds np cfg joints fk row_to_joint_target workspace
          (prepared np cfg joints fk row_to_joint_target workspace parts q0 p)
          (map (λ (t, r). t) ts) in
      (e.commanded ≡ s.commanded) × (e.uncaught ≡ false) × Left start_lags fault s e

  -- A zero rate: the thread dies before its `try`, with the state still running, the telemetry without an error,
  -- nothing commanded, and the robot node not told to stop.
  abbrev pub Dies : Ended → Type 0
  Dies e =
      (cfg.fps ≡ nought)
      × (e.uncaught ≡ true)
      × (e.state ≡ running)
      × (e.telemetry ≡ blank running none)
      × (e.node_stopped ≡ false)
      × (e.commanded ≡ [])
