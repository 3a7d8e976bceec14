-- ===== src/Control/Run.antt =====
-- `_run` of franka_deploy/control_loop.py as a whole, from the resets of `start` to its end, with the telemetry, and
-- what franka_deploy/api/routes_status.py sends of it. What a fault says is the fault itself here.
pub mod Reports
pub mod Measures
use franka_deploy.Common.{
  ℕ, Bool, true, false, ◌&&◌, if◌then◌else◌, leb_ℤ, Option, none, some, List, [], ◌∷◌, Float, Vec,
  nought, Numpy, Result, ok, err, ◌>>=◌, ◌>>◌, guard, or_raise,
}
use franka_deploy.Control.Config.{LoopConfig}
use franka_deploy.Safety.Limits.{Joint}
use franka_deploy.Safety.Smoothing
use franka_deploy.Safety.Smoothing.{EmaSmoother}
use franka_deploy.Safety.Watchdog
use franka_deploy.Safety.Watchdog.{OscillationWatchdog}
use franka_deploy.Safety.Workspace.{Axis, WorkspaceBounds}
use franka_deploy.Robot.Gripper.{GripperRuntime}
use franka_deploy.Control.Loop.{State, idle, running, error}
use franka_deploy.Control.Ticks.{
  Row, Fault, robot_error, server_error, RobotState, Tick, Progress, Commanded, ThreadState, begun,
  round_of,
}

pub record Telemetry : Type 0 where
  pub state : State
  pub q : Option (Vec Joint)
  pub dq : Option (Vec Joint)
  pub ee_pos : Option (Vec Axis)
  pub control_command_success_rate : Float
  pub last_predict_ms : Float
  pub n_replans : ℕ
  pub n_late : ℕ
  pub error : Option Fault

-- `Telemetry(state=..., error=...)`, with the defaults.
unfoldable pub blank : State → Option Fault → Telemetry
blank state fault = record {
  state = state;
  q = none;
  dq = none;
  ee_pos = none;
  control_command_success_rate = nought;
  last_predict_ms = nought;
  n_replans = 0;
  n_late = 0;
  error = fault;
}

-- The rest of what a tick reads: the success rate of the state, and the time of the last prediction.
pub record Report : Type 0 where
  pub success_rate : Float
  pub predict_ms : Float

-- The telemetry of a tick, from the state that was read in it.
unfoldable pub reported : RobotState → Progress → Report → Telemetry
reported st p r = record {
  state = running;
  q = some st.q;
  dq = some st.dq;
  ee_pos = some st.ee_pos;
  control_command_success_rate = r.success_rate;
  last_predict_ms = r.predict_ms;
  n_replans = p.n_replans;
  n_late = p.n_late;
  error = none;
}

-- What the thread leaves: the telemetry, the state of the loop, whether it has called `stop` of the robot node, and
-- whether it died of an exception that nothing catches.
pub record Ended : Type 0 where
  pub telemetry : Telemetry
  pub state : State
  pub node_stopped : Bool
  pub uncaught : Bool
  pub commanded : List Commanded

-- Before the first round: whether the observation can be made, the first chunk, and the clock after it.
-- `start_lags` says whether `start` sets the state only when the thread has ended.
pub record First : Type 0 where
  pub start_lags : Bool
  pub observes : Bool
  pub predicts : Option (List Row)
  pub now : Float

unfoldable pub opening : First → Result Fault Progress
unfolding begun
opening f = do
  guard f.observes robot_error
  chunk ← or_raise f.predicts server_error
  ok (begun chunk f.now)

-- What `_run` finds: the average and the watchdog that `start` has reset, with the measurement of `start`.
pub record Parts : Type 0 where
  pub smoother : EmaSmoother Joint
  pub watchdog : OscillationWatchdog Joint
  pub gripper : Option GripperRuntime

-- A `start` that lags sets the state after the thread did.
abbrev pub state_after : Bool → State
state_after start_lags = if start_lags then running else error

-- The `except` branch, and the end of the `while`. The state was set by `start`.
unfoldable pub ended : Bool → Telemetry → List Commanded → Option Fault → Ended
unfolding blank
ended start_lags tel commanded none = record {
  telemetry = tel;
  state = running;
  node_stopped = false;
  uncaught = false;
  commanded = commanded;
}
ended start_lags tel commanded (some fault) = record {
  telemetry = blank error (some fault);
  state = state_after start_lags;
  node_stopped = true;
  uncaught = false;
  commanded = commanded;
}

-- The `ZeroDivisionError` of `1.0 / cfg.fps` comes before the `try`.
unfoldable pub died : Ended
unfolding blank
died = record {
  telemetry = blank running none;
  state = running;
  node_stopped = false;
  uncaught = true;
  commanded = [];
}

abbrev pub is_nought : Float → Bool
is_nought x = leb_ℤ x nought && leb_ℤ nought x

module _ (np : Numpy) (cfg : LoopConfig) (joints : List Joint) (fk : Vec Joint → Vec Axis)
    (row_to_joint_target : Row → Vec Joint → Option (Vec Joint × Float))
    (workspace : WorkspaceBounds) where
  unfoldable pub prepared : Parts → Vec Joint → Progress → ThreadState
  unfolding Smoothing.reset Watchdog.reset
  prepared parts q0 progress = record {
    progress = progress;
    smoother = Smoothing.reset np parts.smoother q0;
    watchdog = Watchdog.reset np joints parts.watchdog;
    gripper = parts.gripper;
    commanded = [];
  }

  -- A round that goes on has read a state.
  abbrev pub told : Option RobotState → Telemetry → Progress → Report → Telemetry
  told none tel p r = tel
  told (some st) tel p r = reported st p r

  unfoldable pub rounds :
      ThreadState → Telemetry → List (Tick × Report) → ThreadState × Telemetry × Option Fault
  unfolding round_of reported
  rounds s tel [] = (s, tel, none)
  rounds s tel ((t, r) ∷ ts) = elim (round_of np cfg joints fk row_to_joint_target workspace s t) [
    | err e ↦ (s, tel, some e)
    | ok s' ↦ rounds s' (told t.reads tel s'.progress r) ts
  ]

  -- The body of the `try`, with its `except`.
  unfoldable pub run_try : Parts → Vec Joint → First → List (Tick × Report) → Ended
  unfolding opening prepared rounds ended blank
  run_try parts q0 first ts = elim (opening first) [
    | err e ↦ ended first.start_lags (blank running none) [] (some e)
    | ok progress ↦
        let (s, tel, fault) = rounds (prepared parts q0 progress) (blank running none) ts in
        ended first.start_lags tel s.commanded fault
  ]

  unfoldable pub run : Parts → Vec Joint → First → List (Tick × Report) → Ended
  unfolding run_try died
  run parts q0 first ts = if is_nought cfg.fps then died else run_try parts q0 first ts

-- What the web socket sends; without a session only that it is idle.
pub data Payload : Type 0 where
  no_session : State → Payload
  shows : Telemetry → Payload

unfoldable pub payload : Option (State × Telemetry) → Payload
payload none = no_session idle
payload (some (state, t)) = shows (record t { state = state })
