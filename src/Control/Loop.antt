-- ===== src/Control/Loop.antt =====
-- franka_deploy/control_loop.py: the life of a `ControlLoop`, without the ticks of its policy thread.
-- What the robot node, the policy server and the threads do comes in as an argument of each call.
use franka_deploy.Common.{
  ℕ, ◌+◌, Bool, true, false, Option, none, some, Numpy, Result, ok, err, if◌then◌else◌,
}
use franka_deploy.Safety.Limits.{Joint}
use franka_deploy.Safety.Smoothing
use franka_deploy.Control.Config.{LoopConfig}
use franka_deploy.Schema.Spec.{
  ActionSpaceSpec, DetectionResult, RotationRepr, quat, rot6d, axis_angle, other_rotation,
}

pub data State : Type 0 where
  idle connected detecting awaiting_confirm armed running stopped error : State

-- What a call raises: its own `RuntimeError`, the `KeyError` of an unknown rotation, or what came out
-- of the robot node or the policy server.
pub data Exception : Type 0 where
  not_confirmed unknown_rotation no_robot_state external : Exception

-- `runtime` is the client of the robot node, as its `read_only`; `thread` is the policy thread of the
-- last start, and whether it is alive. `strays` counts the living threads of earlier starts.
pub record ControlLoop : Type 0 where
  pub state : State
  pub runtime : Option Bool
  pub adapter : Option ActionSpaceSpec
  pub last_detection : Option DetectionResult
  pub stop_evt : Bool
  pub thread : Option Bool
  pub strays : ℕ

abbrev pub Call : Type 0
Call = ControlLoop × Result Exception (Unit {0})

abbrev pub new_loop : ControlLoop
new_loop = record {
  state = idle;
  runtime = none;
  adapter = none;
  last_detection = none;
  stop_evt = false;
  thread = none;
  strays = 0;
}

-- The constructor: `none` is the `ValueError` of the smoother, as nothing has checked the configuration.
unfoldable pub new : Numpy → LoopConfig → Option ControlLoop
unfolding Smoothing.make
new np cfg = elim (Smoothing.make np {D = Joint} cfg.ema_alpha) [
  | none ↦ none
  | some smoother ↦ some new_loop
]

-- A new client is read-only until the node has answered.
abbrev pub opened : Option Bool → Bool
opened none = true
opened (some read_only) = read_only

-- `answers` says whether the node accepts; it then answers with the mode that it was asked for.
unfoldable pub connect : ControlLoop → Bool → Bool → Call
connect s read_only answers =
    if answers
    then (record s { runtime = some read_only; state = connected }, ok tt)
    else (record s { runtime = some (opened s.runtime) }, err external)

-- `found` is the result of the reset, the reads, the prediction and the detection, `none` if any of
-- them raises.
unfoldable pub detect : ControlLoop → Option DetectionResult → Call
detect s none = (record s { state = connected }, err external)
detect s (some result) =
    (record s { last_detection = some result; state = awaiting_confirm }, ok tt)

abbrev pub known_rotation : Option RotationRepr → Bool
known_rotation (some (other_rotation r)) = false
known_rotation (some quat) = true
known_rotation (some rot6d) = true
known_rotation (some axis_angle) = true
known_rotation none = true

unfoldable pub confirm : ControlLoop → ActionSpaceSpec → Call
confirm s spec =
    if known_rotation spec.rotation_repr
    then (record s { adapter = some spec; state = armed }, ok tt)
    else (s, err unknown_rotation)

-- What happens around a start: whether the server accepts the reset, the node the connection and the
-- read of the state, and whether the new thread fails before `start` sets the state.
pub record Start : Type 0 where
  pub resets : Bool
  pub connects : Bool
  pub reads : Bool
  pub fails_at_once : Bool

abbrev pub is_live : Option Bool → ℕ
is_live (some true) = 1
is_live (some false) = 0
is_live none = 0

abbrev pub wants_connection : Option Bool → Bool
wants_connection none = true
wants_connection (some read_only) = read_only

-- The part of `start` after the connection.
unfoldable pub launch : ControlLoop → Start → Call
launch s env =
    if env.reads
    then (
      record s {
        stop_evt = false;
        strays = s.strays + is_live s.thread;
        thread = some (if env.fails_at_once then false else true);
        state = running;
      },
      ok tt,
    )
    else (s, err external)

abbrev pub then_launch : Call → Start → Call
then_launch (s, ok _) env = launch s env
then_launch (s, err e) env = (s, err e)

abbrev pub start_with : Option ActionSpaceSpec → ControlLoop → Start → Call
start_with none s env = (s, err not_confirmed)
start_with (some spec) s env =
    if env.resets
    then (if wants_connection s.runtime
        then then_launch (connect s false env.connects) env
        else launch s env)
    else (s, err external)

unfoldable pub start : ControlLoop → Start → Call
unfolding launch connect
start s env = start_with s.adapter s env

-- How the join with a living thread ends: it has left its loop, it has failed, or five seconds are over.
pub data Join : Type 0 where
  leaves fails times_out : Join

abbrev pub is_error : State → Bool
is_error error = true
is_error _ = false

-- A thread that fails sets the state; `stop` keeps an error.
abbrev pub joined : Option Bool → Join → ControlLoop → ControlLoop
joined (some true) leaves s = record s { thread = some false }
joined (some true) fails s = record s { thread = some false; state = error }
joined (some true) times_out s = s
joined (some false) j s = s
joined none j s = s

abbrev pub settle : ControlLoop → ControlLoop
settle s = if is_error s.state then s else record s { state = stopped }

unfoldable pub stop : ControlLoop → Join → ControlLoop
stop s j = settle (joined s.thread j (record s { stop_evt = true }))

-- `halts` says whether the node's `stop` returns.
abbrev pub halt : Option Bool → Bool → Result Exception (Unit {0})
halt none halts = ok tt
halt (some read_only) halts = if halts then ok tt else err external

unfoldable pub estop : ControlLoop → Join → Bool → Call
unfolding stop
estop s j halts = let s' = stop s j in (s', halt s'.runtime halts)

-- The policy thread of the last start ends by itself: it sees `stop_evt`, or it fails and sets the
-- state to `error`.
unfoldable pub thread_leaves : ControlLoop → ControlLoop
thread_leaves s = elim s.thread [
  | some alive ↦ if s.stop_evt then record s { thread = some false } else s
  | none ↦ s
]

unfoldable pub thread_fails : ControlLoop → ControlLoop
thread_fails s = elim s.thread [
  | some alive ↦ if alive then record s { thread = some false; state = error } else s
  | none ↦ s
]
