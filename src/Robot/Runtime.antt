-- ===== src/Robot/Runtime.antt =====
-- franka_deploy/robot/fr3_runtime.py: the runtime of the arm and its 1 kHz thread.
-- The robot's library is not modelled: what each of its calls does comes in as an argument.
pub mod Calls
pub mod Motion
pub mod Turns
pub mod Sessions
pub mod Stops
pub mod Moves
mod Examples
use franka_deploy.Common.{
  ℕ, Bool, true, false, not, ◌&&◌, ◌||◌, Option, none, some, List, [], ◌∷◌, ◌+ℤ◌, ◌-ℤ◌, ltb_ℤ,
  Float, Vec, nought, abs, Numpy, Result, ok, err, if◌then◌else◌,
}
use franka_deploy.Safety.Limits.{Joint, max_joint}
use franka_deploy.Robot.ReferenceFilter
use franka_deploy.Robot.ReferenceFilter.{JerkLimitedReferenceFilter}

-- What the robot reports in one cycle.
pub record RobotReading : Type 0 where
  pub q : Vec Joint
  pub q_d : Vec Joint
  pub dq : Vec Joint
  pub o_t_ee : List Float
  pub control_command_success_rate : Float

-- What the background thread stops with.
pub data ControlError : Type 0 where
  stale_desired_pose : ControlError
  robot_exception : ControlError

-- What a call raises.
pub data RuntimeException : Type 0 where
  connection_failed control_failed_to_start control_loop_dead motion_disabled : RuntimeException

-- The thread before its first cycle, in its loop, and at its end.
pub data Phase : Type 0 where
  fresh tracking over : Phase

pub record JointPositions : Type 0 where
  pub position : Vec Joint
  pub motion_finished : Bool

-- `written` holds what was sent to the robot, the newest first.
pub record Fr3Runtime : Type 0 where
  pub read_only : Bool
  pub filter : JerkLimitedReferenceFilter Joint
  pub q : Vec Joint
  pub dq : Vec Joint
  pub target_q : Vec Joint
  pub ee_pose : List Float
  pub success_rate : Float
  pub control_error : Option ControlError
  pub stop_evt : Bool
  pub phase : Phase
  pub written : List JointPositions

pub record StateDict : Type 0 where
  pub q : Vec Joint
  pub dq : Vec Joint
  pub ee_pose : List Float
  pub control_command_success_rate : Float

-- The robot during one turn of the thread: whether joint control starts, what a read returns, whether
-- another call sets the stop event before the thread looks again, and whether a write succeeds.
pub record Turn : Type 0 where
  pub starts : Bool
  pub reads : Option RobotReading
  pub stop_seen : Bool
  pub writes : Bool

-- The robot during `__init__`.
pub record Connecting : Type 0 where
  pub opens : Bool
  pub sets_collision_behavior : Bool
  pub sets_joint_impedance : Bool
  pub reads : Option RobotReading
  pub first_turns : List Turn

abbrev pub is_none {ℓ} : {A : Type ℓ} → Option A → Bool
is_none none = true
is_none (some a) = false

unfoldable pub get_state : Fr3Runtime → Result RuntimeException StateDict
get_state s = elim s.control_error [
  | some e ↦ err control_loop_dead
  | none ↦ ok (record {
    q = s.q;
    dq = s.dq;
    ee_pose = s.ee_pose;
    control_command_success_rate = s.success_rate;
  })
]

unfoldable pub set_joint_target :
    Fr3Runtime → Vec Joint → Fr3Runtime × Result RuntimeException (Unit {0})
set_joint_target s q =
    if s.read_only then (s, err motion_disabled) else (record s { target_q = q }, ok tt)

abbrev pub observed : Fr3Runtime → RobotReading → Fr3Runtime
observed s m = record s {
  q = m.q;
  dq = m.dq;
  ee_pose = m.o_t_ee;
  success_rate = m.control_command_success_rate;
}

abbrev pub failed : Fr3Runtime → ControlError → Fr3Runtime
failed s e = record s { control_error = some e; phase = over }

abbrev pub read_only_reads : Fr3Runtime → Option RobotReading → Fr3Runtime
read_only_reads s none = failed s robot_exception
read_only_reads s (some m) = observed s m

unfoldable pub read_only_turn : Fr3Runtime → Turn → Fr3Runtime
read_only_turn s t =
    if s.stop_evt
    then record s { phase = over }
    else read_only_reads (record s { stop_evt = t.stop_seen }) t.reads

module _ (np : Numpy) where
  open np use {lit}

  abbrev pub close_to : Vec Joint → Vec Joint → Float → Bool
  close_to u v tol = ltb_ℤ (max_joint (λ j. abs (u j -ℤ v j))) tol

  abbrev pub is_stale : RobotReading → Bool
  is_stale m = ltb_ℤ (lit 5 2) (max_joint (λ j. abs (m.q_d j -ℤ m.q j)))

  -- The first command is the robot's own desired position.
  abbrev pub latched : Fr3Runtime → Vec Joint → Bool → Fr3Runtime
  latched s q_d writes =
      let filter = ReferenceFilter.reset np s.filter q_d in
      if writes
      then record s {
        target_q = q_d;
        filter = filter;
        phase = tracking;
        written = record { position = filter.q_cmd; motion_finished = false } ∷ s.written;
      }
      else failed (record s { target_q = q_d; filter = filter }) robot_exception

  abbrev pub start_reads : Fr3Runtime → Option RobotReading → Bool → Fr3Runtime
  start_reads s none writes = failed s robot_exception
  start_reads s (some m) writes =
      let s' = record s { q = m.q } in
      if is_stale m then failed s' stale_desired_pose else latched s' m.q_d writes

  unfoldable pub start_control : Fr3Runtime → Turn → Fr3Runtime
  start_control s t = if t.starts then start_reads s t.reads t.writes else failed s robot_exception

  -- The command of a cycle: the filter's step towards the target that was set before the read.
  abbrev pub commanded : Fr3Runtime → Turn → Fr3Runtime
  commanded s t =
      let filter = ReferenceFilter.step np s.filter s.target_q in
      let s' = record s { filter = filter; stop_evt = t.stop_seen } in
      if t.writes
      then record s' {
        written = record { position = filter.q_cmd; motion_finished = t.stop_seen } ∷ s.written;
      }
      else failed s' robot_exception

  abbrev pub control_reads : Fr3Runtime → Turn → Option RobotReading → Fr3Runtime
  control_reads s t none = failed s robot_exception
  control_reads s t (some m) = commanded (observed s m) t

  unfoldable pub control_turn : Fr3Runtime → Turn → Fr3Runtime
  control_turn s t = if s.stop_evt then record s { phase = over } else control_reads s t t.reads

  abbrev pub turn_in : Phase → Bool → Fr3Runtime → Turn → Fr3Runtime
  turn_in over read_only s t = s
  turn_in fresh true s t = read_only_turn s t
  turn_in fresh false s t = start_control s t
  turn_in tracking true s t = read_only_turn s t
  turn_in tracking false s t = control_turn s t

  -- One turn of the background thread.
  unfoldable pub turn : Fr3Runtime → Turn → Fr3Runtime
  unfolding read_only_turn start_control control_turn
  turn s t = turn_in s.phase s.read_only s t

  unfoldable pub turns : Fr3Runtime → List Turn → Fr3Runtime
  turns s [] = s
  turns s (t ∷ ts) = turns (turn s t) ts
