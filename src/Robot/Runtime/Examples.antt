-- ===== src/Robot/Runtime/Examples.antt =====
-- The theorems about the runtime at concrete sessions, and tests.
use franka_deploy.Common.{
  ◌≡◌, refl, arith, Bool, true, false, some, List, [], ◌∷◌, pos, Vec, nought, decimal,
  decimal-IsNumpy, ok, err,
}
use franka_deploy.Safety.Limits.{Joint}
use franka_deploy.Robot.ReferenceFilter
use franka_deploy.Robot.Runtime.{
  RobotReading, Fr3Runtime, Turn, Connecting, over, turns, motion_disabled,
}
use franka_deploy.Robot.Runtime.Calls.{opened, connect, movej, stop}
use franka_deploy.Robot.Runtime.Motion.{IsSmooth}
use franka_deploy.Robot.Runtime.Sessions
use franka_deploy.Robot.Runtime.Sessions.{Event, thread_turns, targets, stops, session, happens}
use franka_deploy.Robot.Runtime.Stops
use franka_deploy.Robot.Runtime.Moves

abbrev at_rest : RobotReading
at_rest = record {
  q = λ j. nought;
  q_d = λ j. nought;
  dq = λ j. nought;
  o_t_ee = [];
  control_command_success_rate = pos 10_000;
}

abbrev cycle : Turn
cycle = record { starts = true; reads = some at_rest; stop_seen = false; writes = true }

abbrev connecting : Connecting
connecting = record {
  opens = true;
  sets_collision_behavior = true;
  sets_joint_impedance = true;
  reads = some at_rest;
  first_turns = [];
}

abbrev default_filter : ReferenceFilter.JerkLimitedReferenceFilter Joint
default_filter =
    ReferenceFilter.make decimal (pos 10) (λ j. pos 10_000) (λ j. pos 40_000) (λ j. pos 30_000_000)
      (pos 100_000)

abbrev runtime : Bool → Fr3Runtime
runtime read_only = opened decimal read_only default_filter at_rest

abbrev ahead : Vec Joint
ahead j = pos 5_000

-- A target half a radian ahead, followed for two cycles.
abbrev followed : List Event
followed = thread_turns (cycle ∷ []) ∷ targets ahead ∷ thread_turns (cycle ∷ cycle ∷ []) ∷ []

default_limits :
    Sessions.AreLimits decimal decimal-IsNumpy
      (pos 10_000)
      (pos 40_000)
      (pos 30_000_000)
      (pos 100_000)
unfolding decimal
default_limits = record {
  period_pos = omega arith;
  v_nonneg = omega arith;
  a_nonneg = omega arith;
  j_nonneg = omega arith;
  settled = omega arith;
}

connected :
    connect decimal false (pos 10_000) (pos 40_000) (pos 30_000_000) (pos 100_000) connecting
    ≡ ok (runtime false)
unfolding connect turns decimal opened
connected = refl

session-IsSmooth_example :
    IsSmooth
      (λ j. decimal.mul (pos 10_000) (decimal.lit 1 3))
      (session decimal (runtime false) followed).written
    × (false ≡ true → (session decimal (runtime false) followed).written ≡ [])
session-IsSmooth_example =
    Sessions.session-IsSmooth decimal decimal-IsNumpy (pos 10_000) (pos 40_000) (pos 30_000_000)
      (pos 100_000) false connecting (runtime false) followed default_limits connected

session-stop_example :
    let stopped = stop decimal (runtime false) (pos 100) ((cycle ∷ []) ∷ []) (cycle ∷ cycle ∷ []) in
    (stopped.phase ≡ over)
    × ((session decimal stopped followed).phase ≡ over)
    × ((session decimal stopped followed).written ≡ stopped.written)
session-stop_example =
    Stops.session-stop decimal (runtime false) (pos 100) ((cycle ∷ []) ∷ []) cycle cycle [] followed

movej_cases_example :
    ((runtime true).read_only ≡ true
      → movej decimal (runtime true) ahead (pos 100) ((cycle ∷ []) ∷ [])
        ≡ (runtime true, err motion_disabled))
    × ((runtime true).read_only ≡ false
        → Moves.Tells ahead
            (pos 100)
            (movej decimal (runtime true) ahead (pos 100) ((cycle ∷ []) ∷ [])))
movej_cases_example = Moves.movej_cases decimal (runtime true) ahead (pos 100) ((cycle ∷ []) ∷ [])
