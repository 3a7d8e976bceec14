-- ===== src/Robot/Examples.antt =====
-- The theorems about franka_deploy/robot/ at concrete inputs, and tests.
use franka_deploy.Robot.Node.{
  RuntimeCalls, RobotNode, Reply, get_state_request, delivers, loses_reply, new_client,
  client_connect, call, socket_state,
}
use franka_deploy.Robot.Node.Calls
use franka_deploy.Common.{
  Bool, ok, err, ◌≢◌, ◌≡◌, refl, ◌⊎◌, arith, true, false, none, some, List, [], ◌∷◌, pos, ◌≤ℤ◌,
  ◌<ℤ◌, ◌+ℤ◌, ◌-ℤ◌, Float, Vec, nought, All, decimal, decimal-IsNumpy, maximum, minimum, neg, ℕ,
  zero, suc,
}
use mathlib.Core.Option
use franka_deploy.Robot.ReferenceFilter
use franka_deploy.Robot.ReferenceFilter.{JerkLimitedReferenceFilter}
use franka_deploy.Robot.ReferenceFilter.Bounds
use franka_deploy.Robot.Gripper
use franka_deploy.Robot.Gripper.{Command, grasp, move, GripperHysteresis, GripperRuntime, Hand}
use franka_deploy.Robot.Gripper.Commands
use franka_deploy.Robot.Gripper.Failures

data Wrist : Type 0 where
  wrist : Wrist

abbrev at : ℕ → Vec Wrist
at n d = pos n

-- The default limits, but for a velocity limit of 1.003 rad/s.
abbrev filter : JerkLimitedReferenceFilter Wrist
filter = record {
  dt = pos 10;
  v_max = at 10_030;
  a_max = at 40_000;
  j_max = at 30_000_000;
  kp = pos 1_000_000;
  kd = pos 200_000;
  q_cmd = at 0;
  qd_cmd = at 0;
  acc_prev = at 0;
}

filter-IsConfigured : Bounds.IsConfigured decimal decimal-IsNumpy filter
unfolding decimal
filter-IsConfigured = record {
  dt_pos = omega arith;
  v_nonneg = λ d. omega arith;
  a_nonneg = λ d. omega arith;
  j_nonneg = λ d. omega arith;
  settled = λ d. omega arith;
}

filter-IsBounded : Bounds.IsBounded decimal decimal-IsNumpy filter
unfolding neg
filter-IsBounded = record { velocity = λ d. omega arith; acceleration = λ d. omega arith }

run-IsBounded_example : Bounds.IsBounded decimal decimal-IsNumpy (
    ReferenceFilter.run decimal
      (ReferenceFilter.reset decimal filter (at 3))
      (at 50_000 ∷ at 0 ∷ at 9 ∷ []))
run-IsBounded_example =
    Bounds.run-IsBounded decimal decimal-IsNumpy filter (at 3) (at 50_000 ∷ at 0 ∷ at 9 ∷ [])
      filter-IsConfigured

-- At full speed with the full acceleration.
abbrev rushing : JerkLimitedReferenceFilter Wrist
rushing = record filter { qd_cmd = at 10_030; acc_prev = at 40_000 }

step_jerk_example :
    ((ReferenceFilter.step decimal rushing (at 50_000)).acc_prev wrist ≡ nought)
    × (decimal.mul (pos 30_000_000) (pos 10)
        <ℤ pos 40_000 -ℤ (ReferenceFilter.step decimal rushing (at 50_000)).acc_prev wrist)
unfolding decimal
step_jerk_example =
    Bounds.step_jerk decimal decimal-IsNumpy rushing (at 50_000) wrist
      (record {
        dt_pos = omega arith;
        v_nonneg = λ d. omega arith;
        a_nonneg = λ d. omega arith;
        j_nonneg = λ d. omega arith;
        settled = λ d. omega arith;
      })
      refl (omega arith)

-- The loop comes to that state from rest, in 251 ticks towards a far target.
ticks : ℕ → JerkLimitedReferenceFilter Wrist → JerkLimitedReferenceFilter Wrist
ticks zero f = f
ticks (suc n) f = ticks n (ReferenceFilter.step decimal f (at 1_000_000))

rushing_reached :
    ((ticks 251 filter).qd_cmd wrist ≡ pos 10_030)
    × ((ticks 251 filter).acc_prev wrist ≡ pos 40_000)
unfolding ticks ReferenceFilter.step ReferenceFilter.velocity_of ReferenceFilter.acc_of decimal neg
    maximum minimum ◌+ℤ◌ ◌-ℤ◌
rushing_reached = (refl, refl)

abbrev polls : List (Float × Float)
polls = (pos 9_000, pos 0) ∷ (pos 1_000, pos 2_000) ∷ (pos 1_000, pos 6_000) ∷ []

commands_run :
    Option.map (λ g. Gripper.commands g polls) (Gripper.make (pos 6_000) (pos 2_000) (pos 5_000))
    ≡ some ((grasp, pos 0) ∷ (move, pos 6_000) ∷ [])
unfolding Gripper.make Gripper.commands Gripper.decide ◌-ℤ◌
commands_run = refl

abbrev hysteresis : GripperHysteresis
hysteresis = record {
  close_at = pos 6_000;
  open_at = pos 2_000;
  min_dwell_s = pos 5_000;
  closed = false;
  last_change_t = none;
}

commands-IsPaced_example :
    Commands.IsPaced (pos 5_000) none false (Gripper.commands hysteresis polls)
unfolding Gripper.make
commands-IsPaced_example =
    Commands.commands-IsPaced (pos 6_000) (pos 2_000) (pos 5_000) polls {g = hysteresis} refl

decide_cases_example :
    (Gripper.decide hysteresis (pos 7_000) (pos 1) ≡ (hysteresis, none))
    ⊎ ((Gripper.decide hysteresis (pos 7_000) (pos 1)
          ≡ (record hysteresis { closed = true; last_change_t = some (pos 1) }, some grasp))
        × (false ≡ false)
        × (pos 6_000 ≤ℤ pos 7_000))
decide_cases_example = Commands.decide_cases hysteresis (pos 7_000) (pos 1)

abbrev hand_open : GripperRuntime
hand_open = record { hysteresis = hysteresis; width = pos 800; target_trigger = pos 9_000 }

abbrev jammed : Hand
jammed = record { command_returns = false; read_once = none }

abbrev healthy : Hand
healthy = record { command_returns = true; read_once = some (pos 800) }

sent-grasp_raised_example :
    ((Gripper.loop_round hand_open (pos 1) jammed).0.width ≡ pos 800)
    × All
        (λ c. c ≡ none)
        (Failures.sent
          (Gripper.loop_round hand_open (pos 1) jammed).0
          ((pos 9_000, healthy) ∷ (pos 20_000, healthy) ∷ []))
unfolding Gripper.loop_round Gripper.decide
sent-grasp_raised_example =
    Failures.sent-grasp_raised hand_open (pos 1) jammed
      ((pos 9_000, healthy) ∷ (pos 20_000, healthy) ∷ []) refl refl (omega arith)

-- A runtime that only knows its mode.
abbrev toy_fr3 : RuntimeCalls Bool (Unit {0}) (Unit {0})
toy_fr3 = record {
  opens = λ read_only. some read_only;
  read_only = λ r. r;
  get_state = λ r. some tt;
  set_joint_target = λ r q. (r, true);
  stop = λ r. (r, true);
}

abbrev no_runtime : RobotNode Bool
no_runtime = record { runtime = none }

new_client_ready : new_client.awaiting ≡ false
unfolding new_client
new_client_ready = refl

client_connect_cases_example :
    let (c, n) = (client_connect toy_fr3 new_client no_runtime false delivers).0 in
    (c.awaiting ≡ false)
    × ((reply : Reply (Unit {0}))
        → (client_connect toy_fr3 new_client no_runtime false delivers).1 ≡ ok reply
        → (r : Bool) × (n.runtime ≡ some r) × (c.read_only ≡ r))
client_connect_cases_example =
    Calls.client_connect_cases toy_fr3 new_client no_runtime false delivers new_client_ready

call_ready_example :
    ((call toy_fr3 new_client no_runtime get_state_request loses_reply).0.0.awaiting ≡ false)
    × ((call toy_fr3 new_client no_runtime get_state_request loses_reply).1 ≢ err socket_state)
call_ready_example =
    Calls.call_ready toy_fr3 new_client no_runtime get_state_request loses_reply new_client_ready
