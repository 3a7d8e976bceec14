-- ===== src/Control/Examples.antt =====
-- The theorems about the policy thread at a concrete run of two rounds, and tests.
use franka_deploy.Common.{
  ◌≡◌, ◌≢◌, refl, arith, true, false, none, some, Option, List, [], ◌∷◌, pos, ◌+ℤ◌, ◌-ℤ◌, neg,
  Float, Vec, nought, All, length, decimal, decimal-IsNumpy, minimum, maximum, abs,
}
use franka_deploy.Control.Config.{LoopConfig}
use franka_deploy.Control.Ticks.{
  Row, RobotState, Tick, ThreadState, index_error, workspace_fault, begun, rounds, paced, round_of,
  swap, fetched, lead, horizon_of, resume_at, row_at, execute, limited,
}
use franka_deploy.Control.Ticks.Schedule
use franka_deploy.Control.Ticks.Safety
use franka_deploy.Control.Loop.{error}
use franka_deploy.Control.Loop.{running}
use franka_deploy.Control.Run.{
  First, Parts, Report, opening, prepared, run, run_try, died, blank, ended,
}
use franka_deploy.Control.Run
use franka_deploy.Control.Run.Reports
use franka_deploy.Safety.Limits
use franka_deploy.Safety.Limits.{Joint, j1, j2, j3, j4, j5, j6, j7}
use franka_deploy.Safety.Workspace.{Axis, WorkspaceBounds, bbox, enabled, check}
use franka_deploy.Safety.Watchdog
use franka_deploy.Safety.Smoothing
use franka_deploy.Robot.Gripper.{set_target}

default_Fits : Limits.Fits decimal (Limits.default_joint_limit_margin decimal)
unfolding decimal Limits.fr3_q_lower Limits.fr3_q_upper Limits.default_joint_limit_margin neg ◌+ℤ◌
    ◌-ℤ◌
default_Fits j1 = omega arith
default_Fits j2 = omega arith
default_Fits j3 = omega arith
default_Fits j4 = omega arith
default_Fits j5 = omega arith
default_Fits j6 = omega arith
default_Fits j7 = omega arith

abbrev joints : List Joint
joints = j1 ∷ j2 ∷ j3 ∷ j4 ∷ j5 ∷ j6 ∷ j7 ∷ []

abbrev config : LoopConfig
config = record {
  fps = pos 100_000;
  exec_horizon = 2;
  lead_ticks = 1;
  max_step_rad = pos 500;
  ema_alpha = pos 3_000;
  watchdog_enabled = false;
  watchdog_window = 10;
  watchdog_threshold = pos 4_000;
  watchdog_trip_count = 3;
  watchdog_deadzone = pos 200;
}

abbrev at_rest : RobotState
at_rest = record { q = λ j. nought; dq = λ j. nought; ee_pos = λ a. nought }

-- The joint that a toy arm turns moves its end effector along every axis.
abbrev toy_fk : Vec Joint → Vec Axis
toy_fk q a = q j1

abbrev toy_adapter : Row → Vec Joint → Option (Vec Joint × Float)
toy_adapter [] q = none
toy_adapter (x ∷ row) q = some (λ j. x, pos 400)

abbrev two_rows : List Row
two_rows = (pos 1_000 ∷ []) ∷ (pos 2_000 ∷ []) ∷ []

abbrev tick : Tick
tick = record {
  observed_at = nought;
  swapped_at = nought;
  fired_at = nought;
  ended_at = nought;
  observes = true;
  observes_ahead = true;
  pending_done = true;
  predicts = some two_rows;
  reads = some at_rest;
  accepts = true;
}

abbrev fence : WorkspaceBounds
fence = record { points = (λ a. neg (pos 5_000)) ∷ (λ a. pos 400) ∷ []; margin = neg (pos 500) }

abbrev small_fence : WorkspaceBounds
small_fence = record { points = (λ a. neg (pos 5_000)) ∷ (λ a. pos 400) ∷ []; margin = nought }

abbrev ready : ThreadState
ready = record {
  progress = begun two_rows nought;
  smoother = record { alpha = pos 3_000; value = none };
  watchdog = record {
    window_size = 10;
    threshold = pos 4_000;
    trip_count_threshold = 3;
    velocity_deadzone = pos 200;
    history = [];
    consecutive_trips = 0;
  };
  gripper = none;
  commanded = [];
}

three_rounds_send :
    length
      (rounds decimal config joints toy_fk toy_adapter fence ready
        (tick ∷ tick ∷ tick ∷ [])).0.commanded
    ≡ 3
unfolding decimal begun rounds round_of swap fetched lead paced horizon_of resume_at row_at execute
    limited Limits.clip_to_joint_limits Limits.fr3_q_lower Limits.fr3_q_upper
    Limits.default_joint_limit_margin Smoothing.step bbox enabled check Watchdog.update
    Watchdog.push set_target abs maximum minimum neg ◌+ℤ◌ ◌-ℤ◌
three_rounds_send = refl

one_round_stops :
    (rounds decimal config joints toy_fk toy_adapter small_fence ready (tick ∷ [])).1
    ≡ some workspace_fault
unfolding decimal begun rounds round_of swap fetched lead paced horizon_of resume_at row_at execute
    limited Limits.clip_to_joint_limits Limits.fr3_q_lower Limits.fr3_q_upper
    Limits.default_joint_limit_margin Smoothing.step bbox enabled check Watchdog.update
    Watchdog.push set_target abs maximum minimum neg ◌+ℤ◌ ◌-ℤ◌
one_round_stops = refl

rounds-IsScheduled_example :
    let (s, fault) =
      rounds decimal config joints toy_fk toy_adapter fence ready (tick ∷ tick ∷ tick ∷ []) in
    Schedule.IsScheduled s.progress × (fault ≢ some index_error)
rounds-IsScheduled_example =
    Schedule.rounds-IsScheduled decimal config joints toy_fk toy_adapter fence ready
      (tick ∷ tick ∷ tick ∷ []) (omega arith)
      (Schedule.begun-IsScheduled two_rows nought (omega arith))
      (omega arith, (omega arith, (omega arith, tt)))

rounds-IsSafe_example :
    let (s, fault) =
      rounds decimal config joints toy_fk toy_adapter fence ready (tick ∷ tick ∷ tick ∷ []) in
    All (Safety.IsSafe decimal config joints toy_fk toy_adapter fence) s.commanded
    × (fault ≡ none → length s.commanded ≡ 3)
rounds-IsSafe_example =
    Safety.rounds-IsSafe decimal config joints toy_fk toy_adapter fence decimal-IsNumpy default_Fits
      (omega arith) ready (tick ∷ tick ∷ tick ∷ []) tt

abbrev first : First
first = record { start_lags = false; observes = true; predicts = some two_rows; now = nought }

abbrev parts : Parts
parts = record { smoother = ready.smoother; watchdog = ready.watchdog; gripper = none }

abbrev report : Report
report = record { success_rate = pos 10_000; predict_ms = pos 200_000 }

-- The second round leaves the small fence.
leaves_fence :
    (run decimal config joints toy_fk toy_adapter small_fence parts
      (λ j. nought)
      first
      ((tick, report) ∷ (tick, report) ∷ [])).telemetry
    ≡ blank error (some workspace_fault)
unfolding decimal begun Run.rounds round_of swap fetched lead paced horizon_of resume_at row_at
    execute limited Limits.clip_to_joint_limits Limits.fr3_q_lower Limits.fr3_q_upper
    Limits.default_joint_limit_margin Smoothing.step Smoothing.reset bbox enabled check
    Watchdog.update Watchdog.push Watchdog.reset set_target abs maximum minimum neg ◌+ℤ◌ ◌-ℤ◌ run
    prepared opening ended run_try
leaves_fence = refl

-- A rate of zero, which the configuration may hold.
dies_at_zero :
    (run decimal
      (record config { fps = nought })
      joints
      toy_fk
      toy_adapter
      fence
      parts
      (λ j. nought)
      first
      ((tick, report) ∷ [])).state
    ≡ running
unfolding run died
dies_at_zero = refl
