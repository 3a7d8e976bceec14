-- ===== src/DevServers/Examples.antt =====
-- The theorems about the development servers at concrete requests, and tests.
use franka_deploy.Common.{
  ◌≡◌, ◌≢◌, refl, arith, true, false, some, none, List, [], ◌∷◌, pos, neg, ◌+ℤ◌, ltb_ℤ, Float, Vec,
  nought, length, All, decimal, decimal-IsNumpy, if◌then◌else◌, ℤ, ◌/◌,
}
use franka_deploy.Schema.Json.{Json, array, object, nil, cons, number, end, field, get}
use franka_deploy.Schema.Serialize.{as_number}
use franka_deploy.Schema.Spec.{joint_absolute, zero_one}
use franka_deploy.Schema.Apply.{ActionSpaceAdapter, make, rot_dim_of}
use franka_deploy.Safety.Limits.{Joint}
use franka_deploy.Safety.Workspace.{WorkspaceBounds}
use franka_deploy.Kinematics.{Pose}
use franka_deploy.Kinematics.Trigonometry.{Trigonometry}
use franka_deploy.Kinematics.Frames.{damped_step}
use franka_deploy.Kinematics.Examples.{small, mount}
use franka_deploy.Schema.Apply.Given.{Given}
use franka_deploy.Control.Config.{LoopConfig}
use franka_deploy.Control.Ticks.{Row, Tick, ThreadState, adapter_error, index_error, begun}
use franka_deploy.Control.Deployment.{rounds}
use franka_deploy.DevServers.{sent, actions_to_json}
use franka_deploy.DevServers.Motion
use franka_deploy.DevServers.Motion.Wiggle
use franka_deploy.DevServers.Motion.Rollout

-- A square wave for the sine.
abbrev square : Trigonometry
square = record small { sin = λ x. if ltb_ℤ x nought then neg (pos 10_000) else pos 10_000 }

square_oscillates :
    Wiggle.Oscillates decimal square
      (as_number decimal)
      (as_number decimal)
      (pos 1_000)
      (pos 40_000)
      (pos 500)
      2
unfolding decimal neg
square_oscillates = (λ x. ground arith, refl, omega arith)

abbrev angle : Float
angle = pos 2_000

do_post-predict_example :
    (rows : List (List Float)) × (Motion.do_post decimal square
        (as_number decimal)
        (as_number decimal)
        (pos 1_000)
        (pos 40_000)
        (pos 500)
        2
        "/predict"
        (some (Wiggle.state_json angle angle angle angle angle angle angle nought))
        (pos 5_000)
      ≡ sent (actions_to_json rows) 200)
    × (length rows ≡ 2)
    × All
        (Wiggle.Near decimal square
          (as_number decimal)
          (as_number decimal)
          (pos 1_000)
          (pos 40_000)
          (pos 500)
          2
          (angle ∷ angle ∷ angle ∷ angle ∷ angle ∷ angle ∷ [], angle, nought))
        rows
do_post-predict_example =
    Wiggle.do_post-predict decimal square (as_number decimal) (as_number decimal) (pos 1_000)
      (pos 40_000) (pos 500) 2 decimal-IsNumpy angle angle angle angle angle angle angle nought
      (pos 5_000) (λ x. refl) (λ x. refl) square_oscillates

-- Two entries are too few.
abbrev two_joints : Json
two_joints = object (field "state" (array (cons (number angle) (cons (number angle) nil))) end)

too_few :
    Motion.do_post decimal square
      (as_number decimal)
      (as_number decimal)
      (pos 1_000)
      (pos 40_000)
      (pos 500)
      2
      "/predict"
      (some two_joints)
      nought
    ≡ sent Motion.short_state 400
unfolding Motion.do_post Motion.too_short get
too_few = refl

abbrev config : LoopConfig
config = record {
  fps = pos 200_000;
  exec_horizon = 2;
  lead_ticks = 1;
  max_step_rad = pos 500;
  ema_alpha = pos 3_000;
  watchdog_enabled = true;
  watchdog_window = 10;
  watchdog_threshold = pos 4_000;
  watchdog_trip_count = 3;
  watchdog_deadzone = pos 200;
}

abbrev adapter : ActionSpaceAdapter
adapter = record {
  spec = record {
    kind = joint_absolute;
    dim = 8;
    has_gripper = true;
    gripper_convention = zero_one;
    rotation_repr = none;
    confidence = pos 10_000;
    notes = "";
    delta_pos_scale = pos 10_000;
    delta_rot_scale = pos 10_000;
    delta_joint_scale = pos 10_000;
  };
  rot_dim = 0;
}

adapter_made : make adapter.spec ≡ some adapter
unfolding make rot_dim_of
adapter_made = refl

abbrev measured : List Float × Float × Float
measured = (angle ∷ angle ∷ angle ∷ angle ∷ angle ∷ angle ∷ [], angle, nought)

abbrev chunk : List Row
chunk =
    Motion.chunk_at decimal square (as_number decimal) (as_number decimal) (pos 1_000) (pos 40_000)
      (pos 500) 2 measured nought

abbrev tick : Tick
tick = record {
  observed_at = nought;
  swapped_at = nought;
  fired_at = nought;
  ended_at = nought;
  observes = true;
  observes_ahead = true;
  pending_done = false;
  predicts = some chunk;
  reads = some (record { q = λ j. angle; dq = λ j. nought; ee_pos = λ a. nought });
  accepts = true;
}

abbrev no_fence : WorkspaceBounds
no_fence = record { points = []; margin = nought }

abbrev ready : ThreadState
ready = record {
  progress = begun chunk nought;
  smoother = record { alpha = pos 3_000; value = none };
  watchdog = record {
    window_size = 10;
    threshold = pos 4_000;
    trip_count_threshold = 3;
    velocity_deadzone = pos 200;
    history = [];
    consecutive_trips = 0;
  };
  gripper = none;
  commanded = [];
}

square_solves : (target : Pose) (q : Vec Joint) → Given (damped_step decimal square mount target q)
unfolding damped_step
square_solves target q = tt

rounds-Served_example :
    let fault = (rounds decimal square mount config adapter no_fence ready (tick ∷ tick ∷ [])).1 in
    (fault ≢ some adapter_error) × (fault ≢ some index_error)
rounds-Served_example =
    Rollout.rounds-Served decimal square (as_number decimal) (as_number decimal) (pos 1_000)
      (pos 40_000) (pos 500) 2 (omega arith) mount config adapter no_fence ready chunk nought
      (tick ∷ tick ∷ []) (refl, refl, refl, refl) adapter_made (λ target q. square_solves target q)
      (omega arith) refl (measured, nought, refl, refl)
      ((measured, nought, refl, refl), ((measured, nought, refl, refl), tt))

-- Whole seconds.
abbrev seconds : Float → Float → ℤ
seconds (pos a) (pos b) = pos (a / b)
seconds _ _ = pos 0

counted :
    seconds (pos 30_000 +ℤ pos 25_000) (pos 25_000) ≡ seconds (pos 30_000) (pos 25_000) +ℤ pos 1
unfolding ◌+ℤ◌
counted = refl
