-- ===== src/Control/Deployment/Examples.antt =====
-- The theorem about a run on chunks of the confirmed format, at two rounds of a toy arm.
use franka_deploy.Common.{
  ◌≡◌, ◌≢◌, refl, arith, true, false, none, some, List, [], ◌∷◌, pos, Vec, nought, decimal,
}
use franka_deploy.Control.Config.{LoopConfig}
use franka_deploy.Control.Ticks.{Row, Tick, ThreadState, adapter_error, index_error, begun}
use franka_deploy.Control.Ticks.Schedule.{HasRow, begun-IsScheduled}
use franka_deploy.Control.Deployment.{rounds}
use franka_deploy.Control.Deployment.Formats
use franka_deploy.Kinematics.{Pose}
use franka_deploy.Safety.Limits.{Joint}
use franka_deploy.Schema.Apply.Given.{Given}
use franka_deploy.Kinematics.Frames.{damped_step}
use franka_deploy.Kinematics.Examples.{small, mount}
use franka_deploy.Safety.Workspace.{WorkspaceBounds}
use franka_deploy.Schema.Spec.{ee_absolute, zero_one, quat}
use franka_deploy.Schema.Apply.{ActionSpaceAdapter, make, rot_dim_of}

abbrev config : LoopConfig
config = record {
  fps = pos 100_000;
  exec_horizon = 2;
  lead_ticks = 1;
  max_step_rad = pos 500;
  ema_alpha = pos 3_000;
  watchdog_enabled = true;
  watchdog_window = 10;
  watchdog_threshold = pos 4_000;
  watchdog_trip_count = 3;
  watchdog_deadzone = pos 200;
}

abbrev row : Row
row = pos 3_000 ∷ nought ∷ pos 5_000 ∷ nought ∷ nought ∷ nought ∷ pos 10_000 ∷ pos 10_000 ∷ []

abbrev chunk : List Row
chunk = row ∷ row ∷ []

abbrev adapter : ActionSpaceAdapter
adapter = record {
  spec = record {
    kind = ee_absolute;
    dim = 8;
    has_gripper = true;
    gripper_convention = zero_one;
    rotation_repr = some quat;
    confidence = pos 10_000;
    notes = "";
    delta_pos_scale = pos 10_000;
    delta_rot_scale = pos 10_000;
    delta_joint_scale = pos 10_000;
  };
  rot_dim = 4;
}

adapter_made : make adapter.spec ≡ some adapter
unfolding make rot_dim_of
adapter_made = refl

abbrev tick : Tick
tick = record {
  observed_at = nought;
  swapped_at = nought;
  fired_at = nought;
  ended_at = nought;
  observes = true;
  observes_ahead = true;
  pending_done = false;
  predicts = some chunk;
  reads = some (record { q = λ j. nought; dq = λ j. nought; ee_pos = λ a. nought });
  accepts = true;
}

abbrev no_fence : WorkspaceBounds
no_fence = record { points = []; margin = nought }

abbrev ready : ThreadState
ready = record {
  progress = begun chunk nought;
  smoother = record { alpha = pos 3_000; value = none };
  watchdog = record {
    window_size = 10;
    threshold = pos 4_000;
    trip_count_threshold = 3;
    velocity_deadzone = pos 200;
    history = [];
    consecutive_trips = 0;
  };
  gripper = none;
  commanded = [];
}

small_solves : (target : Pose) (q : Vec Joint) → Given (damped_step decimal small mount target q)
unfolding damped_step
small_solves target q = tt

chunk_fits : Formats.HasWidth 8 ready.progress.chunk
unfolding begun
chunk_fits = (refl, (refl, tt))

tick_fits : HasRow tick.predicts × Formats.Predicts 8 tick.predicts
tick_fits = (omega arith, (refl, (refl, tt)))

rounds_no_format_error_example :
    let fault = (rounds decimal small mount config adapter no_fence ready (tick ∷ tick ∷ [])).1 in
    (fault ≢ some adapter_error) × (fault ≢ some index_error)
rounds_no_format_error_example =
    Formats.rounds_no_format_error decimal small mount config adapter no_fence ready
      (tick ∷ tick ∷ []) adapter_made (quat, refl) refl (λ target q. small_solves target q)
      (omega arith) (begun-IsScheduled chunk nought (omega arith)) chunk_fits
      (tick_fits, (tick_fits, tt))
