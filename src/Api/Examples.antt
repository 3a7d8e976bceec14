-- ===== src/Api/Examples.antt =====
-- The theorems about franka_deploy/api/ at concrete inputs, and tests.
use franka_deploy.Common.{◌≡◌, refl, true, false, none, some, List, [], ◌∷◌, pos, decimal}
use franka_deploy.Schema.Spec.{
  ActionSpaceSpec, DetectionResult, joint_absolute, zero_one, RequestSpec,
}
use franka_deploy.Control.Config.{LoopConfig}
use franka_deploy.Control.Loop.{
  connected, running, stopped, error, ControlLoop, Join, start, launch, connect, confirm, detect,
}
use franka_deploy.Api.State.{AppState, AppConfig}
use franka_deploy.Api.Routes
use franka_deploy.Api.Routes.{
  Event, connects, detects, confirms, starts, stops, fails_in_loop, state_is, status,
}
use franka_deploy.Api.Routes.Motion
use franka_deploy.Api.Routes.Motion.{smooth_start}

abbrev spec : ActionSpaceSpec
spec = record {
  kind = joint_absolute;
  dim = 8;
  has_gripper = true;
  gripper_convention = zero_one;
  rotation_repr = none;
  confidence = pos 10_000;
  notes = "";
  delta_pos_scale = pos 10_000;
  delta_rot_scale = pos 10_000;
  delta_joint_scale = pos 10_000;
}

abbrev detection : DetectionResult
detection = record { spec = spec; sample_row = []; chunk_shape = (1, 8); candidates = spec ∷ [] }

abbrev server : RequestSpec
server = record {
  connection = record {
    server_ip = "127.0.0.1";
    server_port = 8080;
    scheme = "http";
    predict_endpoint = "/predict";
    reset_endpoint = "/reset";
    headers = [];
  };
  fields = [];
  reset_fields = [];
  actions_key = "actions";
  instruction_field = none;
}

abbrev loop_config : LoopConfig
loop_config = record {
  fps = pos 200_000;
  exec_horizon = 10;
  lead_ticks = 2;
  max_step_rad = pos 5_000;
  ema_alpha = pos 3_000;
  watchdog_enabled = true;
  watchdog_window = 50;
  watchdog_threshold = pos 5_000;
  watchdog_trip_count = 3;
  watchdog_deadzone = pos 200;
}

abbrev config : AppConfig
config = record {
  robot_node_address = "tcp://127.0.0.1:5560";
  cameras = [];
  request_spec = some server;
  loop = loop_config;
  v_max = pos 10_000;
  a_max = pos 40_000;
  j_max = pos 30_000_000;
  filter_wn = pos 100_000;
}

abbrev fresh : AppState
fresh = record {
  config = config;
  loop = none;
  roles = [];
  workspace = record { points = []; margin = pos 200 };
}

-- The staged rollout, up to the first motion.
abbrev rollout : List Event
rollout =
    connects true true true
    ∷ detects true (some detection)
    ∷ confirms true spec
    ∷ starts true smooth_start
    ∷ []

abbrev in_motion : ControlLoop
in_motion = record {
  state = running;
  runtime = some false;
  adapter = some spec;
  last_detection = some detection;
  stop_evt = false;
  thread = some true;
  strays = 0;
}

rollout_runs : (Routes.run decimal fresh rollout).loop ≡ some in_motion
unfolding Routes.run Routes.step Routes.connect_route Routes.detect_route Routes.confirm_route
    Routes.start_route connect detect confirm start launch decimal
rollout_runs = refl

abbrev moving : AppState
moving = record fresh { loop = some in_motion }

run-Still_example :
    Motion.Still
      (Routes.run decimal fresh (
        connects true false true
        ∷ detects true (some detection)
        ∷ starts true smooth_start
        ∷ [])).loop
run-Still_example =
    Motion.run-Still decimal fresh
      (connects true false true ∷ detects true (some detection) ∷ starts true smooth_start ∷ [])
      refl (refl, (refl, (refl, tt)))

abbrev failed : AppState
failed = record fresh { loop = some (record in_motion { state = error; thread = some false }) }

run-error_example :
    Motion.InState error
      (Routes.run decimal failed (starts true smooth_start ∷ stops Join.leaves ∷ [])).loop
run-error_example =
    Motion.run-error decimal failed (starts true smooth_start ∷ stops Join.leaves ∷ []) refl
      (refl, (refl, tt))

TwoThreads-confirm_example :
    Motion.TwoThreads
      (Routes.run decimal moving (confirms true spec ∷ starts true smooth_start ∷ [])).loop
TwoThreads-confirm_example = Motion.TwoThreads-confirm decimal moving in_motion spec refl refl refl

TwoThreads-stop_example :
    Motion.TwoThreads
      (Routes.run decimal moving (stops Join.times_out ∷ starts true smooth_start ∷ [])).loop
TwoThreads-stop_example =
    Motion.TwoThreads-stop decimal moving in_motion refl refl (λ e. cc) (λ e. cc)

abbrev halted : ControlLoop
halted = record in_motion { state = stopped; thread = some false; stop_evt = true }

abbrev paused : AppState
paused = record fresh { loop = some halted }

abbrev ready : ControlLoop
ready = record in_motion { state = connected; adapter = none; thread = none; runtime = some true }

abbrev ready_app : AppState
ready_app = record fresh { loop = some ready }
