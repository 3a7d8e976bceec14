-- ===== src/Api/Persist/Examples.antt =====
-- The theorems about the saved configuration at a concrete one, and tests.
use franka_deploy.Common.{◌≡◌, refl, true, none, some, [], ◌∷◌, pos, nought, decimal, ◌⊎◌}
use franka_deploy.Schema.Spec.{RequestSpec, RequestFieldSpec, chw, jpeg_base64}
use franka_deploy.Schema.Json.{
  Json, int, number, string, array, object, nil, cons, Fields, end, field, get,
}
use franka_deploy.Control.Config.{LoopConfig}
use franka_deploy.Api.State.{AppConfig, AppState, CameraConfig, written, breaks}
use franka_deploy.Api.Persist.{set_config, change_by, camera_from_dict, loop_from_dict}
use franka_deploy.Api.Persist.Changes
use franka_deploy.Api.Persist.Types.{IsTyped}

abbrev loop_config : LoopConfig
loop_config = record {
  fps = pos 200_000;
  exec_horizon = 10;
  lead_ticks = 2;
  max_step_rad = pos 5_000;
  ema_alpha = pos 3_000;
  watchdog_enabled = true;
  watchdog_window = 50;
  watchdog_threshold = pos 5_000;
  watchdog_trip_count = 3;
  watchdog_deadzone = pos 200;
}

abbrev wrist : CameraConfig
wrist = record { role = "wrist"; serial = some "1234"; width = 640; height = 480; fps = 30 }

abbrev image : RequestFieldSpec
image = record {
  name = "images.wrist";
  source = "camera:wrist";
  dtype = some "uint8";
  shape = none;
  resize = some (128 ∷ 128 ∷ []);
  layout = chw;
  normalize = some (("scale", pos 39) ∷ []);
  encoding = jpeg_base64;
  transform_fn = none;
}

abbrev spec : RequestSpec
spec = record {
  connection = record {
    server_ip = "10.0.0.2";
    server_port = 9000;
    scheme = "http";
    predict_endpoint = "/predict";
    reset_endpoint = "/reset";
    headers = ("Authorization", "Bearer $TOKEN") ∷ [];
  };
  fields = image ∷ [];
  reset_fields = [];
  actions_key = "actions";
  instruction_field = none;
}

abbrev config : AppConfig
config = record {
  robot_node_address = "tcp://127.0.0.1:5560";
  cameras = wrist ∷ [];
  request_spec = some spec;
  loop = loop_config;
  v_max = pos 10_000;
  a_max = pos 20_000;
  j_max = pos 30_000;
  filter_wn = pos 40_000;
}

abbrev fresh : AppConfig
fresh = record config { cameras = []; request_spec = none; v_max = nought }

abbrev app : AppState
app = record {
  config = fresh;
  loop = none;
  roles = [];
  workspace = record { points = []; margin = nought };
}

-- The second camera has no role: the first change stays, and nothing is saved.
abbrev half_way : Fields
half_way =
    field "robot_node_address" (string "tcp://other")
      (field "cameras" (array (cons (object (field "serial" (string "1") end)) nil)) end)

half_way_raises :
    set_config decimal {File = Json} (λ j. j) some app none written half_way
    ≡ (record app { config = record fresh { robot_node_address = "tcp://other" } }, none, 500)
unfolding set_config change_by camera_from_dict loop_from_dict get
half_way_raises = refl

-- What the form of the dashboard sends: ints for the rate and the limits.
abbrev by_form : Fields
by_form = field "loop" (object (field "fps" (int (pos 20)) end)) (
    field "v_max" (number (pos 10_000))
      (field "a_max" (int (pos 4)) (field "j_max" (int (pos 3_000)) end)))

by_form-IsTyped : IsTyped by_form
unfolding get
by_form-IsTyped = record {
  address = refl;
  cameras = refl;
  request_spec = refl;
  loop = refl;
  v_max = refl;
  a_max = refl;
  j_max = refl;
  filter_wn = refl;
}

by_form_saves : (set_config decimal {File = Json} (λ j. j) some app none written by_form).2 ≡ 200
unfolding set_config change_by loop_from_dict get
by_form_saves = refl

set_config_cases_example :
    let r = set_config decimal {File = Json} (λ j. j) some app none (breaks none) by_form in
    Changes.Refused decimal {File = Json} (λ j. j) some app none r
    ⊎ Changes.Raised decimal {File = Json} (λ j. j) some app none by_form r
    ⊎ Changes.Unsaved decimal {File = Json} (λ j. j) some app by_form (breaks none) r
    ⊎ Changes.Kept decimal {File = Json} (λ j. j) some r
set_config_cases_example =
    Changes.set_config_cases decimal (λ j. j) some app none (breaks none) by_form by_form-IsTyped
      (λ cfg. refl)
