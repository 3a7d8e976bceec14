-- ===== src/Api/Persist.antt =====
-- franka_deploy/api/persist.py and the configuration of franka_deploy/api/routes_config.py: what is kept on disk.
-- A file is what `json.dumps` wrote; `dumps` and `loads` are parameters. An exception leaves what was set before it. The program checks no
-- types: an int is kept for a float, and a value of any other wrong type is kept too, where the readers here fail.
pub mod Roundtrip
pub mod Changes
pub mod Types
pub mod Raises
mod Examples
use Prim.Native.String.{String}
use franka_deploy.Common.{
  ℕ, Bool, true, false, Option, none, some, List, [], ◌∷◌, pos, negsuc, ℤ, Float, Vec, Numpy,
  if◌then◌else◌,
}
use franka_deploy.Safety.Workspace.{Axis, axis_x, axis_y, axis_z, WorkspaceBounds}
use franka_deploy.Schema.Options.{◌>>=◌}
use franka_deploy.Schema.Spec.{RequestSpec}
use franka_deploy.Schema.Json.{
  Json, null, boolean, int, number, string, array, object, Items, nil, cons, Fields, end, field,
  get,
}
use franka_deploy.Schema.Serialize.{
  known, with_default, required, as_string, as_number, as_boolean, as_ℕ, as_object, as_list,
  nullable, or_null, items_of, request_spec_to_dict, request_spec_from_dict,
}
use franka_deploy.Control.Config.{LoopConfig}
use franka_deploy.Control.Loop.{ControlLoop}
use franka_deploy.Api.State.{AppConfig, AppState, CameraConfig, Write, written, breaks}

-- `asdict` of a camera and of the loop's configuration, and the dict of the whole.
unfoldable pub camera_to_dict : CameraConfig → Fields
camera_to_dict c = field "role" (string c.role) (
    field "serial" (or_null string c.serial) (
      field "width" (int (pos c.width))
        (field "height" (int (pos c.height)) (field "fps" (int (pos c.fps)) end))))

unfoldable pub loop_to_dict : LoopConfig → Fields
loop_to_dict c = field "fps" (number c.fps) (
    field "exec_horizon" (int (pos c.exec_horizon)) (
      field "lead_ticks" (int (pos c.lead_ticks)) (
        field "max_step_rad" (number c.max_step_rad) (
          field "ema_alpha" (number c.ema_alpha) (
            field "watchdog_enabled" (boolean c.watchdog_enabled) (
              field "watchdog_window" (int (pos c.watchdog_window)) (
                field "watchdog_threshold" (number c.watchdog_threshold) (
                  field "watchdog_trip_count" (int (pos c.watchdog_trip_count))
                    (field "watchdog_deadzone" (number c.watchdog_deadzone) end)))))))))

unfoldable pub config_to_dict : AppConfig → Fields
unfolding camera_to_dict loop_to_dict request_spec_to_dict
config_to_dict cfg = field "robot_node_address" (string cfg.robot_node_address) (
    field "cameras" (array (items_of (λ c. object (camera_to_dict c)) cfg.cameras)) (
      field "request_spec" (or_null (λ s. object (request_spec_to_dict s)) cfg.request_spec) (
        field "loop" (object (loop_to_dict cfg.loop)) (
          field "v_max" (number cfg.v_max) (
            field "a_max" (number cfg.a_max)
              (field "j_max" (number cfg.j_max) (field "filter_wn" (number cfg.filter_wn) end)))))))

unfoldable pub camera_from_dict : Json → Option CameraConfig
camera_from_dict j = do
  d ← as_object j
  role ← required "role" d as_string
  serial ← with_default "serial" d none (nullable as_string)
  width ← with_default "width" d 640 as_ℕ
  height ← with_default "height" d 480 as_ℕ
  fps ← with_default "fps" d 30 as_ℕ
  known ("role" ∷ "serial" ∷ "width" ∷ "height" ∷ "fps" ∷ []) d
      (some (record { role = role; serial = serial; width = width; height = height; fps = fps }))

-- What is skipped by `if saved.get(...)`.
abbrev pub truthy : Json → Bool
truthy null = false
truthy (boolean b) = b
truthy (int (pos ℕ.zero)) = false
truthy (int (pos (ℕ.suc n))) = true
truthy (int (negsuc n)) = true
truthy (number (pos ℕ.zero)) = false
truthy (number (pos (ℕ.suc n))) = true
truthy (number (negsuc n)) = true
truthy (string String.[]) = false
truthy (string (String.◌∷◌ c s)) = true
truthy (array nil) = false
truthy (array (cons j js)) = true
truthy (object end) = false
truthy (object (field k v d)) = true

-- A configuration that is being changed in place, and whether no exception has come yet.
abbrev pub Changing : Type 0
Changing = AppConfig × Bool

abbrev pub and_then : Changing → (AppConfig → Changing) → Changing
and_then (cfg, true) change = change cfg
and_then (cfg, false) change = (cfg, false)

abbrev pub set_from :
    {A : Type 0} → (Json → Option A) → (A → AppConfig → AppConfig) → Json → AppConfig → Changing
set_from read assign j cfg = elim (read j) [ none ↦ (cfg, false) | some a ↦ (assign a cfg, true) ]

-- `if k in saved`, `if saved.get(k)`, and `if k in saved and saved[k] is not None`.
abbrev pub if_in : String → Fields → (Json → AppConfig → Changing) → AppConfig → Changing
if_in k saved change cfg = elim (get k saved) [ none ↦ (cfg, true) | some j ↦ change j cfg ]

abbrev pub if_truthy : String → Fields → (Json → AppConfig → Changing) → AppConfig → Changing
if_truthy k saved change cfg = elim (get k saved) [
  | none ↦ (cfg, true)
  | some j ↦ if truthy j then change j cfg else (cfg, true)
]

abbrev pub unless_null : (Json → AppConfig → Changing) → Json → AppConfig → Changing
unless_null change null cfg = (cfg, true)
unless_null change (boolean b) cfg = change (boolean b) cfg
unless_null change (int n) cfg = change (int n) cfg
unless_null change (number x) cfg = change (number x) cfg
unless_null change (string s) cfg = change (string s) cfg
unless_null change (array js) cfg = change (array js) cfg
unless_null change (object d) cfg = change (object d) cfg

abbrev pub spec_of : Numpy → Json → Option RequestSpec
spec_of np j = do d ← as_object j; request_spec_from_dict np d

module _ (np : Numpy) where
  open np use {lit}

  unfoldable pub loop_from_dict : Json → Option LoopConfig
  loop_from_dict j = do
    d ← as_object j
    fps ← with_default "fps" d (lit 20 0) (as_number np)
    exec_horizon ← with_default "exec_horizon" d 10 as_ℕ
    lead_ticks ← with_default "lead_ticks" d 2 as_ℕ
    max_step_rad ← with_default "max_step_rad" d (lit 5 1) (as_number np)
    ema_alpha ← with_default "ema_alpha" d (lit 3 1) (as_number np)
    watchdog_enabled ← with_default "watchdog_enabled" d true as_boolean
    watchdog_window ← with_default "watchdog_window" d 50 as_ℕ
    watchdog_threshold ← with_default "watchdog_threshold" d (lit 5 1) (as_number np)
    watchdog_trip_count ← with_default "watchdog_trip_count" d 3 as_ℕ
    watchdog_deadzone ← with_default "watchdog_deadzone" d (lit 2 2) (as_number np)
    known
        ("fps" ∷ "exec_horizon" ∷ "lead_ticks" ∷ "max_step_rad" ∷ "ema_alpha" ∷ "watchdog_enabled"
          ∷ "watchdog_window" ∷ "watchdog_threshold" ∷ "watchdog_trip_count" ∷ "watchdog_deadzone"
          ∷ [])
        d
        (some (record {
          fps = fps;
          exec_horizon = exec_horizon;
          lead_ticks = lead_ticks;
          max_step_rad = max_step_rad;
          ema_alpha = ema_alpha;
          watchdog_enabled = watchdog_enabled;
          watchdog_window = watchdog_window;
          watchdog_threshold = watchdog_threshold;
          watchdog_trip_count = watchdog_trip_count;
          watchdog_deadzone = watchdog_deadzone;
        }))

  abbrev pub set_address : Json → AppConfig → Changing
  set_address = set_from as_string (λ a cfg. record cfg { robot_node_address = a })

  abbrev pub set_cameras : Json → AppConfig → Changing
  set_cameras = set_from (as_list camera_from_dict) (λ cs cfg. record cfg { cameras = cs })

  abbrev pub set_spec : Json → AppConfig → Changing
  set_spec = set_from (spec_of np) (λ s cfg. record cfg { request_spec = some s })

  abbrev pub set_loop : Json → AppConfig → Changing
  set_loop = set_from loop_from_dict (λ l cfg. record cfg { loop = l })

  -- The loop over the four limits.
  abbrev pub set_limits : Fields → AppConfig → Changing
  set_limits saved cfg =
      and_then
        (and_then
          (and_then
            (if_in "v_max" saved (set_from (as_number np) (λ x c. record c { v_max = x })) cfg)
            (if_in "a_max" saved (set_from (as_number np) (λ x c. record c { a_max = x }))))
          (if_in "j_max" saved (set_from (as_number np) (λ x c. record c { j_max = x }))))
        (if_in "filter_wn" saved (set_from (as_number np) (λ x c. record c { filter_wn = x })))

  unfoldable pub load_saved : Fields → AppConfig → Changing
  unfolding camera_from_dict loop_from_dict request_spec_from_dict
  load_saved saved cfg =
      and_then
        (and_then
          (and_then
            (and_then (if_in "robot_node_address" saved set_address cfg)
              (if_in "cameras" saved set_cameras))
            (if_truthy "request_spec" saved set_spec))
          (if_truthy "loop" saved set_loop))
        (set_limits saved)

  unfoldable pub change_by : Fields → AppConfig → Changing
  unfolding camera_from_dict loop_from_dict request_spec_from_dict
  change_by body cfg =
      and_then
        (and_then
          (and_then
            (and_then (if_in "robot_node_address" body set_address cfg)
              (if_in "cameras" body set_cameras))
            (if_in "request_spec" body (unless_null set_spec)))
          (if_in "loop" body set_loop))
        (set_limits body)

  module _ {File : Type 0} (dumps : Json → File) (loads : File → Option Json) where
    unfoldable pub save_config : AppConfig → File
    unfolding config_to_dict
    save_config cfg = dumps (object (config_to_dict cfg))

    -- `load_config_into`: without a file nothing changes.
    unfoldable pub load_config_into : AppConfig → Option File → Changing
    unfolding load_saved
    load_config_into cfg none = (cfg, true)
    load_config_into cfg (some file) = elim (loads file) [
      | none ↦ (cfg, false)
      | some j ↦ elim (as_object j) [ none ↦ (cfg, false) | some saved ↦ load_saved saved cfg ]
    ]

    abbrev pub stored : AppState → Write File → AppState × Option File × ℕ
    stored app written = (app, some (save_config app.config), 200)
    stored app (breaks left) = (app, left, 500)

    -- `set_config`: the app, the file, and the status of the reply.
    abbrev pub set_config_in :
        Option ControlLoop
        → AppState
        → Option File
        → Write File
        → Fields
        → AppState × Option File × ℕ
    set_config_in (some s) app file write body = (app, file, 409)
    set_config_in none app file write body =
        let (cfg, fine) = change_by body app.config in
        let app' = record app { config = cfg } in
        if fine then stored app' write else (app', file, 500)

    unfoldable pub set_config :
        AppState → Option File → Write File → Fields → AppState × Option File × ℕ
    unfolding change_by save_config
    set_config app file write body = set_config_in app.loop app file write body
