-- ===== src/Api/Site.antt =====
-- `AppState.__init__` of franka_deploy/api/state.py and all requests of franka_deploy/api/ that change something:
-- the app over its two files. `as_int` and `as_float` are Python's `int` and `float` of a JSON value.
pub mod Fences
pub mod Restarts
mod Examples
use Prim.Native.String.{String}
use franka_deploy.Common.{
  ℕ, Bool, true, false, Option, none, some, List, [], ◌∷◌, ℤ, Float, Vec, Numpy,
}
use franka_deploy.Safety.Workspace.{Axis, WorkspaceBounds}
use franka_deploy.Schema.Json.{Json, Fields}
use franka_deploy.Control.Config.{LoopConfig}
use franka_deploy.Api.State.{AppConfig, AppState, Write}
use franka_deploy.Api.Persist.{Changing, load_config_into, set_config}
use franka_deploy.Api.Fence.{
  load_workspace_into, Answered, add_point_route, remove_point_route, clear_route, margin_route,
}
use franka_deploy.Api.Routes
use franka_deploy.Api.Routes.{Event}

module _ (np : Numpy) where
  open np use {lit}

  -- The defaults of the dataclasses.
  unfoldable pub default_loop : LoopConfig
  default_loop = record {
    fps = lit 20 0;
    exec_horizon = 10;
    lead_ticks = 2;
    max_step_rad = lit 5 1;
    ema_alpha = lit 3 1;
    watchdog_enabled = true;
    watchdog_window = 50;
    watchdog_threshold = lit 5 1;
    watchdog_trip_count = 3;
    watchdog_deadzone = lit 2 2;
  }

  unfoldable pub default_config : AppConfig
  unfolding default_loop
  default_config = record {
    robot_node_address = "tcp://127.0.0.1:5560";
    cameras = [];
    request_spec = none;
    loop = default_loop;
    v_max = lit 1 0;
    a_max = lit 4 0;
    j_max = lit 3_000 0;
    filter_wn = lit 10 0;
  }

  unfoldable pub default_workspace : WorkspaceBounds
  default_workspace = record { points = []; margin = lit 2 2 }

-- The process and the two files that outlive it.
pub record Site (File : Type 0) : Type 0 where
  pub app : AppState
  pub config_file : Option File
  pub workspace_file : Option File

-- A request that saves something comes with how its write ends.
pub data Request (File : Type 0) : Type 0 where
  controls : Event → Request File
  configures : Write File → Fields → Request File
  adds_point : Write File → Bool → Option (Vec Axis) → Request File
  removes_point : Write File → Fields → Request File
  clears : Write File → Request File
  sets_margin : Write File → Fields → Request File

module _ (np : Numpy) {File : Type 0} (dumps : Json → File) (loads : File → Option Json) where
  abbrev pub app_with : AppConfig → WorkspaceBounds → AppState
  app_with config workspace = record {
    config = config;
    loop = none;
    roles = [];
    workspace = workspace;
  }

  abbrev pub app_of : Changing → WorkspaceBounds × Bool → Option AppState
  app_of (config, true) (workspace, true) = some (app_with config workspace)
  app_of (config, true) (workspace, false) = none
  app_of (config, false) loaded = none

  -- An exception ends the start.
  unfoldable pub start_app : Option File → Option File → Option AppState
  unfolding default_config default_workspace load_config_into load_workspace_into
  start_app config_file workspace_file =
      app_of (load_config_into np dumps loads (default_config np) config_file)
        (load_workspace_into dumps loads np (default_workspace np) workspace_file)

  abbrev pub begun : AppState → Option File → Option File → Site File
  begun app config_file workspace_file = record {
    app = app;
    config_file = config_file;
    workspace_file = workspace_file;
  }

  abbrev pub on_fence : Site File → Answered dumps loads → Site File
  on_fence site (app, file, reply) = record site { app = app; workspace_file = file }

  abbrev pub on_config : Site File → AppState × Option File × ℕ → Site File
  on_config site (app, file, status) = record site { app = app; config_file = file }

  -- What a change of the configuration answers; 200 for any other request.
  unfoldable pub config_status : Site File → Request File → ℕ
  unfolding set_config
  config_status site (configures write body) =
      (set_config np dumps loads site.app site.config_file write body).2
  config_status site (controls e) = 200
  config_status site (adds_point write opens position) = 200
  config_status site (removes_point write body) = 200
  config_status site (clears write) = 200
  config_status site (sets_margin write body) = 200

  module _ (as_int : Json → Option ℤ) (as_float : Json → Option Float) where
    unfoldable pub serve : Site File → Request File → Site File
    unfolding Routes.step set_config add_point_route remove_point_route clear_route margin_route
    serve site (controls e) = record site { app = Routes.step np site.app e }
    serve site (configures write body) =
        on_config site (set_config np dumps loads site.app site.config_file write body)
    serve site (adds_point write opens position) =
        on_fence site
          (add_point_route dumps loads np site.app site.workspace_file write opens position)
    serve site (removes_point write body) =
        on_fence site
          (remove_point_route dumps loads as_int site.app site.workspace_file write body)
    serve site (clears write) = on_fence site (clear_route dumps loads site.app write)
    serve site (sets_margin write body) =
        on_fence site (margin_route dumps loads as_float site.app site.workspace_file write body)

    unfoldable pub session : Site File → List (Request File) → Site File
    unfolding serve
    session site [] = site
    session site (r ∷ rs) = session (serve site r) rs
