-- ===== src/Api/Site/Fences.antt =====
-- A fence that is saved is loaded back, and what a request leaves of it.
use mathlib.Core.Path.{fun_ext}
use franka_deploy.Common.{◌≡◌, refl, ap, true, Option, some, arith, Vec, Numpy}
use franka_deploy.Safety.Workspace.{Axis, axis_x, axis_y, axis_z, WorkspaceBounds}
use franka_deploy.Schema.Json.{Json, object, get}
use franka_deploy.Schema.Serialize.Roundtrip.{each-items_of}
use franka_deploy.Control.Loop.{connect, detect, confirm, start, launch, stop, estop}
use franka_deploy.Api.State.{AppState}
use franka_deploy.Api.Fence.{
  point_to_json, point_from_json, point_of, fence_to_dict, fence_from_dict, save_workspace,
  load_workspace_into, Answered, fence, refused,
}
use franka_deploy.Api.Fence.Replies.{Told}
use franka_deploy.Api.Routes
use franka_deploy.Api.Routes.{
  Event, connects, detects, confirms, starts, stops, estops, disconnects, leaves_loop,
  fails_in_loop, ensure_loop,
}
use franka_deploy.Api.Site.{default_workspace}

-- The routes of the session leave the configuration and the fence alone.
abbrev pub Same : AppState → AppState → Type 0
Same app app' = (app'.config ≡ app.config) × (app'.workspace ≡ app.workspace)

pub step-Same : (np : Numpy) (app : AppState) (e : Event) → Same app (Routes.step np app e)
unfolding Routes.step Routes.connect_route Routes.detect_route Routes.confirm_route
    Routes.start_route Routes.stop_route Routes.estop_route Routes.disconnect_route
    Routes.ensure_loop connect detect confirm start launch stop estop
step-Same np app (connects opens read_only answers) = ground arith
step-Same np app (detects opens found) = ground arith
step-Same np app (confirms opens spec) = ground arith
step-Same np app (starts opens env) = ground arith
step-Same np app (stops j) = ground arith
step-Same np app (estops j halts) = ground arith
step-Same np app (disconnects j halts) = ground arith
step-Same np app leaves_loop = ground arith
step-Same np app fails_in_loop = ground arith

point_back_at : (p : Vec Axis) (a : Axis) → point_of (p axis_x) (p axis_y) (p axis_z) a ≡ p a
point_back_at p axis_x = refl
point_back_at p axis_y = refl
point_back_at p axis_z = refl

point_back : (np : Numpy) (p : Vec Axis) → point_from_json np (point_to_json p) ≡ some p
point_back np p = ap some (fun_ext (point_back_at p))

fence_from_dict-fence_to_dict :
    (np : Numpy) (ws other : WorkspaceBounds)
    → fence_from_dict np (fence_to_dict ws) other ≡ (ws, true)
unfolding fence_from_dict fence_to_dict get
fence_from_dict-fence_to_dict np ws other =
    rw (each-items_of (point_from_json np) point_to_json (point_back np) ws.points, fence_from_dict)
      refl

module _ {File : Type 0} (dumps : Json → File) (loads : File → Option Json) where
  -- `json.loads` reads what `json.dumps` wrote.
  abbrev pub FencesBack : Type 0
  FencesBack =
      (ws : WorkspaceBounds)
      → loads (dumps (object (fence_to_dict ws))) ≡ some (object (fence_to_dict ws))

  pub load_workspace_into-save_workspace :
      (np : Numpy) (ws other : WorkspaceBounds)
      → FencesBack
      → load_workspace_into dumps loads np other (some (save_workspace dumps loads ws)) ≡ (ws, true)
  unfolding load_workspace_into save_workspace
  load_workspace_into-save_workspace np ws other back =
      rw (back ws, load_workspace_into) (fence_from_dict-fence_to_dict np ws other)

  -- What a route told about the fence, with the file that it left.
  pub fence_of_Told :
      (np : Numpy) (app : AppState) (file : Option File) (r : Answered dumps loads)
      → FencesBack
      → Told dumps loads app file r
      → load_workspace_into dumps loads np (default_workspace np) file ≡ (app.workspace, true)
      → load_workspace_into dumps loads np (default_workspace np) r.1 ≡ (r.0.workspace, true)
  fence_of_Told np app file (app', file', fence d) back (config, (shown, written)) h =
      rw written (load_workspace_into-save_workspace np app'.workspace (default_workspace np) back)
  fence_of_Told np app file (app', file', refused code) back (config, (same, old)) h =
      rw (same, old) h
