-- ===== src/Api/Previews.antt =====
-- franka_deploy/api/routes_cameras.py: the cameras over HTTP, with or without a session.
-- Encoding a frame as a JPEG is a parameter, as is the scan for devices.
pub mod Frames
mod Examples
use Prim.Native.String.{String}
use franka_deploy.Common.{ℕ, Bool, true, false, Option, none, some, List, [], ◌∷◌, if◌then◌else◌}
use franka_deploy.Api.State.{AppState, CameraConfig}
use franka_deploy.Cameras.{CameraManager, start, stop, roles, get_latest}
use franka_deploy.Cameras.Devices.{Device, list_devices}

-- The app with its camera manager; `roles` of the app are those of the manager.
pub record Rig (Frame : Type 0) : Type 0 where
  pub app : AppState
  pub manager : CameraManager Frame

pub data Shown (A : Type 0) : Type 0 where
  shown : A → Shown A
  refused : ℕ → Shown A

-- Any exception of the scan is a 500.
unfoldable pub list_devices_route : Option (List Device) → Shown (List (String × String))
unfolding list_devices
list_devices_route none = refused 500
list_devices_route (some devices) = shown (list_devices devices)

module _ {Frame : Type 0} where
  abbrev pub with_manager : Rig Frame → CameraManager Frame → Rig Frame
  with_manager rig m = record { app = record rig.app { roles = roles m }; manager = m }

  abbrev pub opened :
      Bool → Rig Frame → CameraManager Frame × Bool → Rig Frame × Shown (List String)
  opened is_runtime_error rig (m, true) = (with_manager rig m, shown (roles m))
  opened is_runtime_error rig (m, false) =
      (with_manager rig m, refused (if is_runtime_error then 409 else 500))

  -- There is no guard on a session here. `is_runtime_error` says whether what a failed start raises is a
  -- `RuntimeError`, the only exception that is caught.
  unfoldable pub start_preview :
      (String → ℕ → Bool) → Bool → Rig Frame → Rig Frame × Shown (List String)
  unfolding start
  start_preview works is_runtime_error rig = elim rig.app.config.cameras [
    | [] ↦ (rig, refused 400)
    | c ∷ cs ↦ opened is_runtime_error rig (start works rig.manager (c ∷ cs))
  ]

  unfoldable pub stop_preview : Rig Frame → Rig Frame × Shown (List String)
  unfolding stop
  stop_preview rig = elim rig.app.loop [
    | some s ↦ (rig, refused 409)
    | none ↦ (with_manager rig (stop rig.manager), shown [])
  ]

  module _ {Jpeg : Type 0} (imencode : Frame → Option Jpeg) where
    abbrev pub encoded : Option Jpeg → Shown Jpeg
    encoded none = refused 500
    encoded (some buf) = shown buf

    -- The error comes before the frame.
    abbrev pub frame_of : Option Frame × Option String → Shown Jpeg
    frame_of (rgb, some e) = refused 500
    frame_of (none, none) = refused 503
    frame_of (some rgb, none) = encoded (imencode rgb)

    unfoldable pub get_frame : Rig Frame → String → Shown Jpeg
    unfolding get_latest
    get_frame rig role = frame_of (get_latest rig.manager role)
