-- ===== src/Api/Previews/Examples.antt =====
-- The theorems about the camera routes at concrete cameras, and tests.
use Prim.Native.String.{String}
use franka_deploy.Common.{
  true, ℕ, ◌==◌, ◌≡◌, refl, Bool, none, some, List, [], ◌∷◌, ◌++◌, All, ok, err, Result, decimal,
}
use franka_deploy.Control.Loop.{new_loop}
use franka_deploy.Api.State.{AppState, CameraConfig}
use franka_deploy.Api.Site.{default_config, default_workspace}
use franka_deploy.Cameras.{
  Action, CameraManager, at_role, real_sense_camera, new_worker, reads, read_cameras, releases,
  start, starts_within, build_from, build_cameras, stop,
}
use franka_deploy.Cameras.Frames
use franka_deploy.Cameras.Start
use franka_deploy.Api.Previews.{Rig, refused, shown, get_frame, start_preview, stop_preview}
use franka_deploy.Api.Previews.Frames as Shows

abbrev wrist : CameraConfig
wrist = record { role = "wrist"; serial = some "1234"; width = 640; height = 480; fps = 30 }

-- A frame was read, and then a read failed.
abbrev one_lost : List (Result String ℕ)
one_lost = ok 7 ∷ err "lost" ∷ []

abbrev manager : CameraManager ℕ
manager = record {
  workers = ("wrist", reads (new_worker (real_sense_camera "1234")) one_lost) ∷ [];
  actions = [];
}

abbrev app : AppState
app = record {
  config = record (default_config decimal) { cameras = wrist ∷ [] };
  loop = some new_loop;
  roles = "wrist" ∷ [];
  workspace = default_workspace decimal;
}

abbrev rig : Rig ℕ
rig = record { app = app; manager = manager }

abbrev at_once : String → ℕ → Bool
at_once s i = i == 0

started : (start_preview at_once true rig).1 ≡ shown ("wrist" ∷ [])
unfolding start_preview start build_cameras build_from starts_within stop
started = refl

get_frame_cases_example :
    Shows.Previewed {Frame = ℕ}
      (λ f. some f)
      (Frames.last_frame none one_lost)
      (Frames.last_error {Frame = ℕ} none one_lost)
      (get_frame {Jpeg = ℕ} (λ f. some f) rig "wrist")
    × (at_role "wrist" (read_cameras manager) ≡ Frames.last_frame none one_lost)
get_frame_cases_example =
    Shows.get_frame_cases (λ f. some f) rig "wrist" (real_sense_camera "1234") one_lost refl

start_preview-session_example :
    let rig' = (start_preview at_once true rig).0 in
    (stop_preview rig ≡ (rig, refused 409))
    × (rig'.app.loop ≡ some new_loop)
    × ((opened : List Action) × All Start.IsStart opened
        × (rig'.manager.actions ≡ (manager.actions ++ releases manager.workers) ++ opened))
    × (read_cameras rig'.manager ≡ [])
start_preview-session_example =
    Shows.start_preview-session at_once true rig new_loop wrist [] refl refl
