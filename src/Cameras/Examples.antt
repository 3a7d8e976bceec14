-- ===== src/Cameras/Examples.antt =====
-- The theorems about the cameras at a start of two and three reads, and tests.
use Prim.Native.String.{String}
use franka_deploy.Common.{
  ℕ, ◌==◌, ◌≡◌, refl, Bool, true, none, some, List, [], ◌∷◌, All, length, ◌<◌, ◌+◌,
}
use franka_deploy.Api.State.{CameraConfig}
use franka_deploy.Cameras.{
  starts, stops, real_sense_camera, CameraManager, start, starts_within, build_from, build_cameras,
  stop, read_cameras, get_latest,
}
use franka_deploy.Cameras.Frames
use franka_deploy.Cameras.Devices.{Device, cropped, get_device_ids, hardware_reset, get_serial}
use franka_deploy.Cameras.Devices.Crop

abbrev wrist : CameraConfig
wrist = record { role = "wrist"; serial = some "1234"; width = 640; height = 480; fps = 30 }

abbrev table : CameraConfig
table = record { role = "table"; serial = none; width = 640; height = 480; fps = 30 }

-- Every pipeline starts at the second attempt.
abbrev second : String → ℕ → Bool
second s i = i == 1

abbrev one_running : CameraManager ℕ
one_running = record {
  workers = ("wrist", Frames.running (real_sense_camera "1234") (some 7) (some "no frame")) ∷ [];
  actions = [];
}

started_actions :
    (start second one_running (table ∷ wrist ∷ [])).0.actions
    ≡ stops (real_sense_camera "1234") ∷ starts "1234" ∷ []
unfolding start build_cameras build_from starts_within stop
started_actions = refl

-- The frame of a camera that fails is still given.
stale_frame : read_cameras one_running ≡ ("wrist", 7) ∷ []
unfolding read_cameras get_latest
stale_frame = refl

-- The two columns in the middle of two rows of five.
abbrev wide : List (List ℕ)
wide = (1 ∷ 2 ∷ 3 ∷ 4 ∷ 5 ∷ []) ∷ (6 ∷ 7 ∷ 8 ∷ 9 ∷ 10 ∷ []) ∷ []

wide-cropped : cropped wide ≡ (2 ∷ 3 ∷ []) ∷ (7 ∷ 8 ∷ []) ∷ []
unfolding cropped
wide-cropped = refl

cropped_square_example :
    (length (cropped wide) ≡ 2)
    × All (λ row. length row ≡ 2) (cropped wide)
    × ((i j : ℕ) → i < 2 → j < 2 → Crop.pixel (cropped wide) i j ≡ Crop.pixel wide (0 + i) (1 + j))
    × Crop.Centred 0 0
    × Crop.Centred 1 2
cropped_square_example = Crop.cropped_square wide (refl, (refl, tt))

abbrev d405 : Device
d405 = record { name = "D405"; serial = "1234" }

ids_after_reset :
    get_device_ids (d405 ∷ []) true ≡ (hardware_reset d405 ∷ get_serial d405 ∷ [], "1234" ∷ [])
unfolding get_device_ids
ids_after_reset = refl
