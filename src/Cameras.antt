-- ===== src/Cameras.antt =====
-- franka_deploy/cameras/: build_cameras of __init__.py, the start of realsense.py, and manager.py.
-- What a pipeline and a read do comes in as arguments. The waits of `start` change nothing and are left out.
pub mod Start
pub mod Frames
pub mod Devices
mod Examples
use Prim.Native.String.{String}
use text.Mathlib.Text
use franka_deploy.Common.{
  ℕ, zero, suc, ◌+◌, Bool, true, false, Option, none, some, List, [], ◌∷◌, ◌++◌, map, Result, ok,
  err, if◌then◌else◌,
}
use franka_deploy.Api.State.{CameraConfig}

pub data Camera : Type 0 where
  mock_camera : ℕ → ℕ → Camera
  real_sense_camera : String → Camera

-- What is done with the devices, in order: a pipeline starts for a serial number, a camera is stopped.
pub data Action : Type 0 where
  starts : String → Action
  stops : Camera → Action

-- `RealSenseCamera.__init__` tries `n` times from the i-th attempt on.
unfoldable pub starts_within : (ℕ → Bool) → ℕ → ℕ → Bool
starts_within works i zero = false
starts_within works i (suc n) =
    let rest = starts_within works (i + 1) n in if works i then true else rest

abbrev pub start_retries : ℕ
start_retries = 5

abbrev pub Roles : Type 0 → Type 0
Roles A = List (String × A)

abbrev pub put_role : {A : Type 0} → String → A → Roles A → Roles A
put_role r a [] = (r, a) ∷ []
put_role r a ((q, b) ∷ rest) = if Text.◌==◌ q r then (r, a) ∷ rest else (q, b) ∷ put_role r a rest

abbrev pub at_role : {A : Type 0} → String → Roles A → Option A
at_role r [] = none
at_role r ((q, a) ∷ rest) = if Text.◌==◌ q r then some a else at_role r rest

-- A configuration without a serial number, or with an empty one, is a mock camera.
abbrev pub serial_of : Option String → Option String
serial_of none = none
serial_of (some s) = if Text.◌==◌ s "" then none else some s

abbrev pub Built : Type 0
Built = List Action × Option (Roles Camera)

abbrev pub after : Action → Built → Built
after a (actions, cams) = (a ∷ actions, cams)

-- `works s i` says whether the pipeline of `s` starts at the i-th attempt.
unfoldable pub build_from : (String → ℕ → Bool) → List CameraConfig → Roles Camera → Built
unfolding starts_within
build_from works [] cams = ([], some cams)
build_from works (c ∷ cs) cams = elim (serial_of c.serial) [
  | none ↦ build_from works cs (put_role c.role (mock_camera c.width c.height) cams)
  | some s ↦
      let rest = build_from works cs (put_role c.role (real_sense_camera s) cams) in
      if starts_within (works s) 0 start_retries then after (starts s) rest else ([], none)
]

unfoldable pub build_cameras : (String → ℕ → Bool) → List CameraConfig → Built
build_cameras works configs = build_from works configs []

pub record CameraWorker (Frame : Type 0) : Type 0 where
  pub camera : Camera
  pub latest : Option Frame
  pub error : Option String
  pub stop_evt : Bool

-- `actions` is what the manager has done with the devices so far.
pub record CameraManager (Frame : Type 0) : Type 0 where
  pub workers : Roles (CameraWorker Frame)
  pub actions : List Action

module _ {Frame : Type 0} where
  abbrev pub new_worker : Camera → CameraWorker Frame
  new_worker camera = record { camera = camera; latest = none; error = none; stop_evt = false }

  -- A round of `_loop`, with what the read gives; a failed read keeps the last frame.
  unfoldable pub read_round : CameraWorker Frame → Result String Frame → CameraWorker Frame
  read_round w (ok rgb) = if w.stop_evt then w else record w { latest = some rgb; error = none }
  read_round w (err e) = if w.stop_evt then w else record w { error = some e }

  unfoldable pub reads : CameraWorker Frame → List (Result String Frame) → CameraWorker Frame
  unfolding read_round
  reads w [] = w
  reads w (r ∷ rs) = reads (read_round w r) rs

  abbrev pub releases : Roles (CameraWorker Frame) → List Action
  releases [] = []
  releases ((r, w) ∷ ws) = stops w.camera ∷ releases ws

  unfoldable pub stop : CameraManager Frame → CameraManager Frame
  stop m = record { workers = []; actions = m.actions ++ releases m.workers }

  abbrev pub workers_of : Roles Camera → Roles (CameraWorker Frame)
  workers_of [] = []
  workers_of ((r, c) ∷ cams) = (r, new_worker c) ∷ workers_of cams

  -- The old cameras are stopped before any new one is built; a build that raises leaves no worker.
  unfoldable pub start :
      (String → ℕ → Bool) → CameraManager Frame → List CameraConfig → CameraManager Frame × Bool
  unfolding stop build_cameras
  start works m configs =
      let m' = stop m in
      let (actions, built) = build_cameras works configs in
      elim built [
        | none ↦ (record m' { actions = m'.actions ++ actions }, false)
        | some cams ↦ (record { workers = workers_of cams; actions = m'.actions ++ actions }, true)
      ]

  abbrev pub roles : CameraManager Frame → List String
  roles m = map (λ (r, w). r) m.workers

  -- The text for a role that was not started is shorter here.
  unfoldable pub get_latest : CameraManager Frame → String → Option Frame × Option String
  get_latest m role = elim (at_role role m.workers) [
    | none ↦ (none, some "not started")
    | some w ↦ (w.latest, w.error)
  ]

  abbrev pub with_frame : String → Option Frame → Roles Frame → Roles Frame
  with_frame role none out = out
  with_frame role (some rgb) out = (role, rgb) ∷ out

  abbrev pub read_roles : CameraManager Frame → List String → Roles Frame
  read_roles m [] = []
  read_roles m (r ∷ rs) = with_frame r (get_latest m r).0 (read_roles m rs)

  -- `_read_cameras` of control_loop.py, which passes over the error.
  unfoldable pub read_cameras : CameraManager Frame → Roles Frame
  unfolding get_latest
  read_cameras m = read_roles m (roles m)
