-- ===== src/Cameras/Start.antt =====
-- A start of the cameras: the order in which the devices are used, and what is left.
use Prim.Native.String.{String}
use franka_deploy.Common.{
  ℕ, ◌≡◌, refl, Bool, true, false, Bool-cases, some, Option-cases, List, [], ◌∷◌, ◌++◌, inl, inr,
  ◌⊎◌, All,
}
use franka_deploy.Api.State.{CameraConfig}
use franka_deploy.Cameras.{
  Camera, Action, starts, stops, Roles, CameraManager, build_from, build_cameras, starts_within,
  start_retries, serial_of, put_role, mock_camera, real_sense_camera, releases, workers_of, start,
  stop,
}

-- A pipeline that starts.
abbrev pub IsStart : Action → Type 0
IsStart (starts s) = Unit
IsStart (stops c) = ⊥

build_from-IsStart :
    (works : String → ℕ → Bool) (cs : List CameraConfig) (cams : Roles Camera)
    → All IsStart (build_from works cs cams).0
unfolding build_from
build_from-IsStart works [] cams = tt
build_from-IsStart works (c ∷ cs) cams = elim (Option-cases (serial_of c.serial)) [
  | inl mock ↦
      rw (mock, build_from)
        (build_from-IsStart works cs (put_role c.role (mock_camera c.width c.height) cams))
  | inr (s, real) ↦ elim (Bool-cases (starts_within (works s) 0 start_retries)) [
    | inl up ↦
        rw (real, build_from)
          (rw up (tt, build_from-IsStart works cs (put_role c.role (real_sense_camera s) cams)))
    | inr down ↦ rw (real, build_from) (rw down tt)
  ]
]

build_cameras-IsStart :
    (works : String → ℕ → Bool) (cs : List CameraConfig) → All IsStart (build_cameras works cs).0
unfolding build_cameras
build_cameras-IsStart works cs = build_from-IsStart works cs []

module _ {Frame : Type 0} where
  -- What a start does with the devices: first it stops the camera of every worker that there was, and
  -- after that it only starts pipelines. If it raises, no worker is left; else the workers are those of
  -- the cameras that were built, and have no frame yet.
  pub start_cases :
      (works : String → ℕ → Bool) (m : CameraManager Frame) (configs : List CameraConfig)
      → let (m', fine) = start works m configs in
        ((opened : List Action) × All IsStart opened
          × (m'.actions ≡ (m.actions ++ releases m.workers) ++ opened))
        × (((fine ≡ false) × (m'.workers ≡ []))
            ⊎ ((cams : Roles Camera) × (fine ≡ true)
                × ((build_cameras works configs).1 ≡ some cams)
                × (m'.workers ≡ workers_of cams)))
  unfolding start stop
  start_cases works m configs =
      let opened = (build_cameras works configs).0 in
      let only_starts = build_cameras-IsStart works configs in
      elim (Option-cases (build_cameras works configs).1) [
        | inl raised ↦ rw (raised, start) ((opened, only_starts, refl), inl (refl, refl))
        | inr (cams, built) ↦
            rw (built, start) ((opened, only_starts, refl), inr (cams, refl, refl, refl))
      ]
