-- ===== src/Api/Previews/Frames.antt =====
-- What the preview shows and what the policy sees of the same camera.
use Prim.Native.String.{String}
use text.Mathlib.Text
use text.Mathlib.TextEquality.{eq_iff}
use franka_deploy.Common.{
  ℕ, ◌≡◌, refl, ◌∙◌, ap, arith, Bool, true, false, ◌||◌, Option, none, some, Option-cases, List, [],
  ◌∷◌, ◌++◌, ◌⊎◌, inl, inr, All, Result, map, if◌then◌else◌,
}
use franka_deploy.Control.Loop.{ControlLoop}
use franka_deploy.Api.State.{CameraConfig}
use franka_deploy.Cameras.{
  Camera, Action, Roles, CameraWorker, CameraManager, at_role, get_latest, read_roles, read_cameras,
  roles, start, workers_of, releases, reads, new_worker,
}
use franka_deploy.Cameras.Frames.{running, last_frame, last_error, reads-last}
use franka_deploy.Cameras.Start.{IsStart, start_cases}
use franka_deploy.Api.Previews.{
  Rig, Shown, refused, frame_of, encoded, opened, get_frame, start_preview, stop_preview,
}

has : String → List String → Bool
has role [] = false
has role (r ∷ rs) = Text.◌==◌ r role || has role rs

module _ {Frame : Type 0} where
  at_role-read_roles :
      (m : CameraManager Frame) (role : String) (rs : List String)
      → at_role role (read_roles m rs) ≡ (if has role rs then (get_latest m role).0 else none)
  unfolding has
  at_role-read_roles m role [] = refl
  at_role-read_roles m role (r ∷ rs) = ground (arith, eq_iff r role, at_role-read_roles m role rs)

  has-roles :
      (ws : Roles (CameraWorker Frame)) (role : String) (w : CameraWorker Frame)
      → at_role role ws ≡ some w
      → has role (map (λ (r, v). r) ws) ≡ true
  unfolding has
  has-roles [] role w here = cc
  has-roles ((r, v) ∷ ws) role w here = ground (arith, has-roles ws role w)

  seen :
      (m : CameraManager Frame) (role : String) (w : CameraWorker Frame)
      → at_role role m.workers ≡ some w
      → at_role role (read_cameras m) ≡ w.latest
  unfolding read_cameras get_latest
  seen m role w here =
      rw (at_role-read_roles m role (roles m))
        (rw (has-roles m.workers role w here) (rw (here, get_latest) refl))

  module _ {Jpeg : Type 0} (imencode : Frame → Option Jpeg) where
    -- A 500 after a failed read, a 503 before the first frame, else the frame.
    abbrev pub Previewed : Option Frame → Option String → Shown Jpeg → Type 0
    Previewed latest error r =
        ((e : String) × (error ≡ some e) × (r ≡ refused 500))
        ⊎ ((error ≡ none) × (latest ≡ none) × (r ≡ refused 503))
        ⊎ ((rgb : Frame) × (error ≡ none)
            × (latest ≡ some rgb)
            × (r ≡ encoded imencode (imencode rgb)))

    frame_of-Previewed :
        (latest : Option Frame) (error : Option String)
        → Previewed latest error (frame_of imencode (latest, error))
    frame_of-Previewed latest (some e) = inl (e, refl, refl)
    frame_of-Previewed none none = inr (inl (refl, refl, refl))
    frame_of-Previewed (some rgb) none = inr (inr (rgb, refl, refl, refl))

    -- After any reads of a camera, the preview answers with a 500 if the last read failed, with a 503 if no
    -- read has come yet, and else with the frame of the last read. The policy is given the frame of the
    -- last read that succeeded even while the preview answers with the error.
    pub get_frame_cases :
        (rig : Rig Frame) (role : String) (camera : Camera) (rs : List (Result String Frame))
        → at_role role rig.manager.workers ≡ some (reads (new_worker camera) rs)
        → Previewed (last_frame none rs) (last_error none rs) (get_frame imencode rig role)
          × (at_role role (read_cameras rig.manager) ≡ last_frame none rs)
    unfolding get_frame get_latest
    get_frame_cases rig role camera rs here =
        let now = reads-last camera none none rs in
        let there : at_role role rig.manager.workers
            ≡ some (running camera (last_frame none rs) (last_error none rs)) =
          rw (← now) here in
        (
          rw (there, get_frame, get_latest)
              (frame_of-Previewed (last_frame none rs) (last_error none rs)),
          seen rig.manager role (running camera (last_frame none rs) (last_error none rs)) there,
        )

  at_role-workers_of :
      (cams : Roles Camera) (role : String) (w : CameraWorker Frame)
      → at_role role (workers_of cams) ≡ some w
      → w.latest ≡ none
  at_role-workers_of [] role w here = cc
  at_role-workers_of ((r, c) ∷ cams) role w here = ground (arith, at_role-workers_of cams role w)

  unseen :
      (m : CameraManager Frame) (cams : Roles Camera) (role : String)
      → m.workers ≡ workers_of cams
      → (get_latest m role).0 ≡ none
  unfolding get_latest
  unseen m cams role fresh = elim (Option-cases (at_role role (workers_of {Frame = Frame} cams))) [
    | inl missing ↦ rw (fresh, get_latest) (rw (missing, get_latest) refl)
    | inr (w, here) ↦
        rw (fresh, get_latest) (rw (here, get_latest) (at_role-workers_of cams role w here))
  ]

  read_roles-none : (m : CameraManager Frame) → m.workers ≡ [] → read_cameras m ≡ []
  unfolding read_cameras
  read_roles-none m gone = rw gone refl

  read_roles-unseen :
      (m : CameraManager Frame) (rs : List String)
      → ((role : String) → (get_latest m role).0 ≡ none)
      → read_roles m rs ≡ []
  read_roles-unseen m [] none_seen = refl
  read_roles-unseen m (r ∷ rs) none_seen = rw (none_seen r) (read_roles-unseen m rs none_seen)

  stop_preview-refused :
      (rig : Rig Frame) (s : ControlLoop)
      → rig.app.loop ≡ some s
      → stop_preview rig ≡ (rig, refused 409)
  unfolding stop_preview
  stop_preview-refused rig s on = ground (arith, on)

  opened-same :
      (is_runtime_error : Bool) (rig : Rig Frame) (r : CameraManager Frame × Bool)
      → ((opened is_runtime_error rig r).0.manager ≡ r.0)
        × ((opened is_runtime_error rig r).0.app.loop ≡ rig.app.loop)
  opened-same is_runtime_error rig (m, true) = (refl, refl)
  opened-same is_runtime_error rig (m, false) = (refl, refl)

  read_cameras-unseen :
      (works : String → ℕ → Bool) (m : CameraManager Frame) (configs : List CameraConfig)
      → read_cameras (start works m configs).0 ≡ []
  unfolding read_cameras
  read_cameras-unseen works m configs = elim (start_cases works m configs).1 [
    | inl (failed, gone) ↦ read_roles-none (start works m configs).0 gone
    | inr (cams, fine, built, fresh) ↦
        let m' = (start works m configs).0 in
        read_roles-unseen m' (roles m') (λ role. unseen m' cams role fresh)
  ]

  start_preview-start :
      (works : String → ℕ → Bool) (is_runtime_error : Bool) (rig : Rig Frame) (c : CameraConfig)
      (cs : List CameraConfig)
      → rig.app.config.cameras ≡ c ∷ cs
      → start_preview works is_runtime_error rig
        ≡ opened is_runtime_error rig (start works rig.manager (c ∷ cs))
  unfolding start_preview
  start_preview-start works is_runtime_error rig c cs given = ground (arith, given)

  -- While a session uses the cameras, stopping them is refused with a 409. But starting them is not: it
  -- stops every camera in use, whether or not the new ones open, and when they have been built the policy
  -- is given no frame at all until a new reader has one. The session goes on as it was.
  pub start_preview-session :
      (works : String → ℕ → Bool) (is_runtime_error : Bool) (rig : Rig Frame) (s : ControlLoop)
      (c : CameraConfig) (cs : List CameraConfig)
      → rig.app.loop ≡ some s
      → rig.app.config.cameras ≡ c ∷ cs
      → let rig' = (start_preview works is_runtime_error rig).0 in
        (stop_preview rig ≡ (rig, refused 409))
        × (rig'.app.loop ≡ some s)
        × ((opened : List Action) × All IsStart opened
            × (rig'.manager.actions
                ≡ (rig.manager.actions ++ releases rig.manager.workers) ++ opened))
        × (read_cameras rig'.manager ≡ [])
  start_preview-session works is_runtime_error rig s c cs on given =
      let r = start works rig.manager (c ∷ cs) in
      let (manager, loop) = opened-same is_runtime_error rig r in
      let (first, only_starts, order) = (start_cases works rig.manager (c ∷ cs)).0 in
      rw (start_preview-start works is_runtime_error rig c cs given) (
        stop_preview-refused rig s on,
        loop ∙ on,
        (first, only_starts, ap (λ (m : CameraManager Frame). m.actions) manager ∙ order),
        ap read_cameras manager ∙ read_cameras-unseen works rig.manager (c ∷ cs),
      )
