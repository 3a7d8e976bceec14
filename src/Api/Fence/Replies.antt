-- ===== src/Api/Fence/Replies.antt =====
-- What the workspace routes answer, and what they leave.
use mathlib.Core.Path.{subst}
use franka_deploy.Common.{
  ℕ, err, Result, ◌≡◌, refl, ◌≢◌, ◌∙◌, arith, Bool, true, Bool-cases, Option, none, some,
  Option-cases, ℤ, Float, Vec, nought, ◌≤ℤ◌, ◌<ℤ◌, ◌⊎◌, Numpy, inl, inr, ok, Result-split,
}
use franka_deploy.Safety.Workspace.{WorkspaceBounds, Axis, to_dict, remove_point}
use franka_deploy.Schema.Spec.{RequestSpec}
use franka_deploy.Schema.Json.{Json, Fields}
use franka_deploy.Schema.Serialize.{required}
use franka_deploy.Control.Config.{LoopConfig}
use franka_deploy.Control.Loop.{ControlLoop, new_loop, new}
use franka_deploy.Safety.Limits.{Joint}
use franka_deploy.Safety.Smoothing
use franka_deploy.Safety.Smoothing.{one}
use franka_deploy.Api.State.{AppConfig, AppState, Write, written, breaks}
use franka_deploy.Api.Persist.{set_config}
use franka_deploy.Api.Routes.{ensure_loop, start_cameras, with_new}
use franka_deploy.Api.Fence.{
  save_workspace, add_workspace_point, Answered, fence, refused, is_idle, saved, add_to_loop,
  add_to_made, add_point_route, remove_point_route, margin_route,
}

module _ {File : Type 0} (dumps : Json → File) (loads : File → Option Json) where
  -- The fence that is shown is in memory and in the file, or it is as before in both.
  abbrev pub Tells : AppState → Option File → Answered dumps loads → Type 0
  Tells before file (app, file', fence d) =
      (d ≡ to_dict app.workspace) × (file' ≡ some (save_workspace dumps loads app.workspace))
  Tells before file (app, file', refused code) = (app.workspace ≡ before.workspace) × (file' ≡ file)

  abbrev pub Told : AppState → Option File → Answered dumps loads → Type 0
  Told before file r = (r.0.config ≡ before.config) × Tells before file r

  ensure_loop-Same :
      (np : Numpy) (app : AppState) (opens : Bool)
      → let app' = (ensure_loop np app opens).0 in
        (app'.config ≡ app.config) × (app'.workspace ≡ app.workspace)
  unfolding ensure_loop
  ensure_loop-Same np app opens = ground arith

  add_to_loop-Told :
      (app : AppState) (s : ControlLoop) (file : Option File) (position : Option (Vec Axis))
      → Told app file (add_to_loop dumps loads s app file written position)
  add_to_loop-Told app s file position = elim (Bool-cases (is_idle s.state)) [
    | inl fresh ↦ rw fresh (refl, (refl, refl))
    | inr busy ↦ elim (Result-split (add_workspace_point s app.workspace position)) [
      | inr (e, fails) ↦ rw busy (rw fails (refl, (refl, refl)))
      | inl (ws, added) ↦ rw busy (rw added (refl, (refl, refl)))
    ]
  ]

  Tells-same :
      (app app' : AppState) (file : Option File) (r : Answered dumps loads)
      → app'.workspace ≡ app.workspace
      → Tells app' file r
      → Tells app file r
  Tells-same app app' file (a, file', fence d) workspace told = told
  Tells-same app app' file (a, file', refused code) workspace (same, old) = (same ∙ workspace, old)

  add_to_made-Told :
      (app : AppState) (r : AppState × Result ℕ ControlLoop) (file : Option File)
      (position : Option (Vec Axis))
      → r.0.config ≡ app.config
      → r.0.workspace ≡ app.workspace
      → Told app file (add_to_made dumps loads r file written position)
  add_to_made-Told app (app', err code) file position config workspace = (config, (workspace, refl))
  add_to_made-Told app (app', ok s) file position config workspace =
      let (kept, tells) = add_to_loop-Told app' s file position in
      (
        kept ∙ config,
        Tells-same app app' file (add_to_loop dumps loads s app' file written position) workspace
            tells,
      )

  -- A point is recorded, with a write that succeeds: whatever the cameras and the robot node do, the route
  -- shows the fence that is then in memory and in the file, or it refuses, with the fence as it was in both.
  -- The configuration stays.
  pub add_point_route-Told :
      (np : Numpy) (app : AppState) (file : Option File) (opens : Bool)
      (position : Option (Vec Axis))
      → Told app file (add_point_route dumps loads np app file written opens position)
  unfolding add_point_route
  add_point_route-Told np app file opens position =
      let (config, workspace) = ensure_loop-Same np app opens in
      add_to_made-Told app (ensure_loop np app opens) file position config workspace

  pub remove_point_route-Told :
      (as_int : Json → Option ℤ) (app : AppState) (file : Option File) (body : Fields)
      → Told app file (remove_point_route dumps loads as_int app file written body)
  unfolding remove_point_route
  remove_point_route-Told as_int app file body =
      elim (Option-cases (required "index" body as_int)) [
        | inl missing ↦ rw (missing, remove_point_route) (refl, (refl, refl))
        | inr (i, given) ↦ elim (Option-cases (remove_point app.workspace i)) [
          | inl out ↦
              rw (given, remove_point_route) (rw (out, remove_point_route) (refl, (refl, refl)))
          | inr (ws, gone) ↦
              rw (given, remove_point_route) (rw (gone, remove_point_route) (refl, (refl, refl)))
        ]
      ]

  pub margin_route-Told :
      (as_float : Json → Option Float) (app : AppState) (file : Option File) (body : Fields)
      → Told app file (margin_route dumps loads as_float app file written body)
  unfolding margin_route
  margin_route-Told as_float app file body = elim (Option-cases (required "margin" body as_float)) [
    | inl missing ↦ rw (missing, margin_route) (refl, (refl, refl))
    | inr (m, given) ↦ rw (given, margin_route) (refl, (refl, refl))
  ]

  -- The routes leave the configuration alone, however the write ends.
  pub saved-config :
      (app : AppState) (ws : WorkspaceBounds) (write : Write File)
      → (saved dumps loads app ws write).0.config ≡ app.config
  saved-config app ws written = refl
  saved-config app ws (breaks left) = refl

  pub remove_point_route-config :
      (as_int : Json → Option ℤ) (app : AppState) (file : Option File) (write : Write File)
      (body : Fields)
      → (remove_point_route dumps loads as_int app file write body).0.config ≡ app.config
  unfolding remove_point_route
  remove_point_route-config as_int app file written body = ground arith
  remove_point_route-config as_int app file (breaks left) body = ground arith

  pub margin_route-config :
      (as_float : Json → Option Float) (app : AppState) (file : Option File) (write : Write File)
      (body : Fields)
      → (margin_route dumps loads as_float app file write body).0.config ≡ app.config
  unfolding margin_route
  margin_route-config as_float app file written body = ground arith
  margin_route-config as_float app file (breaks left) body = ground arith

  add_to_made-config :
      (r : AppState × Result ℕ ControlLoop) (file : Option File) (write : Write File)
      (position : Option (Vec Axis))
      → (add_to_made dumps loads r file write position).0.config ≡ r.0.config
  add_to_made-config (app, err code) file write position = refl
  add_to_made-config (app, ok s) file written position = ground arith
  add_to_made-config (app, ok s) file (breaks left) position = ground arith

  pub add_point_route-config :
      (np : Numpy) (app : AppState) (file : Option File) (write : Write File) (opens : Bool)
      (position : Option (Vec Axis))
      → (add_point_route dumps loads np app file write opens position).0.config ≡ app.config
  unfolding add_point_route
  add_point_route-config np app file write opens position =
      add_to_made-config (ensure_loop np app opens) file write position
      ∙ (ensure_loop-Same np app opens).0

  start_cameras-some : (app : AppState) → (app' : AppState) × (start_cameras app true ≡ some app')
  start_cameras-some app = elim (Option-cases (start_cameras app true)) [
    | inl down ↦ absurd (opened down)
    | inr up ↦ up
  ]
    where
      opened : start_cameras app true ≢ none
      opened = ground arith

  start_cameras-loop :
      (app app' : AppState)
      → start_cameras app true ≡ some app'
      → app.loop ≡ none
      → app'.loop ≡ none
  start_cameras-loop app app' up off = ground arith

  start_cameras-config :
      (app app' : AppState) → start_cameras app true ≡ some app' → app'.config ≡ app.config
  start_cameras-config app app' up = ground arith

  ensure_loop-created :
      (np : Numpy) (app app' : AppState) (spec : RequestSpec)
      → app.loop ≡ none
      → app.config.request_spec ≡ some spec
      → start_cameras app true ≡ some app'
      → ensure_loop np app true ≡ with_new app' (new np app'.config.loop)
  unfolding ensure_loop
  ensure_loop-created np app app' spec off given opened =
      rw (off, ensure_loop) (rw (given, ensure_loop) (rw (opened, ensure_loop) refl))

  -- The weight is accepted, and the refusal leaves a session; or it is not, and there is none.
  abbrev pub Created :
      Numpy → Option File → Write File → Fields → Float → Answered dumps loads → Type 0
  Created np config_file write body alpha (app, file, reply) =
      ((nought <ℤ alpha)
        × (alpha ≤ℤ one np)
        × (reply ≡ refused 400)
        × (app.loop ≡ some new_loop)
        × (set_config np dumps loads app config_file write body ≡ (app, config_file, 409)))
      ⊎ (((alpha ≤ℤ nought) ⊎ (one np <ℤ alpha)) × (reply ≡ refused 500) × (app.loop ≡ none))

  with_new-Created :
      (np : Numpy) (app : AppState) (file config_file : Option File)
      (on_fence on_config : Write File) (position : Option (Vec Axis)) (body : Fields)
      (cfg : LoopConfig)
      → app.loop ≡ none
      → Created np config_file on_config body cfg.ema_alpha
          (add_to_made dumps loads (with_new app (new np cfg)) file on_fence position)
  unfolding set_config new
  with_new-Created np app file config_file on_fence on_config position body cfg off =
      elim (Smoothing.make_lem np {D = Joint} cfg.ema_alpha) [
        | inl (fails, outside) ↦ rw (fails, new) (inr (outside, refl, off))
        | inr (s, fine, above, below, _) ↦ rw (fine, new) (inl (above, below, refl, refl, refl))
      ]

  -- Without a session, with a request specification and cameras that open: if the loop accepts the smoothing
  -- weight of the configuration, recording a point is refused with a 400 but leaves a new session, so that
  -- every later change of the configuration is refused with a 409. A weight outside (0, 1] makes it a 500, and
  -- there is no session.
  pub add_point_route-new :
      (np : Numpy) (app : AppState) (file config_file : Option File)
      (on_fence on_config : Write File) (position : Option (Vec Axis)) (spec : RequestSpec)
      (body : Fields)
      → app.loop ≡ none
      → app.config.request_spec ≡ some spec
      → Created np config_file on_config body app.config.loop.ema_alpha
          (add_point_route dumps loads np app file on_fence true position)
  unfolding add_point_route
  add_point_route-new np app file config_file on_fence on_config position spec body off given =
      let (app', opened) = start_cameras-some app in
      let off' = start_cameras-loop app app' opened off in
      rw (ensure_loop-created np app app' spec off given opened, add_point_route)
        (subst
          (λ (cfg : AppConfig). Created np config_file on_config body cfg.loop.ema_alpha (
            add_to_made dumps loads (with_new app' (new np app'.config.loop)) file on_fence
              position))
          (start_cameras-config app app' opened)
          (with_new-Created np app' file config_file on_fence on_config position body
            app'.config.loop off'))
