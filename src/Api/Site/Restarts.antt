-- ===== src/Api/Site/Restarts.antt =====
-- A restart finds the fence and the configuration as they were.
use franka_deploy.Common.{
  ◌≡◌, refl, ◌≢◌, ◌∙◌, ap, Bool, true, false, Option, none, some, List, All, arith, [], ◌∷◌, ℤ,
  Float, Numpy, inl, inr,
}
use franka_deploy.Safety.Workspace.{WorkspaceBounds, clear}
use franka_deploy.Schema.Spec.{RequestSpec}
use franka_deploy.Schema.Json.{Json, object, Fields}
use franka_deploy.Control.Loop.{ControlLoop}
use franka_deploy.Api.State.{AppConfig, AppState, Write, written}
use franka_deploy.Api.Persist.{
  Changing, config_to_dict, load_config_into, set_config_in, set_config,
}
use franka_deploy.Api.Persist.Roundtrip.{or_else}
use franka_deploy.Api.Persist.Changes.{set_config_in_cases}
use franka_deploy.Api.Fence.{
  load_workspace_into, Answered, add_point_route, remove_point_route, clear_route, margin_route,
}
use franka_deploy.Api.Fence.Replies.{
  Told, saved-config, add_point_route-config, remove_point_route-config, margin_route-config,
  add_point_route-Told, remove_point_route-Told, margin_route-Told,
}
use franka_deploy.Api.Site.Fences.{
  step-Same, FencesBack, load_workspace_into-save_workspace, fence_of_Told,
}
use franka_deploy.Api.Site.{
  Site, Request, controls, configures, adds_point, removes_point, clears, sets_margin, serve,
  session, start_app, default_config, default_workspace, config_status, app_with, app_of, begun,
  on_fence,
}

module _ {File : Type 0} (dumps : Json → File) (loads : File → Option Json) where
  -- `json.loads` reads what `json.dumps` wrote.
  abbrev pub ConfigsBack : Type 0
  ConfigsBack =
      (cfg : AppConfig)
      → loads (dumps (object (config_to_dict cfg))) ≡ some (object (config_to_dict cfg))

  module _ (np : Numpy) (as_int : Json → Option ℤ) (as_float : Json → Option Float) where
    abbrev pub FenceSaved : Site File → Type 0
    FenceSaved site =
        load_workspace_into dumps loads np (default_workspace np) site.workspace_file
        ≡ (site.app.workspace, true)

    set_config_in-workspace :
        (o : Option ControlLoop) (app : AppState) (file : Option File) (write : Write File)
        (body : Fields)
        → (set_config_in np dumps loads o app file write body).0.workspace ≡ app.workspace
    set_config_in-workspace (some s) app file write body = refl
    set_config_in-workspace none app file write body = ground arith

    -- The write of the fence that a request does raises nothing.
    abbrev pub Writes : Request File → Type 0
    Writes (controls e) = Unit
    Writes (configures write body) = Unit
    Writes (adds_point write opens position) = write ≡ written
    Writes (removes_point write body) = write ≡ written
    Writes (clears write) = write ≡ written
    Writes (sets_margin write body) = write ≡ written

    serve-Told :
        (site : Site File) (r : Answered dumps loads)
        → FencesBack dumps loads
        → Told dumps loads site.app site.workspace_file r
        → FenceSaved site
        → FenceSaved (on_fence np dumps loads site r)
    serve-Told site r back told h =
        fence_of_Told dumps loads np site.app site.workspace_file r back told h

    serve-FenceSaved :
        (site : Site File) (r : Request File)
        → FencesBack dumps loads
        → Writes r
        → FenceSaved site
        → FenceSaved (serve np dumps loads as_int as_float site r)
    unfolding serve clear_route set_config
    serve-FenceSaved site (controls e) back fine h = rw (step-Same np site.app e).1 h
    serve-FenceSaved site (configures write body) back fine h =
        rw (set_config_in-workspace site.app.loop site.app site.config_file write body) h
    serve-FenceSaved site (adds_point write opens position) back fine h = rw fine (
        serve-Told site
          (add_point_route dumps loads np site.app site.workspace_file written opens position) back
          (add_point_route-Told dumps loads np site.app site.workspace_file opens position) h)
    serve-FenceSaved site (removes_point write body) back fine h = rw fine (
        serve-Told site
          (remove_point_route dumps loads as_int site.app site.workspace_file written body) back
          (remove_point_route-Told dumps loads as_int site.app site.workspace_file body) h)
    serve-FenceSaved site (clears write) back fine h = rw fine (
        load_workspace_into-save_workspace dumps loads np (clear site.app.workspace)
          (default_workspace np) back)
    serve-FenceSaved site (sets_margin write body) back fine h = rw fine (
        serve-Told site
          (margin_route dumps loads as_float site.app site.workspace_file written body) back
          (margin_route-Told dumps loads as_float site.app site.workspace_file body) h)

    -- Whatever requests a session consists of, and however they fail otherwise, as long as no write of the fence
    -- raises, the file of the fence holds the fence that is in memory, if it did before: a new process that
    -- loads it has the same points and margin. `json.loads` reads what `json.dumps` wrote of a fence.
    pub session-FenceSaved :
        (site : Site File) (rs : List (Request File))
        → FencesBack dumps loads
        → All Writes rs
        → FenceSaved site
        → FenceSaved (session np dumps loads as_int as_float site rs)
    unfolding session
    session-FenceSaved site [] back fine h = h
    session-FenceSaved site (r ∷ rs) back fine h =
        session-FenceSaved (serve np dumps loads as_int as_float site r) rs back fine.1
          (serve-FenceSaved site r back fine.0 h)

    -- No request to change the configuration raises, on the way or in the write. A body with a value of a wrong
    -- type, other than an int for a float, counts as one that raises here.
    abbrev pub NoneRaises : Site File → List (Request File) → Type 0
    NoneRaises site [] = Unit
    NoneRaises site (r ∷ rs) =
        (config_status np dumps loads site r ≢ 500)
        × NoneRaises (serve np dumps loads as_int as_float site r) rs

    abbrev ConfigSaved : Site File → Type 0
    ConfigSaved site =
        load_config_into np dumps loads (default_config np) site.config_file
        ≡ (site.app.config, true)

    or_else-none : (o : Option RequestSpec) → or_else o none ≡ o
    or_else-none none = refl
    or_else-none (some s) = refl

    serve-ConfigSaved :
        (site : Site File) (r : Request File)
        → ConfigsBack
        → config_status np dumps loads site r ≢ 500
        → ConfigSaved site
        → ConfigSaved (serve np dumps loads as_int as_float site r)
    unfolding serve config_status clear_route set_config default_config
    serve-ConfigSaved site (controls e) configs fine h = rw (step-Same np site.app e).0 h
    serve-ConfigSaved site (configures write body) configs fine h =
        elim (set_config_in_cases np dumps loads site.app.loop site.app site.config_file write body
          configs refl) [
            | inl (busy, same, file, status) ↦ rw (same, file) h
            | inr (inl (raised, off, file, status)) ↦ absurd (fine status)
            | inr (inr (inl (off, changed, unwritten, status))) ↦ absurd (fine status)
            | inr (inr (inr (off, status, kept))) ↦
                let cfg =
                  (set_config np dumps loads site.app site.config_file write body).0.config in
                kept (default_config np)
                ∙ ap (λ o. (record cfg { request_spec = o }, true)) (or_else-none cfg.request_spec)
          ]
    serve-ConfigSaved site (adds_point write opens position) configs fine h =
        rw (add_point_route-config dumps loads np site.app site.workspace_file write opens position)
          h
    serve-ConfigSaved site (removes_point write body) configs fine h =
        rw (remove_point_route-config dumps loads as_int site.app site.workspace_file write body) h
    serve-ConfigSaved site (clears write) configs fine h =
        rw (saved-config dumps loads site.app (clear site.app.workspace) write) h
    serve-ConfigSaved site (sets_margin write body) configs fine h =
        rw (margin_route-config dumps loads as_float site.app site.workspace_file write body) h

    session-ConfigSaved :
        (site : Site File) (rs : List (Request File))
        → ConfigsBack
        → NoneRaises site rs
        → ConfigSaved site
        → ConfigSaved (session np dumps loads as_int as_float site rs)
    unfolding session
    session-ConfigSaved site [] configs fine h = h
    session-ConfigSaved site (r ∷ rs) configs fine h =
        session-ConfigSaved (serve np dumps loads as_int as_float site r) rs configs fine.1
          (serve-ConfigSaved site r configs fine.0 h)

    start_app_of :
        (site : Site File)
        → FenceSaved site
        → ConfigSaved site
        → start_app np dumps loads site.config_file site.workspace_file
          ≡ some (app_with np dumps loads site.app.config site.app.workspace)
    unfolding start_app
    start_app_of site shown h = rw (h, start_app) (rw (shown, start_app) refl)

    app_of-some :
        (c : Changing) (w : WorkspaceBounds × Bool) (app : AppState)
        → app_of np dumps loads c w ≡ some app
        → (w ≡ (app.workspace, true)) × (c ≡ (app.config, true))
    app_of-some (config, true) (workspace, true) app e = ground (arith, e)
    app_of-some (config, true) (workspace, false) app e = cc
    app_of-some (config, false) w app e = cc

    started_saved :
        (config_file workspace_file : Option File) (app : AppState)
        → start_app np dumps loads config_file workspace_file ≡ some app
        → let site = begun np dumps loads app config_file workspace_file in
          FenceSaved site × ConfigSaved site
    unfolding start_app
    started_saved config_file workspace_file app started =
        app_of-some (load_config_into np dumps loads (default_config np) config_file)
          (load_workspace_into dumps loads np (default_workspace np) workspace_file) app started

    -- A process that started over some files and served any requests, of which no write of the fence raised, and
    -- no change of the configuration raised or set a value of another type than its field's: a new process over the files that are there at the end starts, with
    -- the same configuration and the same fence, and with no session and no camera. `json.loads` reads what
    -- `json.dumps` wrote of a fence and of a configuration.
    pub start_app-session :
        (config_file workspace_file : Option File) (app : AppState) (rs : List (Request File))
        → FencesBack dumps loads
        → ConfigsBack
        → All Writes rs
        → start_app np dumps loads config_file workspace_file ≡ some app
        → let site = begun np dumps loads app config_file workspace_file in
          NoneRaises site rs
          → let site' = session np dumps loads as_int as_float site rs in
            start_app np dumps loads site'.config_file site'.workspace_file
            ≡ some (app_with np dumps loads site'.app.config site'.app.workspace)
    start_app-session config_file workspace_file app rs fences configs writes started fine =
        let site = begun np dumps loads app config_file workspace_file in
        let (shown, config) = started_saved config_file workspace_file app started in
        start_app_of (session np dumps loads as_int as_float site rs)
          (session-FenceSaved site rs fences writes shown)
          (session-ConfigSaved site rs configs fine config)
