-- ===== src/Api/Persist/Changes.antt =====
-- What a change of the configuration leaves in memory and on disk.
use franka_deploy.Common.{
  ℕ, ◌≡◌, refl, true, false, Bool-cases, Option, none, some, ◌⊎◌, inl, inr, Numpy,
}
use franka_deploy.Schema.Json.{Json, object, Fields}
use franka_deploy.Control.Loop.{ControlLoop}
use franka_deploy.Api.State.{AppConfig, AppState, Write, written, breaks}
use franka_deploy.Api.Persist.{
  config_to_dict, change_by, load_config_into, stored, set_config_in, set_config,
}
use franka_deploy.Api.Persist.Types.{IsTyped}
use franka_deploy.Api.Persist.Roundtrip.{or_else, load_config_into-save_config}
use franka_deploy.Api.Persist.Raises.{Unreadable, change_by-raised}

module _ (np : Numpy) {File : Type 0} (dumps : Json → File) (loads : File → Option Json) where
  -- A session is running.
  abbrev pub Refused : AppState → Option File → AppState × Option File × ℕ → Type 0
  Refused app file (app', file', status) =
      ((s : ControlLoop) × (app.loop ≡ some s)) × (app' ≡ app) × (file' ≡ file) × (status ≡ 409)

  -- The request raises on the way.
  abbrev pub Raised : AppState → Option File → Fields → AppState × Option File × ℕ → Type 0
  Raised app file body (app', file', status) =
      (app'.loop ≡ none) × Unreadable np body × (file' ≡ file) × (status ≡ 500)

  -- The configuration is changed, but not saved.
  abbrev pub Unsaved : AppState → Fields → Write File → AppState × Option File × ℕ → Type 0
  Unsaved app body write (app', file', status) =
      (app'.loop ≡ none)
      × (app'.config ≡ (change_by np body app.config).0)
      × (write ≡ breaks file')
      × (status ≡ 500)

  -- Whatever configuration a restart begins with, it loads the one that is in memory now.
  abbrev pub Kept : AppState × Option File × ℕ → Type 0
  Kept (app', file', status) =
      (app'.loop ≡ none)
      × (status ≡ 200)
      × ((other : AppConfig)
          → load_config_into np dumps loads other file' ≡ (
            record app'.config {
              request_spec = or_else app'.config.request_spec other.request_spec;
            },
            true,
          ))

  pub set_config_in_cases :
      (o : Option ControlLoop) (app : AppState) (file : Option File) (write : Write File)
      (body : Fields)
      → ((cfg : AppConfig)
          → loads (dumps (object (config_to_dict cfg))) ≡ some (object (config_to_dict cfg)))
      → app.loop ≡ o
      → let r = set_config_in np dumps loads o app file write body in
        Refused app file r
        ⊎ (((change_by np body app.config).1 ≡ false)
            × (r.0.loop ≡ none)
            × (r.1 ≡ file)
            × (r.2 ≡ 500))
        ⊎ Unsaved app body write r
        ⊎ Kept r
  set_config_in_cases (some s) app file write body back on = inl ((s, on), refl, refl, refl)
  set_config_in_cases none app file write body back off =
      elim (Bool-cases (change_by np body app.config).1) [
        | inr raised ↦ rw (raised, set_config_in) (inr (inl (refl, off, refl, refl)))
        | inl fine ↦ rw (fine, set_config_in) (inr (inr (end write)))
      ]
    where
      end :
          (w : Write File)
          → let r =
              stored np dumps loads (record app { config = (change_by np body app.config).0 }) w in
            Unsaved app body w r ⊎ Kept r
      end (breaks left) = inl (off, refl, refl, refl)
      end written =
          let cfg = (change_by np body app.config).0 in
          inr (off, refl, λ other. load_config_into-save_config np cfg dumps loads other (back cfg))

  -- A change of the configuration is refused with a 409 and without effect while there is a session. Else,
  -- for a body whose values have the types that are declared, an int standing for a float: it is a 500
  -- that leaves the file as it was, and then a camera, the request specification or the loop of the body
  -- could not be read; or the write raises, a 500 with the change in memory and the file as the write leaves it;
  -- or it is saved so that a restart loads what is in memory. `json.loads` reads what `json.dumps` wrote.
  pub set_config_cases :
      (app : AppState) (file : Option File) (write : Write File) (body : Fields)
      → IsTyped body
      → ((cfg : AppConfig)
          → loads (dumps (object (config_to_dict cfg))) ≡ some (object (config_to_dict cfg)))
      → let r = set_config np dumps loads app file write body in
        Refused app file r ⊎ Raised app file body r ⊎ Unsaved app body write r ⊎ Kept r
  unfolding set_config
  set_config_cases app file write body typed back =
      elim (set_config_in_cases app.loop app file write body back refl) [
        | inl refused ↦ inl refused
        | inr (inl (raised, off, file_same, status)) ↦
            inr (inl (off, change_by-raised np body app.config typed raised, file_same, status))
        | inr (inr saved) ↦ inr (inr saved)
      ]
