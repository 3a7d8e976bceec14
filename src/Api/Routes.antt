-- ===== src/Api/Routes.antt =====
-- franka_deploy/api/routes_control.py: the staged rollout over HTTP.
pub mod Guards
pub mod Motion
use Prim.Native.String.{String}
use franka_deploy.Common.{
  ℕ, Bool, true, false, ◌||◌, Option, none, some, List, [], ◌∷◌, ℤ, Float, Vec, Numpy, map, Result,
  ok, err, if◌then◌else◌,
}
use franka_deploy.Schema.Spec.{ActionSpaceSpec, DetectionResult}
use franka_deploy.Safety.Workspace.{Axis, add_point, remove_point, clear}
use franka_deploy.Control.Loop.{
  State, idle, connected, detecting, awaiting_confirm, armed, running, stopped, error, ControlLoop,
  Start, Join, new, connect, detect, confirm, start, stop, estop, thread_leaves, thread_fails,
}
use franka_deploy.Api.State.{AppState, AppConfig, CameraConfig}

-- A route answers with the session's state, or with the status of an `HTTPException`; an exception
-- that the route does not catch is a 500 as well.
pub data Reply : Type 0 where
  state_is : State → Reply
  status : ℕ → Reply

abbrev pub Handled : Type 0
Handled = AppState × Reply

-- The app with its loop.
abbrev pub put : AppState → ControlLoop → AppState
put app s = record app { loop = some s }

-- `opens` says whether the cameras open; a loop is created once.
abbrev pub start_cameras : AppState → Bool → Option AppState
start_cameras app opens = elim app.roles [
  | role ∷ roles ↦ some app
  | [] ↦ elim app.config.cameras [
    | [] ↦ some app
    | c ∷ cs ↦
        if opens
        then some (record app { roles = map (λ (k : CameraConfig). k.role) (c ∷ cs) })
        else none
  ]
]

-- A `ValueError` of the constructor comes when the cameras have been started.
abbrev pub with_new : AppState → Option ControlLoop → AppState × Result ℕ ControlLoop
with_new app none = (app, err 500)
with_new app (some s) = (put app s, ok s)

unfoldable pub ensure_loop : Numpy → AppState → Bool → AppState × Result ℕ ControlLoop
unfolding new
ensure_loop np app opens = elim app.loop [
  | some s ↦ (app, ok s)
  | none ↦ elim app.config.request_spec [
    | none ↦ (app, err 400)
    | some spec ↦ elim (start_cameras app opens) [
      | none ↦ (app, err 500)
      | some app' ↦ with_new app' (new np app'.config.loop)
    ]
  ]
]

abbrev pub body_with :
    (AppState → ControlLoop → Handled) → AppState × Result ℕ ControlLoop → Handled
body_with body (app, err code) = (app, status code)
body_with body (app, ok s) = body app s

abbrev pub with_loop : Numpy → AppState → Bool → (AppState → ControlLoop → Handled) → Handled
with_loop np app opens body = body_with body (ensure_loop np app opens)

-- The reply of a route that turns every exception into a 500.
abbrev pub reply_500 {ℓ} : {E : Type ℓ} → AppState → ControlLoop × Result E (Unit {0}) → Handled
reply_500 app (s, ok _) = (put app s, state_is s.state)
reply_500 app (s, err e) = (put app s, status 500)

unfoldable pub connect_route : Numpy → AppState → Bool → Bool → Bool → Handled
unfolding ensure_loop
connect_route np app opens read_only answers =
    with_loop np app opens λ app' s. reply_500 app' (connect s read_only answers)

abbrev pub accepts_detect : State → Bool
accepts_detect connected = true
accepts_detect awaiting_confirm = true
accepts_detect _ = false

unfoldable pub detect_route : Numpy → AppState → Bool → Option DetectionResult → Handled
unfolding ensure_loop
detect_route np app opens found =
    with_loop np app opens λ app' s.
      if accepts_detect s.state then reply_500 app' (detect s found) else (app', status 409)

-- There is no guard on the state here.
unfoldable pub confirm_route : Numpy → AppState → Bool → ActionSpaceSpec → Handled
unfolding ensure_loop
confirm_route np app opens spec = with_loop np app opens λ app' s. reply_500 app' (confirm s spec)

abbrev pub accepts_start : State → Bool
accepts_start armed = true
accepts_start stopped = true
accepts_start _ = false

unfoldable pub start_route : Numpy → AppState → Bool → Start → Handled
unfolding ensure_loop
start_route np app opens env =
    with_loop np app opens
      λ app' s. if accepts_start s.state then reply_500 app' (start s env) else (app', status 409)

unfoldable pub stop_route : AppState → Join → Handled
stop_route app j = elim app.loop [
  | none ↦ (app, state_is idle)
  | some s ↦ let s' = stop s j in (put app s', state_is s'.state)
]

unfoldable pub estop_route : AppState → Join → Bool → Handled
estop_route app j halts = elim app.loop [
  | none ↦ (app, state_is idle)
  | some s ↦ reply_500 app (estop s j halts)
]

abbrev pub released {ℓ} : {E : Type ℓ} → AppState → ControlLoop × Result E (Unit {0}) → Handled
released app (s, ok _) = (record app { loop = none }, state_is idle)
released app (s, err e) = (put app s, status 500)

-- If `estop` raises, the loop is not released.
unfoldable pub disconnect_route : AppState → Join → Bool → Handled
disconnect_route app j halts = elim app.loop [
  | none ↦ (app, state_is idle)
  | some s ↦ released app (estop s j halts)
]

-- What can happen to the app: a request, or the end of the policy thread.
pub data Event : Type 0 where
  connects : Bool → Bool → Bool → Event
  detects : Bool → Option DetectionResult → Event
  confirms : Bool → ActionSpaceSpec → Event
  starts : Bool → Start → Event
  stops : Join → Event
  estops disconnects : Join → Bool → Event
  leaves_loop fails_in_loop : Event

abbrev pub on_loop : AppState → (ControlLoop → ControlLoop) → AppState
on_loop app f = elim app.loop [ none ↦ app | some s ↦ put app (f s) ]

unfoldable pub step : Numpy → AppState → Event → AppState
unfolding thread_leaves thread_fails
step np app (connects opens read_only answers) = (connect_route np app opens read_only answers).0
step np app (detects opens found) = (detect_route np app opens found).0
step np app (confirms opens spec) = (confirm_route np app opens spec).0
step np app (starts opens env) = (start_route np app opens env).0
step np app (stops j) = (stop_route app j).0
step np app (estops j halts) = (estop_route app j halts).0
step np app (disconnects j halts) = (disconnect_route app j halts).0
step np app leaves_loop = on_loop app thread_leaves
step np app fails_in_loop = on_loop app thread_fails

unfoldable pub run : Numpy → AppState → List Event → AppState
run np app [] = app
run np app (e ∷ es) = run np (step np app e) es
