-- ===== src/Api/Routes/Motion.antt =====
-- When a policy thread can be alive.
use franka_deploy.Common.{
  ◌<◌, ◌≡◌, ◌⊎◌, ◌≢◌, arith, Bool, true, false, Numpy, Option, none, some, List, [], ◌∷◌, All,
}
use franka_deploy.Schema.Spec.{ActionSpaceSpec, DetectionResult}
use franka_deploy.Control.Loop.{
  State, idle, connected, awaiting_confirm, error, ControlLoop, Start, Join, known_rotation,
  connect, detect, confirm, start, launch, stop, estop,
}
use franka_deploy.Api.State.{AppState}
use franka_deploy.Api.Routes.{
  Event, connects, detects, confirms, starts, stops, estops, disconnects, leaves_loop,
  fails_in_loop, step, run, state_is, status, connect_route, detect_route, confirm_route,
  start_route, stop_route, estop_route, disconnect_route,
}

abbrev pub is_confirm : Event → Bool
is_confirm (confirms opens spec) = true
is_confirm (connects a b c) = false
is_confirm (detects a b) = false
is_confirm (starts a b) = false
is_confirm (stops j) = false
is_confirm (estops j h) = false
is_confirm (disconnects j h) = false
is_confirm leaves_loop = false
is_confirm fails_in_loop = false

-- No format has been confirmed and no policy thread was ever started.
abbrev pub Still : Option ControlLoop → Type 0
Still none = Unit
Still (some s) = (s.adapter ≡ none) × (s.thread ≡ none) × (s.strays ≡ 0)

step-Still :
    (np : Numpy) (app : AppState) (e : Event)
    → is_confirm e ≡ false
    → Still app.loop
    → Still (step np app e).loop
unfolding step connect_route detect_route start_route stop_route estop_route disconnect_route
    connect detect start launch stop estop
step-Still np app (connects opens read_only answers) c h = ground arith
step-Still np app (detects opens found) c h = ground arith
step-Still np app (confirms opens spec) c h = cc
step-Still np app (starts opens env) c h = ground arith
step-Still np app (stops j) c h = ground arith
step-Still np app (estops j halts) c h = ground arith
step-Still np app (disconnects j halts) c h = ground arith
step-Still np app leaves_loop c h = ground arith
step-Still np app fails_in_loop c h = ground arith

-- From an app with no loop, requests and thread ends without a confirmation never start a policy
-- thread: whatever the robot node, the server and the cameras do, none is alive at the end.
pub run-Still :
    (np : Numpy) (app : AppState) (es : List Event)
    → app.loop ≡ none
    → All (λ e. is_confirm e ≡ false) es
    → Still (run np app es).loop
unfolding run
run-Still np app es fresh c = go app es (rw fresh tt) c
  where
    go :
        (a : AppState) (fs : List Event)
        → Still a.loop
        → All (λ e. is_confirm e ≡ false) fs
        → Still (run np a fs).loop
    go a [] h c = h
    go a (f ∷ fs) h c = go (step np a f) fs (step-Still np a f c.0 h) c.1

-- The events that leave the mode, the format and the threads of a loop alone.
abbrev pub Untouched : ControlLoop → Option ControlLoop → Type 0
Untouched s none = ⊥
Untouched s (some s') =
    (s'.runtime ≡ s.runtime)
    × (s'.adapter ≡ s.adapter)
    × (s'.thread ≡ s.thread)
    × (s'.strays ≡ s.strays)
    × (s'.stop_evt ≡ s.stop_evt)

-- A detection is accepted only on a loop that is connected or awaits a confirmation; then the state
-- tells whether it succeeded. It never touches the connection's mode, the confirmed format or a thread.
pub detect_route_cases :
    (np : Numpy) (app : AppState) (opens : Bool) (found : Option DetectionResult) (s : ControlLoop)
    → app.loop ≡ some s
    → Untouched s (detect_route np app opens found).0.loop
      × (((detect_route np app opens found ≡ (app, status 409))
            × (s.state ≢ connected)
            × (s.state ≢ awaiting_confirm))
          ⊎ (((s.state ≡ connected) ⊎ (s.state ≡ awaiting_confirm))
              × (((found ≡ none) × ((detect_route np app opens found).1 ≡ status 500))
                  ⊎ ((found ≢ none)
                      × ((detect_route np app opens found).1 ≡ state_is awaiting_confirm)))))
unfolding detect_route detect
detect_route_cases np app opens found s l = ground arith

abbrev pub InState : State → Option ControlLoop → Type 0
InState st none = ⊥
InState st (some s) = s.state ≡ st

-- The requests that can bring a loop out of an error.
abbrev pub recovers : Event → Bool
recovers (connects a b c) = true
recovers (confirms a b) = true
recovers (disconnects j h) = true
recovers (detects a b) = false
recovers (starts a b) = false
recovers (stops j) = false
recovers (estops j h) = false
recovers leaves_loop = false
recovers fails_in_loop = false

step-error :
    (np : Numpy) (app : AppState) (e : Event)
    → recovers e ≡ false
    → InState error app.loop
    → InState error (step np app e).loop
unfolding step detect_route start_route stop_route estop_route detect start launch connect stop
    estop
step-error np app (connects opens read_only answers) c h = cc
step-error np app (detects opens found) c h = ground arith
step-error np app (confirms opens spec) c h = cc
step-error np app (starts opens env) c h = ground arith
step-error np app (stops j) c h = ground arith
step-error np app (estops j halts) c h = ground arith
step-error np app (disconnects j halts) c h = cc
step-error np app leaves_loop c h = ground arith
step-error np app fails_in_loop c h = ground arith

-- An error stays until a request connects, confirms or disconnects: no start, stop, emergency stop or
-- detection clears it.
pub run-error :
    (np : Numpy) (app : AppState) (es : List Event)
    → InState error app.loop
    → All (λ e. recovers e ≡ false) es
    → InState error (run np app es).loop
unfolding run
run-error np app [] h c = h
run-error np app (e ∷ es) h c = run-error np (step np app e) es (step-error np app e c.0 h) c.1

-- Two threads: the one of the last start, and a stray.
abbrev pub TwoThreads : Option ControlLoop → Type 0
TwoThreads none = ⊥
TwoThreads (some s) = (s.thread ≡ some true) × (0 < s.strays)

abbrev pub smooth_start : Start
smooth_start = record { resets = true; connects = true; reads = true; fails_at_once = false }

-- A confirmation is accepted while a policy thread runs, and a start after it: two threads are then
-- alive on one robot.
pub TwoThreads-confirm :
    (np : Numpy) (app : AppState) (s : ControlLoop) (spec : ActionSpaceSpec)
    → app.loop ≡ some s
    → s.thread ≡ some true
    → known_rotation spec.rotation_repr ≡ true
    → TwoThreads (run np app (confirms true spec ∷ starts true smooth_start ∷ [])).loop
unfolding run step confirm_route start_route confirm start launch connect
TwoThreads-confirm np app s spec l alive known = ground arith

-- So it is when the join of a stop times out before the next start.
pub TwoThreads-stop :
    (np : Numpy) (app : AppState) (s : ControlLoop)
    → app.loop ≡ some s
    → s.thread ≡ some true
    → s.adapter ≢ none
    → s.state ≢ error
    → TwoThreads (run np app (stops Join.times_out ∷ starts true smooth_start ∷ [])).loop
unfolding run step stop_route start_route stop start launch connect
TwoThreads-stop np app s l alive confirmed fine = ground arith

-- A disconnection leaves no loop and an idle app, unless the robot node refuses to halt: then the
-- stopped loop stays, and the reply is a 500.
pub disconnect_route_cases :
    (app : AppState) (j : Join) (halts : Bool) (s : ControlLoop)
    → app.loop ≡ some s
    → ((halts ≡ true) ⊎ (s.runtime ≡ none)
        → ((disconnect_route app j halts).0.loop ≡ none)
          × ((disconnect_route app j halts).1 ≡ state_is idle))
      × (halts ≡ false
          → s.runtime ≢ none
          → ((disconnect_route app j halts).0.loop ≡ some (stop s j))
            × ((disconnect_route app j halts).1 ≡ status 500))
unfolding disconnect_route estop stop
disconnect_route_cases app j halts s l = ground arith
