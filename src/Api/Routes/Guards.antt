-- ===== src/Api/Routes/Guards.antt =====
-- Which requests the routes accept, and what each leaves behind.
use franka_deploy.Common.{
  ◌+◌, ◌≡◌, refl, ◌⊎◌, inl, inr, ◌≢◌, arith, Bool, true, false, Numpy, none, some, ok, err,
  if◌then◌else◌, Bool-cases, Result-cases,
}
use franka_deploy.Control.Loop.{
  State, idle, connected, detecting, awaiting_confirm, armed, running, stopped, error, ControlLoop,
  Start, Exception, is_live, connect, start, launch,
}
use franka_deploy.Api.State.{AppState}
use franka_deploy.Api.Routes.{state_is, status, put, start_route, accepts_start, reply_500}

accepts_start_iff : (st : State) → accepts_start st ≡ true → (st ≡ armed) ⊎ (st ≡ stopped)
accepts_start_iff armed h = inl refl
accepts_start_iff stopped h = inr refl
accepts_start_iff idle h = cc
accepts_start_iff connected h = cc
accepts_start_iff detecting h = cc
accepts_start_iff awaiting_confirm h = cc
accepts_start_iff running h = cc
accepts_start_iff error h = cc

-- On an existing loop, in terms of the call of the loop.
start_route-some :
    (np : Numpy) (app : AppState) (opens : Bool) (env : Start) (s : ControlLoop)
    → app.loop ≡ some s
    → start_route np app opens env
      ≡ (if accepts_start s.state then reply_500 app (start s env) else (app, status 409))
unfolding start_route
start_route-some np app opens env s l = ground arith

-- A start that raises nothing: what was there before, and what is there after.
start_ok :
    (s : ControlLoop) (env : Start)
    → (start s env).1 ≡ ok tt
    → (s.adapter ≢ none)
      × ((start s env).0.adapter ≡ s.adapter)
      × ((start s env).0.runtime ≡ some false)
      × ((start s env).0.state ≡ running)
      × ((start s env).0.stop_evt ≡ false)
      × ((start s env).0.strays ≡ s.strays + is_live s.thread)
unfolding start launch connect
start_ok s env e = ground arith

start_fails :
    (s : ControlLoop) (env : Start) (e : Exception)
    → (start s env).1 ≡ err e
    → ((start s env).0.adapter ≡ s.adapter)
      × ((start s env).0.thread ≡ s.thread)
      × ((start s env).0.strays ≡ s.strays)
unfolding start launch connect
start_fails s env e h = ground arith

-- On a loop, a start is refused unless the loop is armed or stopped; or it raises, with no thread more
-- or less; or it leaves the loop running on live targets, with a new thread beside those that were
-- alive. The last needs a confirmed format.
pub start_route_cases :
    (np : Numpy) (app : AppState) (opens : Bool) (env : Start) (s : ControlLoop)
    → app.loop ≡ some s
    → let s' = (start s env).0 in
      ((start_route np app opens env ≡ (app, status 409)) × (s.state ≢ armed) × (s.state ≢ stopped))
      ⊎ ((start_route np app opens env ≡ (put app s', status 500))
          × (s'.thread ≡ s.thread)
          × (s'.strays ≡ s.strays))
      ⊎ ((start_route np app opens env ≡ (put app s', state_is running))
          × ((s.state ≡ armed) ⊎ (s.state ≡ stopped))
          × (s.adapter ≢ none)
          × (s'.runtime ≡ some false)
          × (s'.stop_evt ≡ false)
          × (s'.strays ≡ s.strays + is_live s.thread))
start_route_cases np app opens env s l = elim (Bool-cases (accepts_start s.state)) [
  | inr no_start ↦ inl (
    rw (start_route-some np app opens env s l, no_start),
    λ e. ground (arith, e),
    λ e. ground (arith, e),
  )
  | inl may ↦ elim (Result-cases (start s env).1) [
    | inr (e, failed) ↦
        let (_, same, strays) = start_fails s env e failed in
        inr (
          inl (
            rw (start_route-some np app opens env s l, may) (ground (arith, failed)),
            same,
            strays,
          ))
    | inl done ↦
        let (adapter, _, live, st, evt, strays) = start_ok s env done in
        inr (
          inr (
            rw (start_route-some np app opens env s l, may) (ground (arith, done, st)),
            accepts_start_iff s.state may,
            adapter,
            live,
            evt,
            strays,
          ))
  ]
]
