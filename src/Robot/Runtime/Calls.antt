-- ===== src/Robot/Runtime/Calls.antt =====
-- The calls of a user of the runtime that wait for its thread: the blocking move, the stop, and the
-- constructor.
use franka_deploy.Common.{
  Bool, true, false, not, ◌&&◌, ◌||◌, Option, none, some, List, [], ◌∷◌, Float, Vec, nought, Numpy,
  Result, ok, err, if◌then◌else◌,
}
use franka_deploy.Safety.Limits.{Joint}
use franka_deploy.Robot.ReferenceFilter
use franka_deploy.Robot.ReferenceFilter.{JerkLimitedReferenceFilter}
use franka_deploy.Robot.Runtime.{
  RobotReading, RuntimeException, connection_failed, control_failed_to_start, fresh, Fr3Runtime,
  StateDict, Turn, Connecting, is_none, get_state, set_joint_target, close_to, turns,
}

module _ (np : Numpy) where
  open np use {lit}

  abbrev pub polled :
      Fr3Runtime
      → Vec Joint
      → Float
      → Result RuntimeException StateDict
      → Fr3Runtime × Result RuntimeException Bool
      → Fr3Runtime × Result RuntimeException Bool
  polled s q_target tol (err e) later = (s, err e)
  polled s q_target tol (ok st) later =
      if close_to np st.q q_target tol then (s, ok true) else later

  -- The wait for the target, with the turns between two polls; at the end of the list time is over.
  unfoldable pub await :
      Fr3Runtime → Vec Joint → Float → List (List Turn) → Fr3Runtime × Result RuntimeException Bool
  await s q_target tol [] = (s, ok false)
  await s q_target tol (ts ∷ polls) =
      polled s q_target tol (get_state s) (await (turns np s ts) q_target tol polls)

  abbrev pub then_await :
      Fr3Runtime × Result RuntimeException (Unit {0})
      → Vec Joint
      → Float
      → List (List Turn)
      → Fr3Runtime × Result RuntimeException Bool
  then_await (s, err e) q_target tol polls = (s, err e)
  then_await (s, ok _) q_target tol polls = await s q_target tol polls

  unfoldable pub movej :
      Fr3Runtime → Vec Joint → Float → List (List Turn) → Fr3Runtime × Result RuntimeException Bool
  unfolding set_joint_target
  movej s q_target tol polls = then_await (set_joint_target s q_target) q_target tol polls

  -- The wait for the arm to slow down.
  unfoldable pub slow_down : Fr3Runtime → Float → List (List Turn) → Fr3Runtime
  slow_down s tol [] = s
  slow_down s tol (ts ∷ polls) =
      let later = slow_down (turns np s ts) tol polls in
      if not (is_none s.control_error) || close_to np s.dq (λ j. nought) tol then s else later

  -- `polls` are the turns np during the deceleration, `last` those until the thread is joined.
  unfoldable pub stop : Fr3Runtime → Float → List (List Turn) → List Turn → Fr3Runtime
  stop s tol polls last =
      let frozen = slow_down (record s { target_q = s.q }) tol polls in
      let slowed = if not s.read_only && is_none s.control_error then frozen else s in
      turns np (record slowed { stop_evt = true }) last

  -- The object at the end of `__init__`, before its thread runs.
  unfoldable pub opened : Bool → JerkLimitedReferenceFilter Joint → RobotReading → Fr3Runtime
  opened read_only filter st = record {
    read_only = read_only;
    filter = filter;
    q = st.q;
    dq = λ j. nought;
    target_q = st.q;
    ee_pose = st.o_t_ee;
    success_rate = lit 1 0;
    control_error = none;
    stop_evt = false;
    phase = fresh;
    written = [];
  }

  abbrev pub constructed : Bool → Fr3Runtime → Result RuntimeException Fr3Runtime
  constructed read_only s =
      if not read_only && not (is_none s.control_error) then err control_failed_to_start else ok s

  abbrev pub connected :
      Bool
      → JerkLimitedReferenceFilter Joint
      → Option RobotReading
      → List Turn
      → Result RuntimeException Fr3Runtime
  connected read_only filter none first_turns = err connection_failed
  connected read_only filter (some st) first_turns =
      constructed read_only (turns np (opened read_only filter st) first_turns)

  -- The first turns are those of the 0.2 seconds after which a failed start is reported.
  unfoldable pub connect :
      Bool → Float → Float → Float → Float → Connecting → Result RuntimeException Fr3Runtime
  connect read_only v_max a_max j_max wn env =
      let filter = ReferenceFilter.make np (lit 1 3) (λ j. v_max) (λ j. a_max) (λ j. j_max) wn in
      if env.opens && env.sets_collision_behavior && env.sets_joint_impedance
      then connected read_only filter env.reads env.first_turns
      else err connection_failed
