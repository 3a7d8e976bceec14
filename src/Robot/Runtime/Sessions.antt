-- ===== src/Robot/Runtime/Sessions.antt =====
-- A connected runtime and any sequence of its thread's turns and its user's calls.
use franka_deploy.Common.{
  ◌≡◌, refl, Bool, true, not, ◌&&◌, Option, none, some, List, [], ◌∷◌, ◌≤ℤ◌, ◌<ℤ◌, Float, Vec,
  nought, Numpy, IsNumpy, ok, int_laws, ok-injective, ok_of_if, ok_of_unless, ◌∙◌,
}
use franka_deploy.Safety.Limits.{Joint}
use franka_deploy.Robot.ReferenceFilter
use franka_deploy.Robot.ReferenceFilter.{JerkLimitedReferenceFilter}
use franka_deploy.Robot.Runtime.{
  RobotReading, connection_failed, control_failed_to_start, Fr3Runtime, Turn, Connecting, is_none,
  set_joint_target, turns,
}
use franka_deploy.Robot.Runtime.Calls.{movej, stop, opened, connected, connect}
use franka_deploy.Robot.Runtime.Motion.{IsSmooth, IsTracked}
use franka_deploy.Robot.Runtime.Turns.{
  turns-IsTracked, set_joint_target-IsTracked, movej-IsTracked, stop-IsTracked,
}

pub data Event : Type 0 where
  thread_turns : List Turn → Event
  targets : Vec Joint → Event
  moves : Vec Joint → Float → List (List Turn) → Event
  stops : Float → List (List Turn) → List Turn → Event

module _ (np : Numpy) where
  unfoldable pub happens : Fr3Runtime → Event → Fr3Runtime
  happens s (thread_turns ts) = turns np s ts
  happens s (targets q) = (set_joint_target s q).0
  happens s (moves q tol polls) = (movej np s q tol polls).0
  happens s (stops tol polls last) = stop np s tol polls last

  unfoldable pub session : Fr3Runtime → List Event → Fr3Runtime
  session s [] = s
  session s (e ∷ es) = session (happens s e) es

  module _ (laws : IsNumpy np) (v_max a_max j_max wn : Float) where
    -- The limits are not negative, and the acceleration limit survives its product with the period of a
    -- millisecond and the quotient by it.
    pub record AreLimits : Type 0 where
      pub period_pos : nought <ℤ np.lit 1 3
      pub v_nonneg : nought ≤ℤ v_max
      pub a_nonneg : nought ≤ℤ a_max
      pub j_nonneg : nought ≤ℤ j_max
      pub settled : np.div (np.mul a_max (np.lit 1 3)) (np.lit 1 3) ≤ℤ a_max

    reach : Vec Joint
    reach j = np.mul v_max (np.lit 1 3)

    happens-IsTracked :
        (mode : Bool) (s : Fr3Runtime) (e : Event)
        → IsTracked np laws reach mode s
        → IsTracked np laws reach mode (happens s e)
    unfolding happens
    happens-IsTracked mode s (thread_turns ts) h = turns-IsTracked np laws reach mode s ts h
    happens-IsTracked mode s (targets q) h = set_joint_target-IsTracked np laws reach mode s q h
    happens-IsTracked mode s (moves q tol polls) h =
        movej-IsTracked np laws reach mode s q tol polls h
    happens-IsTracked mode s (stops tol polls last) h =
        stop-IsTracked np laws reach mode s tol polls last h

    session-IsTracked :
        (mode : Bool) (s : Fr3Runtime) (es : List Event)
        → IsTracked np laws reach mode s
        → IsTracked np laws reach mode (session s es)
    unfolding session
    session-IsTracked mode s [] h = h
    session-IsTracked mode s (e ∷ es) h =
        session-IsTracked mode (happens s e) es (happens-IsTracked mode s e h)

    opened-IsTracked :
        (read_only : Bool) (st : RobotReading)
        → AreLimits
        → IsTracked np laws reach read_only (
            opened np read_only
              (ReferenceFilter.make np (np.lit 1 3) (λ j. v_max) (λ j. a_max) (λ j. j_max) wn)
              st)
    unfolding opened ReferenceFilter.make reach
    opened-IsTracked read_only st c = record {
      configured = record {
        dt_pos = c.period_pos;
        v_nonneg = λ j. c.v_nonneg;
        a_nonneg = λ j. c.a_nonneg;
        j_nonneg = λ j. c.j_nonneg;
        settled = λ j. c.settled;
      };
      bounded = record {
        velocity = λ j. omega (int_laws, c.v_nonneg);
        acceleration = λ j. omega (int_laws, c.a_nonneg);
      };
      reaches = λ j. refl;
      smooth = tt;
      ends = refl;
      same_mode = refl;
      silent = λ _. refl;
    }

    connected-IsTracked :
        (read_only : Bool) (reads : Option RobotReading) (ts : List Turn) (s : Fr3Runtime)
        → AreLimits
        → connected np read_only
            (ReferenceFilter.make np (np.lit 1 3) (λ j. v_max) (λ j. a_max) (λ j. j_max) wn)
            reads
            ts
          ≡ ok s
        → IsTracked np laws reach read_only s
    connected-IsTracked read_only none ts s c e = cc
    connected-IsTracked read_only (some st) ts s c e =
        let filter =
          ReferenceFilter.make np (np.lit 1 3) (λ j. v_max) (λ j. a_max) (λ j. j_max) wn in
        let begun = turns np (opened np read_only filter st) ts in
        let tracked : IsTracked np laws reach read_only begun =
          turns-IsTracked np laws reach read_only _ ts (opened-IsTracked read_only st c) in
        let fine = not read_only && not (is_none begun.control_error) in
        rw (← ok-injective begun s (ok_of_unless fine (ok begun) control_failed_to_start e).1)
          tracked

    -- After a connection that returns, whatever the thread's turns meet and whichever targets are set,
    -- moves awaited and stops made in between: successive commands to the robot differ at every joint by
    -- at most the velocity limit times a millisecond, only the last of them may declare the motion
    -- finished, and a read-only runtime has sent none. The limits are those of a configured filter.
    pub session-IsSmooth :
        (read_only : Bool) (env : Connecting) (s : Fr3Runtime) (es : List Event)
        → AreLimits
        → connect np read_only v_max a_max j_max wn env ≡ ok s
        → IsSmooth (λ j. np.mul v_max (np.lit 1 3)) (session s es).written
          × (read_only ≡ true → (session s es).written ≡ [])
    unfolding connect reach
    session-IsSmooth read_only env s es c e =
        let filter =
          ReferenceFilter.make np (np.lit 1 3) (λ j. v_max) (λ j. a_max) (λ j. j_max) wn in
        let (_, made) =
          ok_of_if (env.opens && env.sets_collision_behavior && env.sets_joint_impedance)
            (connected np read_only filter env.reads env.first_turns) connection_failed e in
        let tracked =
          session-IsTracked read_only s es
            (connected-IsTracked read_only env.reads env.first_turns s c made) in
        (tracked.smooth, λ only. tracked.silent (tracked.same_mode ∙ only))
