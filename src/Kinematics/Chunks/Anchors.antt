-- ===== src/Kinematics/Chunks/Anchors.antt =====
-- A chunk as waypoints of one anchor.
use franka_deploy.Common.{
  ℕ, zero, suc, ◌≡◌, refl, ap, ◌⊎◌, inl, inr, Option, some, List, [], ◌∷◌, ◌≤ℤ◌, ltb_ℤ, Float, Vec,
  nought, Numpy, IsNumpy, clip_bounds, Bool-cases, length, All, arith,
}
use mathlib.Core.Path.{subst}
use franka_deploy.Safety.Workspace.{Axis}
use franka_deploy.Safety.Limits.{Joint}
use franka_deploy.Kinematics.{Geometry, Pose, ik, ik_from, clipped, stepped}
use franka_deploy.Kinematics.Reach.{Each, Reachable, Ordered, Lands, ik-Lands}
use franka_deploy.Kinematics.Chunks.{
  Row, Target, and_rest, gripper_out, ee_waypoint_step_to_joint, ee_step_to_joint, chunk_from,
  ee_chunk_to_joint_chunk,
}

module _ (np : Numpy) (geo : Geometry) where
  -- The linear systems have solutions, as those of a damped normal matrix do.
  abbrev pub Solves : Type 0
  Solves = (target : Pose) (q : Vec Joint) → (dq : Vec Joint) × (geo.solve target q ≡ some dq)

  -- A step is a waypoint whose anchor is the measurement, where the solver starts as well.
  ee_step_to_joint-waypoint :
      (d : Row) (q : Vec Joint) (pos_max rot_max : Float)
      → ee_step_to_joint np geo d q pos_max rot_max
        ≡ ee_waypoint_step_to_joint np geo d q q pos_max rot_max
  unfolding ee_step_to_joint ee_waypoint_step_to_joint
  ee_step_to_joint-waypoint (dpos, drot, g) q pos_max rot_max = refl

  ik_from-total :
      (solves : Solves) (n : ℕ) (tol : Float) (target : Pose) (q : Vec Joint)
      → (r : Vec Joint) × (ik_from np geo n tol target q ≡ some r)
  unfolding ik_from
  ik_from-total solves zero tol target q = (q, refl)
  ik_from-total solves (suc n) tol target q =
      elim (Bool-cases (ltb_ℤ (geo.error_norm target q) tol)) [
        | inl close ↦ (q, rw (close, ik_from) refl)
        | inr far ↦
            let (dq, solved) = solves target q in
            let (r, rest) = ik_from-total solves n tol target (clipped np geo q dq) in
            (r, rw (far, ik_from) (rw solved rest))
      ]

  ik-total :
      Solves → (target : Pose) (q : Vec Joint) → (r : Vec Joint) × (ik np geo target q ≡ some r)
  unfolding ik
  ik-total solves target q = ik_from-total solves 30 _ target q

  module _ (q_meas : Vec Joint) (pos_max rot_max : Float) where
    -- Row by row: the waypoint of the action at the one anchor, where the solver starts from the joints
    -- of the row before.
    abbrev pub Chained : Vec Joint → List Row → List Target → Type 0
    Chained q [] [] = Unit
    Chained q [] (t ∷ ts) = ⊥
    Chained q (d ∷ ds) [] = ⊥
    Chained q (d ∷ ds) ((r, g) ∷ ts) =
        (ee_waypoint_step_to_joint np geo d q_meas q pos_max rot_max ≡ some (r, g))
        × Chained r ds ts

    abbrev pub InRange : Vec Joint → Type 0
    InRange q = Reachable np geo q ⊎ (q ≡ q_meas)

    abbrev pub Bounded : Target → Type 0
    Bounded (q, g) = InRange q × (nought ≤ℤ g) × (g ≤ℤ np.lit 1 0)

    module _ (laws : IsNumpy np) (ordered : Ordered np geo) (solves : Solves) where
      InRange-Lands : (q r : Vec Joint) → InRange q → Lands np geo q r → InRange r
      InRange-Lands q r h (inl inside) = inl inside
      InRange-Lands q r h (inr same) = rw same h

      one_positive : nought ≤ℤ np.lit 1 0
      one_positive = omega (arith, laws.one_pos)

      gripper_out_bounds :
          (g : Float) → (nought ≤ℤ gripper_out np geo g) × (gripper_out np geo g ≤ℤ np.lit 1 0)
      unfolding gripper_out
      gripper_out_bounds g = clip_bounds np laws _ nought (np.lit 1 0) one_positive

      abbrev Chunked : Vec Joint → List Row → Option (List Target) → Type 0
      Chunked q ds out =
          (ts : List Target) × (out ≡ some ts)
          × (length ts ≡ length ds)
          × Chained q ds ts
          × All Bounded ts

      waypoint_found :
          (dpos drot : Vec Axis) (g : Float) (q r : Vec Joint)
          → ik np geo (stepped np geo (geo.fk q_meas) dpos drot pos_max rot_max) q ≡ some r
          → ee_waypoint_step_to_joint np geo (dpos, drot, g) q_meas q pos_max rot_max
            ≡ some (r, gripper_out np geo g)
      unfolding ee_waypoint_step_to_joint
      waypoint_found dpos drot g q r found = rw (found, ee_waypoint_step_to_joint) refl

      chunk_from-Chunked :
          (q : Vec Joint) (ds : List Row)
          → InRange q
          → Chunked q ds (chunk_from np geo (geo.fk q_meas) q ds pos_max rot_max)
      unfolding chunk_from
      chunk_from-Chunked q [] h = ([], refl, refl, tt, tt)
      chunk_from-Chunked q ((dpos, drot, g) ∷ ds) h =
          let target = stepped np geo (geo.fk q_meas) dpos drot pos_max rot_max in
          let (r, found) = ik-total solves target q in
          let lands : Lands np geo q r =
            subst (Each (Lands np geo q)) found (ik-Lands np geo laws ordered target q) in
          let inside = InRange-Lands q r h lands in
          let (ts, rest, len, chained, all) = chunk_from-Chunked r ds inside in
          (
            (r, gripper_out np geo g) ∷ ts,
            rw (found, and_rest) (rw (rest, and_rest) refl),
            ap suc len,
            (waypoint_found dpos drot g q r found, chained),
            ((inside, (gripper_out_bounds g).0, (gripper_out_bounds g).1), all),
          )

      -- A chunk of end-effector deltas has a joint target for each of its rows: the waypoint of that row at
      -- the one measured pose, where the solver starts from the joints of the row before. So a row is not
      -- stacked onto the one before. All joints are within their limits or those measured, and the gripper is
      -- in 0..1. The linear systems of the solver have solutions, and the limits of each joint leave a range.
      pub ee_chunk_to_joint_chunk_anchored :
          (actions : List Row)
          → (ts : List Target) × (ee_chunk_to_joint_chunk np geo actions q_meas pos_max rot_max
              ≡ some ts)
            × (length ts ≡ length actions)
            × Chained q_meas actions ts
            × All Bounded ts
      unfolding ee_chunk_to_joint_chunk
      ee_chunk_to_joint_chunk_anchored actions = chunk_from-Chunked q_meas actions (inr refl)
