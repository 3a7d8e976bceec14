-- ===== src/Schema/Apply/Deployed.antt =====
-- The kinematics module accepts what the adapter passes it.
use franka_deploy.Common.{◌≡◌, arith, List, [], ◌∷◌, Float, Vec, Numpy, length}
use franka_deploy.Safety.Limits.{Joint}
use franka_deploy.Kinematics.{Pose}
use franka_deploy.Kinematics.Trigonometry.{Trigonometry, Matrix4}
use franka_deploy.Kinematics.Frames.{geometry, damped_step}
use franka_deploy.Kinematics.Rotations.{quat_to_rot, rot6d_to_rot, axis_angle_of}
use franka_deploy.Schema.Apply.{Rotations}
use franka_deploy.Schema.Apply.Given.{Given}
use franka_deploy.Schema.Apply.Rows.{Works}

-- What the kinematics module offers to the adapter.
abbrev pub rotations : Numpy → Trigonometry → Matrix4 → Rotations
rotations np trig x_ee = record {
  quat_to_rot = quat_to_rot np trig;
  rot6d_to_rot = rot6d_to_rot np trig;
  axis_angle_to_rot = axis_angle_of np trig x_ee;
}

module _ (np : Numpy) (trig : Trigonometry) (x_ee : Matrix4) where
  quat_to_rot-Given : (v : List Float) → length v ≡ 4 → Given (quat_to_rot np trig v)
  unfolding quat_to_rot
  quat_to_rot-Given [] h = absurd (omega arith)
  quat_to_rot-Given (x ∷ []) h = absurd (omega arith)
  quat_to_rot-Given (x ∷ y ∷ []) h = absurd (omega arith)
  quat_to_rot-Given (x ∷ y ∷ z ∷ []) h = absurd (omega arith)
  quat_to_rot-Given (x ∷ y ∷ z ∷ w ∷ []) h = tt
  quat_to_rot-Given (x ∷ y ∷ z ∷ w ∷ u ∷ v) h = absurd (omega arith)

  rot6d_to_rot-Given : (v : List Float) → length v ≡ 6 → Given (rot6d_to_rot np trig v)
  unfolding rot6d_to_rot
  rot6d_to_rot-Given [] h = absurd (omega arith)
  rot6d_to_rot-Given (a ∷ []) h = absurd (omega arith)
  rot6d_to_rot-Given (a ∷ b ∷ []) h = absurd (omega arith)
  rot6d_to_rot-Given (a ∷ b ∷ c ∷ []) h = absurd (omega arith)
  rot6d_to_rot-Given (a ∷ b ∷ c ∷ d ∷ []) h = absurd (omega arith)
  rot6d_to_rot-Given (a ∷ b ∷ c ∷ d ∷ e ∷ []) h = absurd (omega arith)
  rot6d_to_rot-Given (a ∷ b ∷ c ∷ d ∷ e ∷ f ∷ v) h = tt

  axis_angle_of-Given : (v : List Float) → length v ≡ 3 → Given (axis_angle_of np trig x_ee v)
  unfolding axis_angle_of
  axis_angle_of-Given [] h = absurd (omega arith)
  axis_angle_of-Given (x ∷ []) h = absurd (omega arith)
  axis_angle_of-Given (x ∷ y ∷ []) h = absurd (omega arith)
  axis_angle_of-Given (x ∷ y ∷ z ∷ v) h = tt

  pub geometry-Works :
      ((target : Pose) (q : Vec Joint) → Given (damped_step np trig x_ee target q))
      → Works (geometry np trig x_ee) (rotations np trig x_ee)
  unfolding geometry
  geometry-Works solvable = record {
    quat_given = quat_to_rot-Given;
    rot6d_given = rot6d_to_rot-Given;
    axis_angle_given = axis_angle_of-Given;
    solve_given = solvable;
  }
