-- ===== src/Kinematics/Examples.antt =====
-- The theorems about franka_deploy/kinematics/ at concrete inputs, and a toy arm.
use franka_deploy.Common.{
  ◌≡◌, some, pos, ◌+ℤ◌, neg, Vec, map, take, length, decimal, decimal-IsNumpy,
}
use franka_deploy.Safety.Limits.{Joint}
use franka_deploy.Kinematics.Trigonometry.{linear, Trigonometry, Matrix4, eye_4, sum_3}
use franka_deploy.Kinematics.Frames.{z_axis, origin, links, fk, fk_with_frames}
use franka_deploy.Kinematics.Frames.Agree
use franka_deploy.Kinematics.Rotations.{rot_of_quat}
use franka_deploy.Kinematics.Rotations

-- A trigonometry for small angles, and a solver that takes the right-hand side as it is.
abbrev pub small : Trigonometry
small = record {
  pi = pos 31_416;
  sin = λ x. x;
  cos = λ x. pos 10_000;
  arccos = λ x. pos 10_000 +ℤ neg x;
  sqrt = λ x. x;
  norm = λ v. sum_3 v;
  twist_norm = λ v. sum_3 (λ a. v (linear a));
  solve = λ m v. some v;
}

abbrev pub mount : Matrix4
mount = eye_4 decimal

abbrev pose : Vec Joint
pose j = pos 1_000

fk_with_frames-fk_example :
    let on_the_way =
      take 7 (Agree.partial decimal small mount (eye_4 decimal) (links decimal small pose)) in
    let (t, axes, origins) = fk_with_frames decimal small mount pose in
    (t ≡ fk decimal small mount pose)
    × (axes ≡ map z_axis on_the_way)
    × (origins ≡ map origin on_the_way)
    × (length axes ≡ 7)
    × (length origins ≡ 7)
fk_with_frames-fk_example = Agree.fk_with_frames-fk decimal small mount pose

rot_of_quat-neg_example :
    rot_of_quat decimal small
      (neg (pos 5_000))
      (neg (pos 5_000))
      (neg (pos 5_000))
      (neg (pos 5_000))
    ≡ rot_of_quat decimal small (pos 5_000) (pos 5_000) (pos 5_000) (pos 5_000)
rot_of_quat-neg_example =
    Rotations.rot_of_quat-neg decimal decimal-IsNumpy small (pos 5_000) (pos 5_000) (pos 5_000)
      (pos 5_000)
