-- ===== src/Kinematics/Rotations.antt =====
-- franka_deploy/kinematics/rotations.py: rotation matrices from quaternions and from six numbers.
use franka_deploy.Common.{
  Bool, true, false, Option, none, some, List, [], ◌∷◌, ◌+ℤ◌, ◌-ℤ◌, neg, ltb_ℤ, Float, Vec, nought,
  Numpy, maximum, if◌then◌else◌, ◌≡◌, ◌∙◌, ap, IsNumpy, int_laws, eq_of_parts, neg_parts,
}
use franka_deploy.Safety.Workspace.{Axis}
use franka_deploy.Kinematics.Frames.{axis_angle_to_rot}
use franka_deploy.Kinematics.Trigonometry.{
  Trigonometry, Matrix3, Matrix4, triple, rows_3, eye_3, dot, cross,
}

module _ (np : Numpy) (trig : Trigonometry) where
  open np use {lit, mul, div}
  open trig use {norm}

  -- `x, y, z, w = q`, and the matrix.
  unfoldable pub rot_of_quat : Float → Float → Float → Float → Matrix3
  rot_of_quat x y z w =
      let n = mul x x +ℤ mul y y +ℤ mul z z +ℤ mul w w in
      let s = div (lit 2 0) n in
      if ltb_ℤ n (lit 1 12)
      then eye_3 np
      else rows_3
          (triple (lit 1 0 -ℤ mul s (mul y y +ℤ mul z z)) (mul s (mul x y -ℤ mul z w))
            (mul s (mul x z +ℤ mul y w)))
          (triple (mul s (mul x y +ℤ mul z w)) (lit 1 0 -ℤ mul s (mul x x +ℤ mul z z))
            (mul s (mul y z -ℤ mul x w)))
          (triple (mul s (mul x z -ℤ mul y w)) (mul s (mul y z +ℤ mul x w))
            (lit 1 0 -ℤ mul s (mul x x +ℤ mul y y)))

  -- Any other length is a `ValueError`.
  unfoldable pub quat_to_rot : List Float → Option Matrix3
  unfolding rot_of_quat
  quat_to_rot (x ∷ y ∷ z ∷ w ∷ []) = some (rot_of_quat x y z w)
  quat_to_rot _ = none

  abbrev pub scaled : Vec Axis → Vec Axis
  scaled v a = div (v a) (maximum (norm v) (lit 1 9))

  abbrev pub orthogonal : Vec Axis → Vec Axis → Vec Axis
  orthogonal b v a = v a -ℤ mul (dot np b v) (b a)

  unfoldable pub rot_of_six : Vec Axis → Vec Axis → Matrix3
  rot_of_six a1 a2 =
      let b1 = scaled a1 in
      let b2 = scaled (orthogonal b1 a2) in
      let b3 = cross np b1 b2 in λ i. triple (b1 i) (b2 i) (b3 i)

  -- The slices `six[:3]` and `six[3:6]`; a shorter array does not fit the products.
  unfoldable pub rot6d_to_rot : List Float → Option Matrix3
  unfolding rot_of_six
  rot6d_to_rot (a ∷ b ∷ c ∷ d ∷ e ∷ f ∷ rest) = some (rot_of_six (triple a b c) (triple d e f))
  rot6d_to_rot _ = none

-- `axis_angle_to_rot` on an array: it reads three entries unless the norm is next to zero. The callers
-- never pass more than three.
abbrev pub or_eye : Bool → Matrix3 → Option Matrix3
or_eye true eye = some eye
or_eye false eye = none

module _ (np : Numpy) (trig : Trigonometry) (x_ee : Matrix4) where
  open np use {lit}
  open trig use {norm}

  unfoldable pub axis_angle_of : List Float → Option Matrix3
  axis_angle_of (x ∷ y ∷ z ∷ rest) = some (axis_angle_to_rot np trig x_ee (triple x y z))
  axis_angle_of (x ∷ y ∷ []) = or_eye (ltb_ℤ (norm (triple x y nought)) (lit 1 9)) (eye_3 np)
  axis_angle_of (x ∷ []) = or_eye (ltb_ℤ (norm (triple x nought nought)) (lit 1 9)) (eye_3 np)
  axis_angle_of [] = or_eye (ltb_ℤ (norm (triple nought nought nought)) (lit 1 9)) (eye_3 np)

module _ (np : Numpy) (laws : IsNumpy np) (trig : Trigonometry) where
  open np use {mul}

  neg-neg : (a : Float) → neg (neg a) ≡ a
  neg-neg a = eq_of_parts _ _ (omega (int_laws, neg_parts a, neg_parts (neg a)))

  mul-neg-neg : (a b : Float) → np.mul (neg a) (neg b) ≡ np.mul a b
  mul-neg-neg a b =
      laws.mul-neg (neg a) b
      ∙ ap neg (laws.mul_comm (neg a) b ∙ laws.mul-neg b a ∙ ap neg (laws.mul_comm b a))
      ∙ neg-neg (mul a b)

  -- A quaternion and its opposite are the same rotation.
  pub rot_of_quat-neg :
      (x y z w : Float)
      → rot_of_quat np trig (neg x) (neg y) (neg z) (neg w) ≡ rot_of_quat np trig x y z w
  unfolding rot_of_quat
  rot_of_quat-neg x y z w = simp mul-neg-neg
