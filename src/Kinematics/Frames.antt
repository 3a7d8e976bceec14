-- ===== src/Kinematics/Frames.antt =====
-- franka_deploy/kinematics/fr3_kinematics.py: the forward kinematics, with and without the frames of the
-- joints, the Jacobian, and the solver's step.
pub mod Agree
use franka_deploy.Common.{
  ℕ, zero, suc, ◌+◌, Bool, true, false, Option, none, some, List, [], ◌∷◌, ◌++◌, foldl, ◌+ℤ◌, ◌-ℤ◌,
  neg, ltb, ltb_ℤ, Float, Vec, nought, Numpy, maximum, if◌then◌else◌,
}
use franka_deploy.Safety.Limits.{Joint, j1, j2, j3, j4, j5, j6, j7}
use franka_deploy.Safety.Workspace.{Axis, axis_x, axis_y, axis_z}
use franka_deploy.Kinematics.{Pose, Geometry}
use franka_deploy.Kinematics.Trigonometry.{
  Twist, linear, angular, Trigonometry, Matrix3, Matrix4, Index, i0, i1, i2, i3, triple, rows_3,
  row_4, rows_4, index_of, sum_3, sum_6, sum_7, eye_3, eye_4, matmul_3, apply_3, dot, cross,
  matmul_4,
}

-- A row of `_MDH`.
pub record Mdh : Type 0 where
  pub a : Float
  pub d : Float
  pub alpha : Float

-- `T[:3, 2]` and `T[:3, 3]`.
abbrev pub z_axis : Matrix4 → Vec Axis
z_axis t i = t (index_of i) i2

abbrev pub origin : Matrix4 → Vec Axis
origin t i = t (index_of i) i3

abbrev pub pose_of : Matrix4 → Pose
pose_of t = record { position = origin t; rotation = λ i j. t (index_of i) (index_of j) }

module _ (np : Numpy) (trig : Trigonometry) where
  open np use {lit, mul, div, clip}
  open trig use {pi, sin, cos, arccos, sqrt, norm, twist_norm, solve}

  abbrev quarter : Float
  quarter = div pi (lit 2 0)

  abbrev less_quarter : Float
  less_quarter = div (neg pi) (lit 2 0)

  abbrev row_of : Float → Float → Float → Mdh
  row_of a d alpha = record { a = a; d = d; alpha = alpha }

  -- `Ti`.
  unfoldable pub link : Mdh → Float → Matrix4
  link m theta =
      let ca = cos m.alpha in
      let sa = sin m.alpha in
      let ct = cos theta in
      let st = sin theta in
      rows_4 (row_4 ct (neg st) nought m.a)
        (row_4 (mul st ca) (mul ct ca) (neg sa) (mul (neg m.d) sa))
        (row_4 (mul st sa) (mul ct sa) ca (mul m.d ca)) (row_4 nought nought nought (lit 1 0))

  -- `_MDH`, at the angles of the joints; the flange does not turn.
  unfoldable pub links : Vec Joint → List Matrix4
  links q =
      link (row_of nought (lit 333 3) nought) (q j1)
      ∷ link (row_of nought nought less_quarter) (q j2)
      ∷ link (row_of nought (lit 316 3) quarter) (q j3)
      ∷ link (row_of (lit 825 4) nought quarter) (q j4)
      ∷ link (row_of (neg (lit 825 4)) (lit 384 3) less_quarter) (q j5)
      ∷ link (row_of nought nought quarter) (q j6)
      ∷ link (row_of (lit 88 3) nought quarter) (q j7)
      ∷ link (row_of nought (lit 107 3) nought) nought
      ∷ []

  abbrev chain : Matrix4 → List Matrix4 → Matrix4
  chain t ls = foldl (matmul_4 np) t ls

  module _ (x_ee : Matrix4) where
    unfoldable pub fk : Vec Joint → Matrix4
    fk q = matmul_4 np (chain (eye_4 np) (links q)) x_ee

    -- The loop of `_fk_with_frames`: the transform, the axes and the origins so far.
    unfoldable pub frames_from :
        ℕ
        → Matrix4
        → List (Vec Axis)
        → List (Vec Axis)
        → List Matrix4
        → Matrix4 × List (Vec Axis) × List (Vec Axis)
    frames_from i t axes origins [] = (t, axes, origins)
    frames_from i t axes origins (l ∷ ls) =
        let t_pre = matmul_4 np t l in
        let joint =
          frames_from (i + 1) t_pre (axes ++ z_axis t_pre ∷ []) (origins ++ origin t_pre ∷ []) ls in
        let flange = frames_from (i + 1) t_pre axes origins ls in if ltb i 7 then joint else flange

    unfoldable pub fk_with_frames : Vec Joint → Matrix4 × List (Vec Axis) × List (Vec Axis)
    fk_with_frames q =
        let (t, axes, origins) = frames_from 0 (eye_4 np) [] [] (links q) in
        (matmul_4 np t x_ee, axes, origins)

    -- Column `i` of an array of seven.
    abbrev pub column : List (Vec Axis) → ℕ → Vec Axis
    column [] i = λ a. nought
    column (v ∷ vs) zero = v
    column (v ∷ vs) (suc i) = column vs i

    abbrev pub number : Joint → ℕ
    number j1 = 0
    number j2 = 1
    number j3 = 2
    number j4 = 3
    number j5 = 4
    number j6 = 5
    number j7 = 6

    abbrev pub jacobian_entry : Vec Axis → Vec Axis → Vec Axis → Vec Twist
    jacobian_entry p_ee axis at (linear a) = cross np axis (λ b. p_ee b -ℤ at b) a
    jacobian_entry p_ee axis at (angular a) = axis a

    unfoldable pub jacobian_analytic : Vec Joint → (Twist → Vec Joint) × Matrix4
    jacobian_analytic q =
        let (t_ee, axes, origins) = fk_with_frames q in
        (
          λ e j.
              jacobian_entry (origin t_ee) (column axes (number j)) (column origins (number j)) e,
          t_ee,
        )

    -- The axis of a half turn, from the largest entry of the diagonal.
    unfoldable pub half_turn : Matrix3 → Vec Axis → Float → Vec Axis
    half_turn r v angle =
        let m : Matrix3 = λ i j. div (r i j +ℤ eye_3 np i j) (lit 2 0) in
        let at : Axis → Vec Axis = λ k.
          let ax = sqrt (maximum (m k k) nought) in
          let col : Vec Axis = λ i. div (m i k) (if ltb_ℤ (lit 1 9) ax then ax else lit 1 0) in
          let turned : Vec Axis = if ltb_ℤ (dot np col v) nought then (λ i. neg (col i)) else col in
          λ i. mul (turned i) angle in
        let best_z = at axis_z in
        let best_y = if ltb_ℤ (m axis_y axis_y) (m axis_z axis_z) then best_z else at axis_y in
        let best_x = if ltb_ℤ (m axis_x axis_x) (m axis_z axis_z) then best_z else at axis_x in
        if ltb_ℤ (m axis_x axis_x) (m axis_y axis_y) then best_y else best_x

    unfoldable pub rot_to_axis_angle : Matrix3 → Vec Axis
    rot_to_axis_angle r =
        let trace = r axis_x axis_x +ℤ r axis_y axis_y +ℤ r axis_z axis_z in
        let tr = clip (div (trace -ℤ lit 1 0) (lit 2 0)) (neg (lit 1 0)) (lit 1 0) in
        let angle = arccos tr in
        let v =
          triple (r axis_z axis_y -ℤ r axis_y axis_z) (r axis_x axis_z -ℤ r axis_z axis_x)
            (r axis_y axis_x -ℤ r axis_x axis_y) in
        if ltb_ℤ angle (lit 1 9)
        then (λ a. nought)
        else if ltb_ℤ (pi -ℤ lit 1 4) angle
        then half_turn r v angle
        else (λ a. mul (div (v a) (mul (lit 2 0) (sin angle))) angle)

    unfoldable pub axis_angle_to_rot : Vec Axis → Matrix3
    axis_angle_to_rot aa =
        let theta = norm aa in
        let k : Vec Axis = λ a. div (aa a) theta in
        let km =
          rows_3 (triple nought (neg (k axis_z)) (k axis_y))
            (triple (k axis_z) nought (neg (k axis_x)))
            (triple (neg (k axis_y)) (k axis_x) nought) in
        if ltb_ℤ theta (lit 1 9) then eye_3 np else (λ i j.
          eye_3 np i j
          +ℤ mul (sin theta) (km i j)
          +ℤ mul (lit 1 0 -ℤ cos theta) (matmul_3 np km km i j))

    abbrev pub error_of : Pose → Matrix4 → Vec Twist
    error_of target t (linear a) = target.position a -ℤ origin t a
    error_of target t (angular a) =
        rot_to_axis_angle (matmul_3 np target.rotation (λ i j. t (index_of j) (index_of i))) a

    abbrev eye_6 : Twist → Vec Twist
    eye_6 (linear a) (linear b) = eye_3 np a b
    eye_6 (linear a) (angular b) = nought
    eye_6 (angular a) (linear b) = nought
    eye_6 (angular a) (angular b) = eye_3 np a b

    -- `dq` of a round of `ik`.
    unfoldable pub damped_step : Pose → Vec Joint → Option (Vec Joint)
    damped_step target q =
        let (j, t) = jacobian_analytic q in
        let normal : Twist → Vec Twist =
          λ a b. sum_7 (λ i. mul (j a i) (j b i)) +ℤ mul (lit 1 4) (eye_6 a b) in
        elim (solve normal (error_of target t)) [
          | none ↦ none
          | some x ↦ some (λ i. sum_6 (λ e. mul (j e i) (x e)))
        ]

    -- What the rest of the kinematics is built on.
    unfoldable pub geometry : Geometry
    geometry = record {
      fk = λ q. pose_of (fk q);
      error_norm = λ target q. twist_norm (error_of target (jacobian_analytic q).1);
      solve = damped_step;
      axis_angle_to_rot = axis_angle_to_rot;
    }
