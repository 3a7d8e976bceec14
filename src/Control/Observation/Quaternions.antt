-- ===== src/Control/Observation/Quaternions.antt =====
-- The division in `_mat_to_quat`.
use franka_deploy.Common.{
  arith, int_laws, ◌&&◌, Bool-cases, inl, inr, ◌+ℤ◌, ◌-ℤ◌, ◌≤ℤ◌, ◌<ℤ◌, ltb_ℤ, ltb_ℤ→lt, ltb_ℤ→ge,
  +ℤ_parts, Float, nought, Numpy, if◌then◌else◌, if-split,
}
use franka_deploy.Safety.Workspace.{axis_x, axis_y, axis_z}
use franka_deploy.Kinematics.Trigonometry.{Trigonometry, Matrix3}
use franka_deploy.Control.Observation.{Pivot, by_trace, by_axis, trace, pivot_of, radicand, divisor}

module _ (np : Numpy) (trig : Trigonometry) where
  abbrev one : Float
  one = np.lit 1 0

  -- In each branch the radicand is one or more.
  abbrev Ample : Matrix3 → Pivot → Type 0
  Ample r p = one ≤ℤ radicand np trig p r

  Ample-trace : (r : Matrix3) → nought <ℤ trace r → Ample r by_trace
  unfolding radicand
  Ample-trace r h = omega (arith, +ℤ_parts (trace r) one)

  -- The largest of three numbers with a sum of at most zero.
  ample_largest :
      (a b c : Float) → b ≤ℤ a → c ≤ℤ a → a +ℤ b +ℤ c ≤ℤ nought → one ≤ℤ one +ℤ a -ℤ b -ℤ c
  ample_largest a b c h k low = omega (int_laws, h, k, low)

  module _ (r : Matrix3) (low : trace r ≤ℤ nought) where
    abbrev x : Float
    x = r axis_x axis_x

    abbrev y : Float
    y = r axis_y axis_y

    abbrev z : Float
    z = r axis_z axis_z

    Ample-x : y ≤ℤ x → z ≤ℤ x → Ample r (by_axis axis_x)
    unfolding radicand
    Ample-x h k = ample_largest x y z h k low

    Ample-y : x ≤ℤ y → z ≤ℤ y → Ample r (by_axis axis_y)
    unfolding radicand
    Ample-y h k = ample_largest y x z h k (omega (int_laws, low))

    Ample-z : x ≤ℤ z → y ≤ℤ z → Ample r (by_axis axis_z)
    unfolding radicand
    Ample-z h k = ample_largest z x y h k (omega (int_laws, low))

    -- The first test fails.
    abbrev NotFirst : Type 0
    NotFirst = y <ℤ x → z <ℤ x → ⊥

    y_over_x : NotFirst → z <ℤ y → x ≤ℤ y
    y_over_x not_first h = elim (Bool-cases (ltb_ℤ y x)) [
      | inl less ↦ absurd (not_first (ltb_ℤ→lt y x less) (omega (arith, h, ltb_ℤ→lt y x less)))
      | inr more ↦ ltb_ℤ→ge y x more
    ]

    z_over_x : NotFirst → y ≤ℤ z → x ≤ℤ z
    z_over_x not_first h = elim (Bool-cases (ltb_ℤ z x)) [
      | inl less ↦ absurd (not_first (omega (arith, h, ltb_ℤ→lt z x less)) (ltb_ℤ→lt z x less))
      | inr more ↦ ltb_ℤ→ge z x more
    ]

    Ample-below : NotFirst → Ample r (if ltb_ℤ z y then by_axis axis_y else by_axis axis_z)
    Ample-below not_first =
        if-split (Ample r) (ltb_ℤ z y) (by_axis axis_y) (by_axis axis_z)
          (λ above. let h = ltb_ℤ→lt z y above in Ample-y (y_over_x not_first h) (omega (arith, h)))
          (λ below. let h = ltb_ℤ→ge z y below in Ample-z (z_over_x not_first h) h)

    Ample-axes : Ample r (
        if ltb_ℤ y x && ltb_ℤ z x
        then by_axis axis_x
        else if ltb_ℤ z y
        then by_axis axis_y
        else by_axis axis_z)
    Ample-axes =
        if-split (Ample r) (ltb_ℤ y x && ltb_ℤ z x) (by_axis axis_x)
          (if ltb_ℤ z y then by_axis axis_y else by_axis axis_z)
          (λ both. Ample-x (ground (arith, both)) (ground (arith, both)))
          (λ not_both. Ample-below (λ h k. ground (arith, not_both, h, k)))

  Ample-pivot : (r : Matrix3) → Ample r (pivot_of r)
  unfolding pivot_of
  Ample-pivot r =
      if-split (Ample r) (ltb_ℤ nought (trace r)) by_trace _
        (λ up. Ample-trace r (ltb_ℤ→lt nought (trace r) up))
        (λ down. Ample-axes r (ltb_ℤ→ge nought (trace r) down))

  -- The quaternion of any matrix, a rotation or not, is computed without a division by zero: in each of the
  -- four branches the square root is taken of one or more, and the divisor is positive. The square root of
  -- one or more is one or more, and so is its double.
  pub divisor_positive :
      (r : Matrix3)
      → nought <ℤ one
      → ((a : Float) → one ≤ℤ a → one ≤ℤ trig.sqrt a)
      → ((a : Float) → one ≤ℤ a → one ≤ℤ np.mul a (np.lit 2 0))
      → (one ≤ℤ radicand np trig (pivot_of r) r) × (nought <ℤ divisor np trig r)
  unfolding divisor
  divisor_positive r positive root double =
      let big = double _ (root _ (Ample-pivot r)) in (Ample-pivot r, omega (arith, positive, big))
