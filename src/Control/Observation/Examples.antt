-- ===== src/Control/Observation/Examples.antt =====
-- The theorem about the quaternions at half a turn, and tests.
use franka_deploy.Common.{
  ◌≡◌, refl, arith, [], ◌∷◌, pos, neg, ◌+ℤ◌, ◌-ℤ◌, ◌≤ℤ◌, ◌<ℤ◌, Float, nought, decimal,
  decimal-IsNumpy,
}
use franka_deploy.Kinematics.Trigonometry.{Trigonometry, Matrix3, triple, rows_3}
use franka_deploy.Kinematics.Examples.{small}
use franka_deploy.Control.Observation.{mat_to_quat, quat_by, pivot_of, radicand, divisor}
use franka_deploy.Control.Observation.Quaternions

-- A root that is right for four.
abbrev halves : Trigonometry
halves = record small { sqrt = λ a. decimal.div a (pos 20_000) }

abbrev unit : Float
unit = pos 10_000

abbrev eye : Matrix3
eye = rows_3 (triple unit nought nought) (triple nought unit nought) (triple nought nought unit)

-- Half a turn about the second axis.
abbrev turned : Matrix3
turned =
    rows_3 (triple (neg unit) nought nought) (triple nought unit nought)
      (triple nought nought (neg unit))

eye_quat : mat_to_quat decimal halves eye ≡ nought ∷ nought ∷ nought ∷ unit ∷ []
unfolding mat_to_quat pivot_of divisor radicand quat_by decimal neg ◌+ℤ◌ ◌-ℤ◌
eye_quat = refl

turned_quat : mat_to_quat decimal halves turned ≡ nought ∷ unit ∷ nought ∷ nought ∷ []
unfolding mat_to_quat pivot_of divisor radicand quat_by decimal neg ◌+ℤ◌ ◌-ℤ◌
turned_quat = refl

at_least : (b : Float) → decimal.mul (pos 20_000) unit ≤ℤ b → unit ≤ℤ b
unfolding decimal
at_least b h = omega (arith, h)

doubled : (a : Float) → unit ≤ℤ a → unit ≤ℤ decimal.mul a (pos 20_000)
doubled a h =
    let more = decimal-IsNumpy.mul_mono (pos 20_000) unit a (omega arith) h in
    rw (decimal-IsNumpy.mul_comm a (pos 20_000)) (at_least (decimal.mul (pos 20_000) a) more)

divisor_positive_example :
    (unit ≤ℤ radicand decimal small (pivot_of turned) turned)
    × (nought <ℤ divisor decimal small turned)
unfolding decimal
divisor_positive_example =
    Quaternions.divisor_positive decimal small turned (omega arith) (λ a h. h) doubled
