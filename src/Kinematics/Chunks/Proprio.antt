-- ===== src/Kinematics/Chunks/Proprio.antt =====
-- The proprioception of a robot that stands still.
use franka_deploy.Common.{
  ◌≡◌, refl, ap, ◌∷◌, [], length, ◌+ℤ◌, ◌-ℤ◌, neg, Float, Vec, nought, Numpy, IsNumpy, take,
  int_laws, eq_of_parts, neg_parts, -ℤ_parts, pos_part, neg_part,
}
use franka_deploy.Safety.Limits.{Joint}
use franka_deploy.Kinematics.{Geometry}
use franka_deploy.Kinematics.Chunks.{compute_proprio_single, rot6d}

module _ (np : Numpy) (laws : IsNumpy np) where
  own_neg : (a : Float) → a ≡ neg a → a ≡ nought
  own_neg a h = eq_of_parts _ _ (omega (int_laws, neg_parts a, ap pos_part h, ap neg_part h))

  mul-nought : (a : Float) → np.mul a nought ≡ nought
  unfolding neg
  mul-nought a = own_neg (np.mul a nought) (laws.mul-neg a nought)

  sub_self : (a : Float) → a -ℤ a ≡ nought
  sub_self a = eq_of_parts _ _ (omega (int_laws, -ℤ_parts a a))

  module _ (geo : Geometry) where
    -- There are seventeen numbers. When the joints are those of a tenth of a second ago, the first three, the
    -- relative position, are zero.
    pub compute_proprio_single_still :
        (q : Vec Joint) (q_start : Vec Joint) (cur prev : Float)
        → (length (compute_proprio_single np geo q q q_start cur prev) ≡ 17)
          × (take 3 (compute_proprio_single np geo q q q_start cur prev)
              ≡ nought ∷ nought ∷ nought ∷ [])
    unfolding compute_proprio_single rot6d ◌+ℤ◌
    compute_proprio_single_still q q_start cur prev = (refl, simp (sub_self, mul-nought))
