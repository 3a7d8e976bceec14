-- ===== src/Safety/Limits.antt =====
-- franka_deploy/safety/limits.py: the joint position limits, and the clip to them.
use franka_deploy.Common.{
  ◌≡◌, neg, ◌+ℤ◌, ◌-ℤ◌, ◌≤ℤ◌, Float, Vec, maximum, Numpy, IsNumpy, clip_bounds, clip_inside,
}

pub data Joint : Type 0 where
  j1 j2 j3 j4 j5 j6 j7 : Joint

-- `np.max` over the joints.
abbrev pub max_joint : Vec Joint → Float
max_joint v =
    maximum (v j1)
      (maximum (v j2) (maximum (v j3) (maximum (v j4) (maximum (v j5) (maximum (v j6) (v j7))))))

module _ (np : Numpy) where
  open np use {lit, clip}

  unfoldable pub fr3_q_lower : Vec Joint
  fr3_q_lower j1 = neg (lit 27_437 4)
  fr3_q_lower j2 = neg (lit 17_837 4)
  fr3_q_lower j3 = neg (lit 29_007 4)
  fr3_q_lower j4 = neg (lit 30_421 4)
  fr3_q_lower j5 = neg (lit 28_065 4)
  fr3_q_lower j6 = lit 5_445 4
  fr3_q_lower j7 = neg (lit 30_159 4)

  unfoldable pub fr3_q_upper : Vec Joint
  fr3_q_upper j1 = lit 27_437 4
  fr3_q_upper j2 = lit 17_837 4
  fr3_q_upper j3 = lit 29_007 4
  fr3_q_upper j4 = neg (lit 1_518 4)
  fr3_q_upper j5 = lit 28_065 4
  fr3_q_upper j6 = lit 45_169 4
  fr3_q_upper j7 = lit 30_159 4

  unfoldable pub default_joint_limit_margin : Float
  default_joint_limit_margin = lit 5 2

  unfoldable pub clip_to_joint_limits : Vec Joint → Float → Vec Joint
  clip_to_joint_limits q margin j = clip (q j) (fr3_q_lower j +ℤ margin) (fr3_q_upper j -ℤ margin)

  -- The range that a margin leaves is not empty at any joint.
  abbrev pub Fits : Float → Type 0
  Fits margin = (j : Joint) → fr3_q_lower j +ℤ margin ≤ℤ fr3_q_upper j -ℤ margin

  module _ (laws : IsNumpy np) where
    -- Whatever is commanded, the clipped target keeps the margin to both limits at every joint.
    pub clip_to_joint_limits_bounds :
        (q : Vec Joint) (margin : Float)
        → Fits margin
        → (j : Joint)
        → (fr3_q_lower j +ℤ margin ≤ℤ clip_to_joint_limits q margin j)
          × (clip_to_joint_limits q margin j ≤ℤ fr3_q_upper j -ℤ margin)
    unfolding clip_to_joint_limits
    clip_to_joint_limits_bounds q margin fits j = clip_bounds np laws _ _ _ (fits j)

    -- A second clip changes nothing.
    pub clip_to_joint_limits_idem :
        (q : Vec Joint) (margin : Float)
        → Fits margin
        → (j : Joint)
        → clip_to_joint_limits (clip_to_joint_limits q margin) margin j
          ≡ clip_to_joint_limits q margin j
    unfolding clip_to_joint_limits
    clip_to_joint_limits_idem q margin fits j =
        let (low, high) = clip_bounds np laws (q j) _ _ (fits j) in
        clip_inside np laws _ _ _ low high
