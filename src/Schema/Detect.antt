-- ===== src/Schema/Detect.antt =====
-- franka_deploy/schema/response_detect.py: what the rows of a policy server's response may mean.
pub mod Formats
use Prim.Native.String.{String}
use franka_deploy.Common.{
  ℕ, zero, suc, ◌+◌, ◌-◌, ◌≡◌, Bool, true, false, not, ◌&&◌, Option, none, some, List, [], ◌∷◌,
  ◌++◌, map, foldl, ltb_ℤ, leb_ℤ, ◌+ℤ◌, ◌-ℤ◌, neg, Float, Vec, nought, Numpy, minimum, maximum, abs,
  if◌then◌else◌, length, get_elem?, ◌==◌, Result, ok, err,
}
use franka_deploy.Safety.Limits.{
  Joint, j1, j2, j3, j4, j5, j6, j7, max_joint, fr3_q_lower, fr3_q_upper,
}
use franka_deploy.Safety.Workspace.{Axis, axis_x, axis_y, axis_z}
use franka_deploy.Schema.Spec.{
  Kind, joint_absolute, joint_delta, ee_absolute, ee_delta, GripperConvention, zero_one,
  minus_one_one, no_gripper, RotationRepr, quat, rot6d, axis_angle, ActionSpaceSpec,
  DetectionResult,
}

-- The entry of a row that is known to be long enough.
abbrev pub entry : List Float → ℕ → Float
entry row i = elim (get_elem? row i) [ none ↦ nought | some x ↦ x ]

-- `row[:7]` of a row with seven entries or more, and `row[:3]` of one with three or more.
abbrev pub joints_of : List Float → Vec Joint
joints_of row j1 = entry row 0
joints_of row j2 = entry row 1
joints_of row j3 = entry row 2
joints_of row j4 = entry row 3
joints_of row j5 = entry row 4
joints_of row j6 = entry row 5
joints_of row j7 = entry row 6

abbrev pub position_of : List Float → Vec Axis
position_of row axis_x = entry row 0
position_of row axis_y = entry row 1
position_of row axis_z = entry row 2

abbrev pub every_joint : (Joint → Bool) → Bool
every_joint p = p j1 && p j2 && p j3 && p j4 && p j5 && p j6 && p j7

abbrev pub last_column : List (List Float) → ℕ → List Float
last_column chunk d = map (λ row. entry row (d - 1)) chunk

-- `_ROTATION_REPR`, with the number of columns of each representation.
abbrev pub rotation_reprs : List (ℕ × RotationRepr)
rotation_reprs = (3, axis_angle) ∷ (4, quat) ∷ (6, rot6d) ∷ []

abbrev pub Response : Type 0
Response = List (List Float)

abbrev pub BadShape : Type 0
BadShape = Unit {0}

-- Every row has the columns of the first one.
abbrev pub rectangular : ℕ → Response → Bool
rectangular d [] = true
rectangular d (row ∷ rows) = length row == d && rectangular d rows

-- A stable sort by descending confidence.
unfoldable pub insert : ActionSpaceSpec → List ActionSpaceSpec → List ActionSpaceSpec
insert c [] = c ∷ []
insert c (d ∷ ds) = if leb_ℤ d.confidence c.confidence then c ∷ d ∷ ds else d ∷ insert c ds

unfoldable pub sort : List ActionSpaceSpec → List ActionSpaceSpec
sort [] = []
sort (c ∷ cs) = insert c (sort cs)

-- `norm` is `np.linalg.norm`; `shaped` and `unshaped` are the notes for the user.
module _ (np : Numpy) (norm : Vec Axis → Float) (shaped : Bool → Option RotationRepr → String)
    (unshaped : ℕ → String) where
  open np use {lit, div}

  unfoldable pub in_absolute_range : Vec Joint → Bool
  in_absolute_range j =
      every_joint (λ d. leb_ℤ (fr3_q_lower np d -ℤ lit 3 1) (j d))
      && every_joint (λ d. leb_ℤ (j d) (fr3_q_upper np d +ℤ lit 3 1))

  unfoldable pub score_joint : List Float → Vec Joint → Kind × Float
  score_joint row q_now =
      let j = joints_of row in
      let max_dev = max_joint (λ d. abs (j d -ℤ q_now d)) in
      let max_mag = max_joint (λ d. abs (j d)) in
      if in_absolute_range j && ltb_ℤ max_dev (lit 1 0)
      then (joint_absolute, maximum (lit 3 1) (lit 1 0 -ℤ div max_dev (lit 1 0)))
      else if ltb_ℤ max_mag (lit 3 1)
      then (joint_delta, maximum (lit 3 1) (lit 1 0 -ℤ div max_mag (lit 3 1)))
      else if in_absolute_range j
      then (joint_absolute, lit 1 1)
      else (joint_delta, nought)

  unfoldable pub score_ee : List Float → Vec Axis → Kind × Float
  score_ee row ee_pos_now =
      let pos = position_of row in
      let radius = norm pos in
      let dev = norm (λ a. pos a -ℤ ee_pos_now a) in
      if leb_ℤ (lit 10 2) radius && leb_ℤ radius (lit 95 2)
      then (ee_absolute, maximum (lit 3 1) (lit 1 0 -ℤ minimum dev (lit 1 0)))
      else if ltb_ℤ radius (lit 15 2)
      then (ee_delta, maximum (lit 3 1) (lit 1 0 -ℤ div radius (lit 15 2)))
      else (ee_absolute, lit 5 2)

  abbrev least_of : List Float → Float
  least_of [] = nought
  least_of (x ∷ xs) = foldl (λ m y. minimum m y) x xs

  abbrev greatest_of : List Float → Float
  greatest_of [] = nought
  greatest_of (x ∷ xs) = foldl (λ m y. maximum m y) x xs

  unfoldable pub gripper_convention : List Float → GripperConvention
  gripper_convention col =
      let lo = least_of col in
      let hi = greatest_of col in
      if leb_ℤ (neg (lit 5 2)) lo && leb_ℤ hi (lit 105 2)
      then zero_one
      else if leb_ℤ (neg (lit 105 2)) lo && leb_ℤ hi (lit 105 2)
      then minus_one_one
      else zero_one

  -- A candidate, with the default scales.
  abbrev candidate :
      Kind × Float → ℕ → Bool → GripperConvention → Option RotationRepr → String → ActionSpaceSpec
  candidate scored d has_gripper conv repr notes = record {
    kind = scored.0;
    dim = d;
    has_gripper = has_gripper;
    gripper_convention = conv;
    rotation_repr = repr;
    confidence = scored.1;
    notes = notes;
    delta_pos_scale = lit 1 0;
    delta_rot_scale = lit 1 0;
    delta_joint_scale = lit 1 0;
  }

  abbrev convention_of : Response → ℕ → Bool → GripperConvention
  convention_of chunk d has_gripper =
      if has_gripper then gripper_convention (last_column chunk d) else no_gripper

  unfoldable pub joint_candidate :
      Response → List Float → ℕ → Vec Joint → Bool → ℕ → List ActionSpaceSpec
  joint_candidate chunk row d q_now has_gripper joint_dim =
      if d == joint_dim
      then candidate (score_joint row q_now) d has_gripper (convention_of chunk d has_gripper) none
          (shaped has_gripper none)
        ∷ []
      else []

  unfoldable pub ee_candidates :
      Response → List Float → ℕ → Vec Axis → Bool → List (ℕ × RotationRepr) → List ActionSpaceSpec
  ee_candidates chunk row d ee_pos has_gripper [] = []
  ee_candidates chunk row d ee_pos has_gripper ((rot_dim, repr) ∷ reprs) =
      let rest = ee_candidates chunk row d ee_pos has_gripper reprs in
      if d == 3 + rot_dim + (if has_gripper then 1 else 0)
      then candidate (score_ee row ee_pos) d has_gripper (convention_of chunk d has_gripper)
          (some repr) (shaped has_gripper (some repr))
        ∷ rest
      else rest

  unfoldable pub candidates_of :
      Response → List Float → ℕ → Vec Joint → Vec Axis → List ActionSpaceSpec
  candidates_of chunk row d q_now ee_pos =
      joint_candidate chunk row d q_now true 8
      ++ joint_candidate chunk row d q_now false 7
      ++ ee_candidates chunk row d ee_pos true rotation_reprs
      ++ ee_candidates chunk row d ee_pos false rotation_reprs

  -- The guess where no shape has as many columns.
  unfoldable pub or_guess : ℕ → List ActionSpaceSpec → List ActionSpaceSpec
  or_guess d [] = candidate (joint_absolute, nought) d false no_gripper none (unshaped d) ∷ []
  or_guess d (c ∷ cs) = c ∷ cs

  -- `candidates[0]` of a list that is never empty.
  abbrev first : List ActionSpaceSpec → List Float → ℕ × ℕ → Result BadShape DetectionResult
  first [] row shape = err tt
  first (c ∷ cs) row shape =
      ok (record { spec = c; sample_row = row; chunk_shape = shape; candidates = c ∷ cs })

  unfoldable pub detect_action_space :
      Response → Vec Joint → Vec Axis → Result BadShape DetectionResult
  detect_action_space [] q_now ee_pos = err tt
  detect_action_space (row ∷ rows) q_now ee_pos =
      let d = length row in
      let chunk = row ∷ rows in
      if rectangular d rows
      then first (sort (or_guess d (candidates_of chunk row d q_now ee_pos))) row (length chunk, d)
      else err tt
