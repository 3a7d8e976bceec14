-- ===== src/Kinematics/Trigonometry.antt =====
-- The functions of numpy and its linear algebra that the kinematics call, and matrices.
use franka_deploy.Common.{Option, ◌+ℤ◌, ◌-ℤ◌, Float, Vec, nought, Numpy}
use franka_deploy.Safety.Limits.{Joint, j1, j2, j3, j4, j5, j6, j7}
use franka_deploy.Safety.Workspace.{Axis, axis_x, axis_y, axis_z}

-- An entry of a six-vector: of its upper three, or of its lower three.
pub data Twist : Type 0 where
  linear : Axis → Twist
  angular : Axis → Twist

-- `np.linalg.solve` raises on a singular matrix.
pub record Trigonometry : Type 0 where
  pub pi : Float
  pub sin : Float → Float
  pub cos : Float → Float
  pub arccos : Float → Float
  pub sqrt : Float → Float
  pub norm : Vec Axis → Float
  pub twist_norm : Vec Twist → Float
  pub solve : (Twist → Vec Twist) → Vec Twist → Option (Vec Twist)

abbrev pub Matrix3 : Type 0
Matrix3 = Axis → Vec Axis

-- An index of a homogeneous 4x4 matrix.
pub data Index : Type 0 where
  i0 i1 i2 i3 : Index

abbrev pub Matrix4 : Type 0
Matrix4 = Index → Index → Float

abbrev pub triple : Float → Float → Float → Vec Axis
triple x y z axis_x = x
triple x y z axis_y = y
triple x y z axis_z = z

abbrev pub rows_3 : Vec Axis → Vec Axis → Vec Axis → Matrix3
rows_3 u v w axis_x = u
rows_3 u v w axis_y = v
rows_3 u v w axis_z = w

abbrev pub row_4 : Float → Float → Float → Float → Index → Float
row_4 a b c d i0 = a
row_4 a b c d i1 = b
row_4 a b c d i2 = c
row_4 a b c d i3 = d

abbrev pub rows_4 : (Index → Float) → (Index → Float) → (Index → Float) → (Index → Float) → Matrix4
rows_4 r s t u i0 = r
rows_4 r s t u i1 = s
rows_4 r s t u i2 = t
rows_4 r s t u i3 = u

abbrev pub index_of : Axis → Index
index_of axis_x = i0
index_of axis_y = i1
index_of axis_z = i2

abbrev pub sum_3 : Vec Axis → Float
sum_3 v = v axis_x +ℤ v axis_y +ℤ v axis_z

abbrev pub sum_7 : Vec Joint → Float
sum_7 v = v j1 +ℤ v j2 +ℤ v j3 +ℤ v j4 +ℤ v j5 +ℤ v j6 +ℤ v j7

abbrev pub sum_6 : Vec Twist → Float
sum_6 v = sum_3 (λ a. v (linear a)) +ℤ sum_3 (λ a. v (angular a))

module _ (np : Numpy) where
  open np use {lit, mul}

  abbrev pub eye_3 : Matrix3
  eye_3 =
      rows_3 (triple (lit 1 0) nought nought) (triple nought (lit 1 0) nought)
        (triple nought nought (lit 1 0))

  abbrev pub eye_4 : Matrix4
  eye_4 =
      rows_4 (row_4 (lit 1 0) nought nought nought) (row_4 nought (lit 1 0) nought nought)
        (row_4 nought nought (lit 1 0) nought) (row_4 nought nought nought (lit 1 0))

  -- `A @ B`, `A @ v` and `np.cross`.
  abbrev pub matmul_3 : Matrix3 → Matrix3 → Matrix3
  matmul_3 m n a b = sum_3 (λ c. mul (m a c) (n c b))

  abbrev pub apply_3 : Matrix3 → Vec Axis → Vec Axis
  apply_3 m v a = sum_3 (λ c. mul (m a c) (v c))

  abbrev pub dot : Vec Axis → Vec Axis → Float
  dot u v = sum_3 (λ a. mul (u a) (v a))

  abbrev pub cross : Vec Axis → Vec Axis → Vec Axis
  cross u v axis_x = mul (u axis_y) (v axis_z) -ℤ mul (u axis_z) (v axis_y)
  cross u v axis_y = mul (u axis_z) (v axis_x) -ℤ mul (u axis_x) (v axis_z)
  cross u v axis_z = mul (u axis_x) (v axis_y) -ℤ mul (u axis_y) (v axis_x)

  abbrev pub matmul_4 : Matrix4 → Matrix4 → Matrix4
  matmul_4 m n i j =
      mul (m i i0) (n i0 j)
      +ℤ mul (m i i1) (n i1 j)
      +ℤ mul (m i i2) (n i2 j)
      +ℤ mul (m i i3) (n i3 j)
