-- ===== src/Common/Floats.antt =====
-- The arithmetic of the program's float64 values, and the numpy functions that it calls.
-- A finite float64 is a multiple of a fixed quantum, so it is an integer here: sums, differences and
-- comparisons are those of the integers. Rounding of sums, infinities and NaN are left out. Products,
-- quotients and `np.clip` are not the program's own, so they are the fields of a record.
use Prim.Native.Nat.{ℕ, ◌<◌}
use mathlib.Core.Path.{◌≡◌}
use native.Mathlib.Omega.{arith}
use franka_deploy.Common.Tests.{if◌then◌else◌}
use franka_deploy.Common.Int.{ℤ, pos, neg, ltb_ℤ, ◌≤ℤ◌, ◌<ℤ◌, neg_parts}

abbrev pub Float : Type 0
Float = ℤ

-- An array with one entry for each dimension, such as the seven joints.
abbrev pub Vec : Type 0 → Type 0
Vec D = D → Float

abbrev pub nought : Float
nought = pos 0

-- `a` is within `b` of zero.
infix 50 ◌within◌
abbrev pub ◌within◌ : Float → Float → Type 0
a within b = (neg b ≤ℤ a) × (a ≤ℤ b)

unfoldable pub maximum : Float → Float → Float
maximum a b = if ltb_ℤ a b then b else a

unfoldable pub minimum : Float → Float → Float
minimum a b = if ltb_ℤ b a then b else a

unfoldable pub abs : Float → Float
abs a = if ltb_ℤ a nought then neg a else a

-- `lit n k` is the literal n / 10 ^ k; `round` is the nearest integer.
pub record Numpy : Type 0 where
  pub lit : ℕ → ℕ → Float
  pub of_ℕ : ℕ → Float
  pub mul : Float → Float → Float
  pub div : Float → Float → Float
  pub clip : Float → Float → Float → Float
  pub round : Float → ℤ

-- What the documentation of numpy and IEEE 754 say of these: `clip` is a minimum of a maximum, and
-- rounding keeps the order, the sign and zero.
pub record IsNumpy (np : Numpy) : Type 0 where
  pub clip_lem : (x lo hi : Float) → np.clip x lo hi ≡ minimum (maximum x lo) hi
  pub mul_mono : (a x y : Float) → nought ≤ℤ a → x ≤ℤ y → np.mul a x ≤ℤ np.mul a y
  pub mul_comm : (a b : Float) → np.mul a b ≡ np.mul b a
  pub mul-neg : (a b : Float) → np.mul a (neg b) ≡ neg (np.mul a b)
  pub div_mono : (x y d : Float) → nought <ℤ d → x ≤ℤ y → np.div x d ≤ℤ np.div y d
  pub div-neg : (x d : Float) → np.div (neg x) d ≡ neg (np.div x d)
  pub div-nought : (d : Float) → np.div nought d ≡ nought
  pub div_self : (d : Float) → nought <ℤ d → np.div d d ≡ np.lit 1 0
  pub of_ℕ_pos : (n : ℕ) → 0 < n → nought <ℤ np.of_ℕ n
  pub one_pos : nought <ℤ np.lit 1 0
  pub of_ℕ-zero : np.of_ℕ 0 ≡ nought

-- `clip` lands in the range and leaves alone what is in it.
module _ (np : Numpy) (laws : IsNumpy np) where
  pub clip_bounds : (x lo hi : Float) → lo ≤ℤ hi → (lo ≤ℤ np.clip x lo hi) × (np.clip x lo hi ≤ℤ hi)
  unfolding minimum maximum
  clip_bounds x lo hi h = rw (laws.clip_lem x lo hi) (ground arith)

  pub clip_inside : (x lo hi : Float) → lo ≤ℤ x → x ≤ℤ hi → np.clip x lo hi ≡ x
  unfolding minimum maximum
  clip_inside x lo hi h k = rw (laws.clip_lem x lo hi) (ground arith)

  pub clip_above : (x lo hi : Float) → lo ≤ℤ hi → hi ≤ℤ x → np.clip x lo hi ≡ hi
  unfolding minimum maximum
  clip_above x lo hi h k = rw (laws.clip_lem x lo hi) (ground arith)

  -- Whatever the range is, the result stays below each common upper bound, and above each lower one.
  pub clip_between :
      (x lo hi a b : Float)
      → a ≤ℤ x
      → x ≤ℤ b
      → lo ≤ℤ b
      → a ≤ℤ hi
      → (a ≤ℤ np.clip x lo hi) × (np.clip x lo hi ≤ℤ b)
  unfolding minimum maximum
  clip_between x lo hi a b h k l m = rw (laws.clip_lem x lo hi) (ground arith)

pub abs-le_iff_lem : (a b : Float) → neg b ≤ℤ a → a ≤ℤ b → abs a ≤ℤ b
unfolding abs
abs-le_iff_lem a b h k = ground (arith, neg_parts a, neg_parts b)
