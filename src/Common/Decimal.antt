-- ===== src/Common/Decimal.antt =====
-- Fixed-point numbers with four decimals, rounded towards zero: concrete `Numpy` operations, with
-- which the definitions run in tests and which show that `IsNumpy` can hold.
use native.Mathlib.Nat.{mul_comm as mul_comm_ℕ, mul-le-mul, div-mul-le_self, le-div_iff_mul-le}
use native.Mathlib.Nat.{le_trans, le_refl, zero-div, mul-div_cancel_left}
use Prim.Native.Nat.{◌+◌, ℕ, zero, suc, ◌*◌, ◌/◌, ◌^◌, ◌≤◌}
use mathlib.Core.Path.{◌≡◌, refl, ap}
use native.Mathlib.Omega.{arith}
use franka_deploy.Common.Int.{pos, negsuc, neg, ◌≤ℤ◌, ◌<ℤ◌}
use franka_deploy.Common.Floats.{Float, nought, maximum, minimum, Numpy, IsNumpy}

-- The magnitudes through `f`, with the sign of the product.
signed : (ℕ → ℕ → ℕ) → Float → Float → Float
signed f (pos a) (pos b) = pos (f a b)
signed f (pos a) (negsuc b) = neg (pos (f a (suc b)))
signed f (negsuc a) (pos b) = neg (pos (f (suc a) b))
signed f (negsuc a) (negsuc b) = pos (f (suc a) (suc b))

module _ (f : ℕ → ℕ → ℕ) where
  signed_comm : ((a b : ℕ) → f a b ≡ f b a) → (a b : Float) → signed f a b ≡ signed f b a
  unfolding signed
  signed_comm c (pos a) (pos b) = ap pos (c a b)
  signed_comm c (pos a) (negsuc b) = rw (c a (suc b))
  signed_comm c (negsuc a) (pos b) = rw (c (suc a) b)
  signed_comm c (negsuc a) (negsuc b) = rw (c (suc a) (suc b))

  signed-neg_right : ((a : ℕ) → f a 0 ≡ 0) → (a b : Float) → signed f a (neg b) ≡ neg (signed f a b)
  unfolding signed neg
  signed-neg_right z (pos a) (pos b) = ground (arith, z a)
  signed-neg_right z (pos a) (negsuc b) = ground (arith, z a)
  signed-neg_right z (negsuc a) (pos b) = ground (arith, z (suc a))
  signed-neg_right z (negsuc a) (negsuc b) = ground (arith, z (suc a))

  signed-neg_left : ((b : ℕ) → f 0 b ≡ 0) → (a b : Float) → signed f (neg a) b ≡ neg (signed f a b)
  unfolding signed neg
  signed-neg_left z (pos a) (pos b) = ground (arith, z b)
  signed-neg_left z (pos a) (negsuc b) = ground (arith, z (suc b))
  signed-neg_left z (negsuc a) (pos b) = ground (arith, z b)
  signed-neg_left z (negsuc a) (negsuc b) = ground (arith, z (suc b))

  signed_mono_right :
      ((a b c : ℕ) → b ≤ c → f a b ≤ f a c)
      → (a x y : Float) → nought ≤ℤ a
      → x ≤ℤ y
      → signed f a x ≤ℤ signed f a y
  unfolding signed neg
  signed_mono_right m (negsuc a) x y h k = absurd (omega arith)
  signed_mono_right m (pos a) (pos x) (pos y) h k = ground (arith, m a x y)
  signed_mono_right m (pos a) (pos x) (negsuc y) h k = absurd (omega arith)
  signed_mono_right m (pos a) (negsuc x) (pos y) h k = ground arith
  signed_mono_right m (pos a) (negsuc x) (negsuc y) h k = ground (arith, m a (suc y) (suc x))

  signed_mono_left :
      ((b c d : ℕ) → b ≤ c → f b d ≤ f c d)
      → (x y d : Float) → nought <ℤ d
      → x ≤ℤ y
      → signed f x d ≤ℤ signed f y d
  unfolding signed neg
  signed_mono_left m x y (negsuc d) h k = absurd (omega arith)
  signed_mono_left m (pos x) (pos y) (pos d) h k = ground (arith, m x y d)
  signed_mono_left m (pos x) (negsuc y) (pos d) h k = absurd (omega arith)
  signed_mono_left m (negsuc x) (pos y) (pos d) h k = ground arith
  signed_mono_left m (negsuc x) (negsuc y) (pos d) h k = ground (arith, m (suc y) (suc x) d)

  signed-nought : ((b : ℕ) → f 0 b ≡ 0) → (b : Float) → signed f nought b ≡ nought
  unfolding signed neg
  signed-nought z (pos b) = ap pos (z b)
  signed-nought z (negsuc b) = ground (arith, z (suc b))

scaled_product : ℕ → ℕ → ℕ
scaled_product a b = a * b / 10_000

scaled_quotient : ℕ → ℕ → ℕ
scaled_quotient a b = a * 10_000 / b

-- The nearest integer to the magnitude, with a half going up.
scaled_round : ℕ → ℕ → ℕ
scaled_round a b = (b + 5_000) / 10_000

unfoldable pub decimal : Numpy
unfolding signed scaled_product scaled_quotient scaled_round neg minimum maximum
decimal = record {
  lit = λ n k. pos (n * 10_000 / 10 ^ k);
  of_ℕ = λ n. pos (n * 10_000);
  mul = signed scaled_product;
  div = signed scaled_quotient;
  clip = λ x lo hi. minimum (maximum x lo) hi;
  round = signed scaled_round (pos 1);
}

div-le-div : (m n k : ℕ) → m ≤ n → m / k ≤ n / k
div-le-div m n zero h = omega arith
div-le-div m n (suc k) h =
    (le-div_iff_mul-le (omega arith)).1 (le_trans (div-mul-le_self m (suc k)) h)

decimal_div_self : (d : Float) → nought <ℤ d → decimal.div d d ≡ decimal.lit 1 0
unfolding decimal
decimal_div_self (pos n) h = ap pos (mul-div_cancel_left 10_000 (omega arith))
decimal_div_self (negsuc n) h = absurd (omega arith)

pub decimal-IsNumpy : IsNumpy decimal
unfolding decimal
decimal-IsNumpy = record {
  clip_lem = λ x lo hi. refl;
  mul_mono = signed_mono_right scaled_product λ a b c h.
      unfold scaled_product in div-le-div (a * b) (a * c) 10_000 (mul-le-mul (le_refl a) h);
  mul_comm = signed_comm scaled_product λ a b. unfold scaled_product in rw (mul_comm_ℕ a b);
  mul-neg = signed-neg_right scaled_product λ a. unfold scaled_product in omega arith;
  div_mono =
      signed_mono_left scaled_quotient
        λ b c d h. unfold scaled_quotient in div-le-div (b * 10_000) (c * 10_000) d (omega arith);
  div-neg = signed-neg_left scaled_quotient λ b. unfold scaled_quotient in zero-div b;
  div-nought = signed-nought scaled_quotient λ b. unfold scaled_quotient in zero-div b;
  div_self = decimal_div_self;
  of_ℕ_pos = λ n h. omega arith;
  one_pos = omega arith;
  of_ℕ-zero = refl;
}
