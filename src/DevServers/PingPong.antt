-- ===== src/DevServers/PingPong.antt =====
-- scripts/dev_ee_pingpong_server.py: steps to the left and to the right in turn, with the gripper open.
-- `floor_div` is Python's `//`, as an integer.
use Prim.Native.String.{String}
use franka_deploy.Common.{
  ℕ, ◌+◌, ◌%◌, ◌==◌, ◌≡◌, refl, arith, Bool-cases, inl, inr, ◌⊎◌, not, Option, List, [], ◌∷◌, map,
  ℤ, pos, negsuc, neg, ◌+ℤ◌, Float, nought, Numpy, if◌then◌else◌,
}
use franka_deploy.Schema.Json.{Json, string, object, end, field}
use franka_deploy.DevServers.{Answer, sent, actions_to_json, range_from, post}

-- `n % 2`, which Python takes from 0 and 1 for negative numbers too.
abbrev pub parity : ℤ → ℕ
parity (pos n) = n % 2
parity (negsuc n) = (n + 1) % 2

module _ (np : Numpy) (floor_div : Float → Float → ℤ) (half_period dt : Float) (chunk_len : ℕ) where
  open np use {lit, mul, of_ℕ}

  unfoldable pub dy_at : Float → Float
  dy_at t = if parity (floor_div t half_period) == 0 then lit 1 0 else neg (lit 1 0)

  unfoldable pub row_at : Float → List Float
  unfolding dy_at
  row_at t = nought ∷ dy_at t ∷ nought ∷ nought ∷ nought ∷ nought ∷ neg (lit 1 0) ∷ []

  unfoldable pub chunk_at : Float → List (List Float)
  unfolding row_at
  chunk_at t0 = map (λ i. row_at (t0 +ℤ mul (of_ℕ i) dt)) (range_from 0 chunk_len)

  -- The body is read and not used.
  unfoldable pub do_post : String → Option Json → Float → Answer
  unfolding chunk_at
  do_post path body t0 =
      post (λ j. sent (object (field "instruction" (string "") end)) 200)
        (λ j. sent (actions_to_json (chunk_at t0)) 200) path body

  -- The step to one side, and to the other one.
  abbrev pub Side : Float → List Float → Type 0
  Side dy row = row ≡ nought ∷ dy ∷ nought ∷ nought ∷ nought ∷ nought ∷ neg (lit 1 0) ∷ []

  parity_next : (z : ℤ) → (parity (z +ℤ pos 1) == 0) ≡ not (parity z == 0)
  unfolding ◌+ℤ◌
  parity_next (pos n) = ground arith
  parity_next (negsuc n) = ground arith

  -- Half a period later the step goes to the other side: of the two, one goes to the left and one to the
  -- right, and neither moves otherwise. A division by the half period counts one more then.
  pub row_at_half :
      (t : Float)
      → floor_div (t +ℤ half_period) half_period ≡ floor_div t half_period +ℤ pos 1
      → (Side (lit 1 0) (row_at t) × Side (neg (lit 1 0)) (row_at (t +ℤ half_period)))
        ⊎ (Side (neg (lit 1 0)) (row_at t) × Side (lit 1 0) (row_at (t +ℤ half_period)))
  unfolding row_at dy_at
  row_at_half t next = elim (Bool-cases (parity (floor_div t half_period) == 0)) [
    | inl even ↦
        let odd = parity_next (floor_div t half_period) in
        inl (rw (even, row_at) refl, rw (next, row_at) (rw (odd, row_at) (rw (even, row_at) refl)))
    | inr uneven ↦
        let even = parity_next (floor_div t half_period) in
        inr (
          rw (uneven, row_at) refl,
          rw (next, row_at) (rw (even, row_at) (rw (uneven, row_at) refl)),
        )
  ]
