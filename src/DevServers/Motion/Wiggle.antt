-- ===== src/DevServers/Motion/Wiggle.antt =====
-- The rows that the motion server answers with.
use franka_deploy.Common.{
  ℕ, zero, suc, ◌+◌, ◌≡◌, refl, ap, ◌∙◌, int_laws, neg_parts, -ℤ_parts, +ℤ_parts, Option, some,
  List, [], ◌∷◌, ◌++◌, map, length, length-map, All, Float, nought, neg, ◌+ℤ◌, ◌-ℤ◌, ◌≤ℤ◌, ◌within◌,
  Numpy, IsNumpy,
}
use franka_deploy.Schema.Json.{Json, number, array, object, end, field, get}
use franka_deploy.Schema.Serialize.{items_of}
use franka_deploy.Kinematics.Trigonometry.{Trigonometry}
use franka_deploy.DevServers.{sent, actions_to_json, range_from}
use franka_deploy.DevServers.Motion.{wiggle, row_at, chunk_at, measured, too_short, do_post}

pub range_from-length : (i n : ℕ) → length (range_from i n) ≡ n
range_from-length i zero = refl
range_from-length i (suc n) = ap suc (range_from-length (i + 1) n)

-- A state with seven joints and a gripper.
abbrev pub state_json : Float → Float → Float → Float → Float → Float → Float → Float → Json
state_json a b c d e f g h =
    object (field "state" (array (items_of number (a ∷ b ∷ c ∷ d ∷ e ∷ f ∷ g ∷ h ∷ []))) end)

module _ (np : Numpy) (trig : Trigonometry) (entry to_float : Json → Option Float)
    (amplitude period dt : Float) (chunk_len : ℕ) where
  -- The sine lies between -1 and 1, and a product with 1 is the number itself.
  abbrev pub Oscillates : Type 0
  Oscillates =
      ((x : Float) → trig.sin x within np.lit 1 0)
      × (np.mul amplitude (np.lit 1 0) ≡ amplitude)
      × (nought ≤ℤ amplitude)

  mul_within :
      (laws : IsNumpy np) (s : Float)
      → np.mul amplitude (np.lit 1 0) ≡ amplitude
      → nought ≤ℤ amplitude
      → s within np.lit 1 0
      → np.mul amplitude s within amplitude
  mul_within laws s one positive (lo, hi) =
      let up = laws.mul_mono amplitude s (np.lit 1 0) positive hi in
      let down = laws.mul_mono amplitude (neg (np.lit 1 0)) s positive lo in
      (rw one at (rw (laws.mul-neg amplitude (np.lit 1 0)) at down), rw one at up)

  wiggle-within :
      (laws : IsNumpy np) (t0 : Float) (i : ℕ)
      → Oscillates
      → wiggle np trig entry to_float amplitude period dt chunk_len t0 i within amplitude
  wiggle-within laws t0 i (bounded, one, positive) = mul_within laws _ one positive (bounded _)

  -- A row keeps six joints and the gripper; the last joint stays near the one that was measured.
  abbrev pub Near : List Float × Float × Float → List Float → Type 0
  Near (others, x7, gripper) row =
      (x : Float) × (row ≡ others ++ x ∷ gripper ∷ [])
      × (x7 -ℤ amplitude ≤ℤ x)
      × (x ≤ℤ x7 +ℤ amplitude)

  shifted :
      (x w : Float) → w within amplitude → (x -ℤ amplitude ≤ℤ x +ℤ w) × (x +ℤ w ≤ℤ x +ℤ amplitude)
  shifted x w (lo, hi) =
      omega
        (int_laws, neg_parts amplitude, -ℤ_parts x amplitude, +ℤ_parts x w, +ℤ_parts x amplitude)

  rows-Near :
      (laws : IsNumpy np) (q : List Float × Float × Float) (t0 : Float) (ns : List ℕ)
      → Oscillates
      → All (Near q) (map (row_at np trig entry to_float amplitude period dt chunk_len q t0) ns)
  rows-Near laws (others, x7, gripper) t0 [] osc = tt
  rows-Near laws (others, x7, gripper) t0 (i ∷ ns) osc =
      let w = wiggle np trig entry to_float amplitude period dt chunk_len t0 i in
      let (lo, hi) = shifted x7 w (wiggle-within laws t0 i osc) in
      ((x7 +ℤ w, refl, lo, hi), rows-Near laws (others, x7, gripper) t0 ns osc)

  -- A request with the seven measured joints and the gripper is answered with a chunk of the given length.
  -- Each row holds the first six joints and the gripper as they were measured, and turns the last joint by at
  -- most the amplitude, at any time. numpy reads a number as itself, the sine is between -1 and 1, a product
  -- with 1 is the number itself, and the amplitude is not negative.
  pub do_post-predict :
      (laws : IsNumpy np) (a b c d e f g h t0 : Float)
      → ((x : Float) → entry (number x) ≡ some x)
      → ((x : Float) → to_float (number x) ≡ some x)
      → Oscillates
      → (rows : List (List Float)) × (do_post np trig entry to_float amplitude period dt chunk_len
            "/predict"
            (some (state_json a b c d e f g h))
            t0
          ≡ sent (actions_to_json rows) 200)
        × (length rows ≡ chunk_len)
        × All (Near (a ∷ b ∷ c ∷ d ∷ e ∷ f ∷ [], g, h)) rows
  unfolding do_post chunk_at measured too_short get
  do_post-predict laws a b c d e f g h t0 reads floats osc =
      let q : List Float × Float × Float = (a ∷ b ∷ c ∷ d ∷ e ∷ f ∷ [], g, h) in
      (
        chunk_at np trig entry to_float amplitude period dt chunk_len q t0,
        rw (reads a) (
            rw (reads b) (
              rw (reads c)
                (rw (reads d) (rw (reads e) (rw (reads f) (rw (reads g) (rw (floats h) refl))))))),
        length-map _ (range_from 0 chunk_len) ∙ range_from-length 0 chunk_len,
        rows-Near laws q t0 (range_from 0 chunk_len) osc,
      )
