-- ===== src/Safety/Smoothing.antt =====
-- franka_deploy/safety/smoothing.py: the exponential moving average on raw targets.
use franka_deploy.Common.{
  ◌≡◌, refl, arith, not, ◌&&◌, Option, none, some, List, [], ◌∷◌, ◌+ℤ◌, ◌-ℤ◌, ◌≤ℤ◌, ◌<ℤ◌, ltb_ℤ,
  leb_ℤ, int_laws, Float, Vec, nought, Numpy, IsNumpy, if◌then◌else◌, All, Bool-cases, ◌⊎◌, inl,
  inr, le-add_of_eq, add-le_of_eq,
}

-- One entry for each dimension of the targets.
pub record EmaSmoother (D : Type 0) : Type 0 where
  pub alpha : Float
  pub value : Option (Vec D)

abbrev pub one : Numpy → Float
one np = np.lit 1 0

module _ (np : Numpy) {D : Type 0} where
  open np use {mul}

  -- `none` is the `ValueError` of `__init__`.
  unfoldable pub make : Float → Option (EmaSmoother D)
  make alpha =
      if not (ltb_ℤ nought alpha && leb_ℤ alpha (one np))
      then none
      else some (record { alpha = alpha; value = none })

  unfoldable pub reset : EmaSmoother D → Vec D → EmaSmoother D
  reset s q0 = record s { value = some q0 }

  abbrev blend : Float → Vec D → Vec D → Vec D
  blend alpha raw old d = mul alpha (raw d) +ℤ mul (one np -ℤ alpha) (old d)

  abbrev next_value : Float → Vec D → Option (Vec D) → Vec D
  next_value alpha raw none = raw
  next_value alpha raw (some old) = blend alpha raw old

  -- The new smoother, and the smoothed target that `step` returns.
  unfoldable pub step : EmaSmoother D → Vec D → EmaSmoother D × Vec D
  step s raw =
      let value = next_value s.alpha raw s.value in (record s { value = some value }, value)

  -- The targets that a run of `step` returns.
  unfoldable pub run : EmaSmoother D → List (Vec D) → List (Vec D)
  run s [] = []
  run s (raw ∷ raws) = let (s', out) = step s raw in out ∷ run s' raws

  module _ (laws : IsNumpy np) (lo hi : Vec D) where
    -- A vector that lies in the box.
    abbrev pub Within : Vec D → Type 0
    Within v = (d : D) → (lo d ≤ℤ v d) × (v d ≤ℤ hi d)

    -- `alpha` is one that `make` accepts, and the two weights split the sides of the box without
    -- rounding.
    pub record Weights (alpha : Float) : Type 0 where
      pub alpha_pos : nought <ℤ alpha
      pub alpha-le-one : alpha ≤ℤ one np
      pub split_lo : (d : D) → mul alpha (lo d) +ℤ mul (one np -ℤ alpha) (lo d) ≡ lo d
      pub split_hi : (d : D) → mul alpha (hi d) +ℤ mul (one np -ℤ alpha) (hi d) ≡ hi d

    abbrev Started : Option (Vec D) → Type 0
    Started none = Unit
    Started (some v) = Within v

    blend-Within :
        (alpha : Float) (raw old : Vec D)
        → Weights alpha
        → Within raw
        → Within old
        → Within (blend alpha raw old)
    blend-Within alpha raw old w r o d =
        let a0 : nought ≤ℤ alpha = omega (arith, w.alpha_pos) in
        let b0 : nought ≤ℤ (one np -ℤ alpha) = omega (int_laws, w.alpha-le-one) in
        (
          le-add_of_eq _ _ _ _ _ (w.split_lo d) (laws.mul_mono _ _ _ a0 (r d).0)
              (laws.mul_mono _ _ _ b0 (o d).0),
          add-le_of_eq _ _ _ _ _ (w.split_hi d) (laws.mul_mono _ _ _ a0 (r d).1)
              (laws.mul_mono _ _ _ b0 (o d).1),
        )

    step-Within :
        (s : EmaSmoother D) (raw : Vec D)
        → Weights s.alpha
        → Within raw
        → Started s.value
        → Within (step s raw).1
    unfolding step
    step-Within s raw w r o = go s.value o
      where
        go : (value : Option (Vec D)) → Started value → Within (next_value s.alpha raw value)
        go none _ = r
        go (some old) o = blend-Within s.alpha raw old w r o

    run-Within_from :
        (s : EmaSmoother D) (raws : List (Vec D))
        → Weights s.alpha
        → Started s.value
        → All Within raws
        → All Within (run s raws)
    unfolding run step
    run-Within_from s [] w o h = tt
    run-Within_from s (raw ∷ raws) w o h =
        let now = step-Within s raw w h.0 o in (now, run-Within_from (step s raw).0 raws w now h.1)

    -- If the start of a run and every raw target lie in a box, so does every smoothed target, whatever
    -- the smoother held before its reset.
    pub run-Within :
        (s : EmaSmoother D) (q0 : Vec D) (raws : List (Vec D))
        → Weights s.alpha
        → Within q0
        → All Within raws
        → All Within (run (reset s q0) raws)
    unfolding reset
    run-Within s q0 raws w h hs = run-Within_from (reset s q0) raws w h hs

  -- `make` accepts just the weights in (0, 1], and a new smoother passes its first target through.
  pub make_lem :
      (alpha : Float)
      → ((make alpha ≡ none) × ((alpha ≤ℤ nought) ⊎ (one np <ℤ alpha)))
        ⊎ ((s : EmaSmoother D) × (make alpha ≡ some s)
            × (nought <ℤ alpha)
            × (alpha ≤ℤ one np)
            × ((raw : Vec D) → (step s raw).1 ≡ raw))
  unfolding make step
  make_lem alpha = elim (Bool-cases (ltb_ℤ nought alpha && leb_ℤ alpha (one np))) [
    | inl e ↦
        inr (record { alpha = alpha; value = none }, rw e, ground arith, ground arith, λ raw. refl)
    | inr e ↦ inl (rw e, ground arith)
  ]
