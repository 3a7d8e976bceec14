-- ===== src/Kinematics/Reach.antt =====
-- Where the solver can end.
use franka_deploy.Common.{
  ℕ, zero, suc, ◌≡◌, ◌⊎◌, inl, inr, refl, Option, none, some, ◌≤ℤ◌, ltb_ℤ, Float, Vec, Numpy,
  IsNumpy, clip_bounds, Bool-cases, Option-cases,
}
use franka_deploy.Safety.Limits.{Joint, fr3_q_lower, fr3_q_upper}
use franka_deploy.Kinematics.{Geometry, Pose, clipped, ik_from, ik}

-- What holds of a result, if there is one.
abbrev pub Each {ℓ} : {A : Type ℓ} → (A → Type 0) → Option A → Type 0
Each P none = Unit
Each P (some a) = P a

pub Each-mono {ℓ} :
    {A : Type ℓ} (P Q : A → Type 0) (o : Option A) → ((a : A) → P a → Q a) → Each P o → Each Q o
Each-mono P Q none f h = tt
Each-mono P Q (some a) f h = f a h

module _ (np : Numpy) (geo : Geometry) where
  abbrev pub Reachable : Vec Joint → Type 0
  Reachable q = (j : Joint) → (fr3_q_lower np j ≤ℤ q j) × (q j ≤ℤ fr3_q_upper np j)

  -- The limits of a joint leave a range.
  abbrev pub Ordered : Type 0
  Ordered = (j : Joint) → fr3_q_lower np j ≤ℤ fr3_q_upper np j

  -- The result of a solver that starts from `q`: within the limits, or `q` as it was.
  abbrev pub Lands : Vec Joint → Vec Joint → Type 0
  Lands q r = Reachable r ⊎ (r ≡ q)

  module _ (laws : IsNumpy np) (ordered : Ordered) where
    clipped-Reachable : (q dq : Vec Joint) → Reachable (clipped np geo q dq)
    unfolding clipped
    clipped-Reachable q dq j = clip_bounds np laws _ _ _ (ordered j)

    -- From joints within the limits every iteration stays within them.
    ik_from-Reachable :
        (iters : ℕ) (tol : Float) (target : Pose) (q : Vec Joint)
        → Reachable q
        → Each Reachable (ik_from np geo iters tol target q)
    unfolding ik_from
    ik_from-Reachable zero tol target q h = h
    ik_from-Reachable (suc n) tol target q h =
        elim (Bool-cases (ltb_ℤ (geo.error_norm target q) tol)) [
          | inl close ↦ rw (close, ik_from) h
          | inr far ↦ elim (Option-cases (geo.solve target q)) [
            | inl singular ↦ rw (far, ik_from) (rw singular tt)
            | inr (dq, solved) ↦
                rw (far, ik_from)
                  (rw solved
                    (ik_from-Reachable n tol target (clipped np geo q dq) (clipped-Reachable q dq)))
          ]
        ]

    ik_from-Lands :
        (iters : ℕ) (tol : Float) (target : Pose) (q : Vec Joint)
        → Each (Lands q) (ik_from np geo iters tol target q)
    unfolding ik_from
    ik_from-Lands zero tol target q = inr refl
    ik_from-Lands (suc n) tol target q = elim (Bool-cases (ltb_ℤ (geo.error_norm target q) tol)) [
      | inl close ↦ rw (close, ik_from) (inr refl)
      | inr far ↦ elim (Option-cases (geo.solve target q)) [
        | inl singular ↦ rw (far, ik_from) (rw singular tt)
        | inr (dq, solved) ↦
            rw (far, ik_from)
              (rw solved (
                Each-mono Reachable (Lands q) (ik_from np geo n tol target (clipped np geo q dq))
                  (λ r p. inl p)
                  (ik_from-Reachable n tol target (clipped np geo q dq) (clipped-Reachable q dq))))
      ]
    ]

    pub ik-Lands : (target : Pose) (q : Vec Joint) → Each (Lands q) (ik np geo target q)
    unfolding ik
    ik-Lands target q = ik_from-Lands 30 _ target q
