-- ===== src/Schema/Detect/Formats.antt =====
-- The candidates of a detection: what each one says of the columns, and their order.
use Prim.Native.String.{String}
use franka_deploy.Common.{
  ℕ, suc, ◌+◌, ◌≡◌, ◌⊎◌, inl, inr, refl, arith, Bool, true, false, Option, none, some, List, [],
  ◌∷◌, leb_ℤ, leb_ℤ→le, leb_ℤ→gt, ◌≤ℤ◌, Float, Vec, nought, Numpy, if◌then◌else◌, length, ◌==◌, ok,
  err, All, All-append, Bool-cases, ==→eq, ◌∙◌, sym, ◌<◌,
}
use franka_deploy.Safety.Limits.{Joint}
use franka_deploy.Safety.Workspace.{Axis}
use franka_deploy.Schema.Spec.{
  Kind, joint_absolute, joint_delta, ee_absolute, ee_delta, other_kind, RotationRepr, quat, rot6d,
  axis_angle, other_rotation, ActionSpaceSpec, DetectionResult,
}
use franka_deploy.Schema.Detect.{
  Response, insert, sort, score_joint, score_ee, joint_candidate, ee_candidates, candidates_of,
  or_guess, detect_action_space, rotation_reprs, first, rectangular,
}

abbrev pub Descending : List ActionSpaceSpec → Type 0
Descending [] = Unit
Descending (c ∷ cs) = All (λ d. d.confidence ≤ℤ c.confidence) cs × Descending cs

insert-All :
    (P : ActionSpaceSpec → Type 0) (c : ActionSpaceSpec) (cs : List ActionSpaceSpec)
    → P c
    → All P cs
    → All P (insert c cs)
unfolding insert
insert-All P c [] p ps = (p, tt)
insert-All P c (d ∷ ds) p ps = elim (Bool-cases (leb_ℤ d.confidence c.confidence)) [
  | inl e ↦ rw e (p, ps)
  | inr e ↦ rw e (ps.0, insert-All P c ds p ps.1)
]

sort-All : (P : ActionSpaceSpec → Type 0) (cs : List ActionSpaceSpec) → All P cs → All P (sort cs)
unfolding sort
sort-All P [] ps = tt
sort-All P (c ∷ cs) ps = insert-All P c (sort cs) ps.0 (sort-All P cs ps.1)

All-mono :
    (P Q : ActionSpaceSpec → Type 0) (cs : List ActionSpaceSpec)
    → ((c : ActionSpaceSpec) → P c → Q c)
    → All P cs
    → All Q cs
All-mono P Q [] f ps = tt
All-mono P Q (c ∷ cs) f ps = (f c ps.0, All-mono P Q cs f ps.1)

insert-Descending :
    (c : ActionSpaceSpec) (cs : List ActionSpaceSpec) → Descending cs → Descending (insert c cs)
unfolding insert
insert-Descending c [] h = (tt, tt)
insert-Descending c (d ∷ ds) h = elim (Bool-cases (leb_ℤ d.confidence c.confidence)) [
  | inl e ↦
      let below = leb_ℤ→le d.confidence c.confidence e in
      rw e ((below, All-mono _ _ ds (λ x p. omega (arith, p, below)) h.0), h)
  | inr e ↦
      let above = leb_ℤ→gt d.confidence c.confidence e in
      rw e (insert-All _ c ds (omega (arith, above)) h.0, insert-Descending c ds h.1)
]

sort-Descending : (cs : List ActionSpaceSpec) → Descending (sort cs)
unfolding sort
sort-Descending [] = tt
sort-Descending (c ∷ cs) = insert-Descending c (sort cs) (sort-Descending cs)

insert-length :
    (c : ActionSpaceSpec) (cs : List ActionSpaceSpec) → length (insert c cs) ≡ suc (length cs)
unfolding insert
insert-length c [] = refl
insert-length c (d ∷ ds) = elim (Bool-cases (leb_ℤ d.confidence c.confidence)) [
  | inl e ↦ rw e refl
  | inr e ↦ rw e (omega (arith, insert-length c ds))
]

sort-length : (cs : List ActionSpaceSpec) → 0 < length cs → 0 < length (sort cs)
unfolding sort
sort-length [] h = h
sort-length (c ∷ cs) h = rw (insert-length c (sort cs)) (omega arith)

-- The columns that a format takes: seven joints, or a position and a rotation, and the gripper.
abbrev pub columns_of : Option RotationRepr → Bool → ℕ
columns_of none has_gripper = 7 + (if has_gripper then 1 else 0)
columns_of (some axis_angle) has_gripper = 6 + (if has_gripper then 1 else 0)
columns_of (some quat) has_gripper = 7 + (if has_gripper then 1 else 0)
columns_of (some rot6d) has_gripper = 9 + (if has_gripper then 1 else 0)
columns_of (some (other_rotation r)) has_gripper = 0

-- A kind of joints comes without a rotation, a kind of end effector with one.
abbrev pub Agrees : Kind → Option RotationRepr → Type 0
Agrees joint_absolute r = r ≡ none
Agrees joint_delta r = r ≡ none
Agrees ee_absolute r = (q : RotationRepr) × (r ≡ some q)
Agrees ee_delta r = (q : RotationRepr) × (r ≡ some q)
Agrees (other_kind k) r = ⊥

-- The format takes exactly the columns, or it is a guess without confidence.
pub record Explains (d : ℕ) (c : ActionSpaceSpec) : Type 0 where
  pub dim_eq : c.dim ≡ d
  pub agrees : Agrees c.kind c.rotation_repr
  pub columns_eq : (columns_of c.rotation_repr c.has_gripper ≡ d) ⊎ (c.confidence ≡ nought)

module _ (np : Numpy) (norm : Vec Axis → Float) (shaped : Bool → Option RotationRepr → String)
    (unshaped : ℕ → String) where
  score_joint-Agrees :
      (row : List Float) (q : Vec Joint) → Agrees (score_joint np norm shaped unshaped row q).0 none
  unfolding score_joint
  score_joint-Agrees row q = ground arith

  score_ee-Agrees :
      (row : List Float) (p : Vec Axis) (r : RotationRepr)
      → Agrees (score_ee np norm shaped unshaped row p).0 (some r)
  unfolding score_ee
  score_ee-Agrees row p r = ground arith

  joint_candidate-Explains :
      (chunk : Response) (row : List Float) (d : ℕ) (q : Vec Joint) (has_gripper : Bool) (n : ℕ)
      → columns_of none has_gripper ≡ n
      → All (Explains d) (joint_candidate np norm shaped unshaped chunk row d q has_gripper n)
  unfolding joint_candidate
  joint_candidate-Explains chunk row d q has_gripper n h = elim (Bool-cases (d == n)) [
    | inl e ↦ rw e (
      record {
        dim_eq = refl;
        agrees = score_joint-Agrees row q;
        columns_eq = inl (h ∙ sym (==→eq d n e));
      },
      tt,
    )
    | inr e ↦ rw e tt
  ]

  ee_candidates-Explains :
      (chunk : Response) (row : List Float) (d : ℕ) (p : Vec Axis) (has_gripper : Bool)
      (reprs : List (ℕ × RotationRepr))
      → All
          (λ (r : ℕ × RotationRepr).
            columns_of (some r.1) has_gripper ≡ 3 + r.0 + (if has_gripper then 1 else 0))
          reprs
      → All (Explains d) (ee_candidates np norm shaped unshaped chunk row d p has_gripper reprs)
  unfolding ee_candidates
  ee_candidates-Explains chunk row d p has_gripper [] h = tt
  ee_candidates-Explains chunk row d p has_gripper ((n, r) ∷ reprs) h =
      let rest = ee_candidates-Explains chunk row d p has_gripper reprs h.1 in
      let width = 3 + n + (if has_gripper then 1 else 0) in
      elim (Bool-cases (d == width)) [
        | inl e ↦ rw e (
          record {
            dim_eq = refl;
            agrees = score_ee-Agrees row p r;
            columns_eq = inl (h.0 ∙ sym (==→eq d width e));
          },
          rest,
        )
        | inr e ↦ rw e rest
      ]

  candidates_of-Explains :
      (chunk : Response) (row : List Float) (d : ℕ) (q : Vec Joint) (p : Vec Axis)
      → All (Explains d) (candidates_of np norm shaped unshaped chunk row d q p)
  unfolding candidates_of
  candidates_of-Explains chunk row d q p =
      All-append _ _ _
        (All-append _ _ _
          (All-append _ _ _ (joint_candidate-Explains chunk row d q true 8 refl)
            (joint_candidate-Explains chunk row d q false 7 refl))
          (ee_candidates-Explains chunk row d p true rotation_reprs (refl, (refl, (refl, tt)))))
        (ee_candidates-Explains chunk row d p false rotation_reprs (refl, (refl, (refl, tt))))

  or_guess-Explains :
      (d : ℕ) (cs : List ActionSpaceSpec)
      → All (Explains d) cs
      → All (Explains d) (or_guess np norm shaped unshaped d cs)
  unfolding or_guess
  or_guess-Explains d [] h = (record { dim_eq = refl; agrees = refl; columns_eq = inr refl }, tt)
  or_guess-Explains d (c ∷ cs) h = h

  or_guess-length :
      (d : ℕ) (cs : List ActionSpaceSpec) → 0 < length (or_guess np norm shaped unshaped d cs)
  unfolding or_guess
  or_guess-length d [] = omega arith
  or_guess-length d (c ∷ cs) = omega arith

  -- The answer of a detection for a response with a first row.
  pub record IsSound (row : List Float) (n : ℕ) (r : DetectionResult) : Type 0 where
    pub leads : (rest : List ActionSpaceSpec) × (r.candidates ≡ r.spec ∷ rest)
    pub descends : Descending r.candidates
    pub explained : All (Explains (length row)) r.candidates
    pub shape_eq : r.chunk_shape ≡ (n, length row)
    pub sample_eq : r.sample_row ≡ row

  first_ok :
      (cs : List ActionSpaceSpec) (row : List Float) (n : ℕ)
      → 0 < length cs
      → Descending cs
      → All (Explains (length row)) cs
      → (r : DetectionResult) × (first np norm shaped unshaped cs row (n, length row) ≡ ok r)
        × IsSound row n r
  first_ok [] row n h desc known = absurd (omega arith)
  first_ok (c ∷ cs) row n h desc known = (
    record { spec = c; sample_row = row; chunk_shape = (n, length row); candidates = c ∷ cs },
    refl,
    record {
      leads = (cs, refl);
      descends = desc;
      explained = known;
      shape_eq = refl;
      sample_eq = refl;
    },
  )

  -- A response of rows that are all as long as the first one is never refused: the detection returns
  -- candidates in descending order of confidence, the first of them as its answer. Each of them takes
  -- exactly the columns of the response, or is a guess with confidence zero, and has a rotation exactly if
  -- it is a kind of end effector. A response without rows, or with rows of different lengths, is refused.
  pub detect_action_space_cases :
      (q : Vec Joint) (p : Vec Axis) (row : List Float) (rows : Response)
      → (rectangular (length row) rows ≡ true
          → (r : DetectionResult) × (detect_action_space np norm shaped unshaped (row ∷ rows) q p
              ≡ ok r)
            × IsSound row (suc (length rows)) r)
        × (rectangular (length row) rows ≡ false
            → detect_action_space np norm shaped unshaped (row ∷ rows) q p ≡ err tt)
        × (detect_action_space np norm shaped unshaped [] q p ≡ err tt)
  unfolding detect_action_space
  detect_action_space_cases q p row rows =
      let found =
        or_guess np norm shaped unshaped (length row)
          (candidates_of np norm shaped unshaped (row ∷ rows) row (length row) q p) in
      (
        λ even. rw even (
            first_ok (sort found) row (suc (length rows)) (sort-length found (or_guess-length _ _))
              (sort-Descending found)
              (sort-All _ found (
                or_guess-Explains _ _ (candidates_of-Explains (row ∷ rows) row (length row) q p)))),
        λ ragged. rw ragged refl,
        refl,
      )
