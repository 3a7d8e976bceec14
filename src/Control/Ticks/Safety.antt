-- ===== src/Control/Ticks/Safety.antt =====
-- Every target that the policy thread commands, over any run of its loop.
use franka_deploy.Common.{
  ◌≡◌, refl, arith, false, not, ◌&&◌, Option, none, List, [], ◌∷◌, ◌++◌, neg, ◌+ℤ◌, ◌-ℤ◌, ◌≤ℤ◌,
  ltb_ℤ, Float, Vec, nought, Numpy, IsNumpy, minimum, maximum, ◌within◌, ok, ok-injective,
  Result-split, >>=-ok, guard, or_raise, All, All-append, int_laws, Bool-cases, ltb_ℤ→lt, length,
  length-append, ◌+◌, inl, inr, clip_bounds,
}
use franka_deploy.Control.Config.{LoopConfig}
use franka_deploy.Safety.Limits.{
  Joint, Fits, fr3_q_lower, fr3_q_upper, default_joint_limit_margin, clip_to_joint_limits,
  clip_to_joint_limits_bounds,
}
use franka_deploy.Safety.Smoothing
use franka_deploy.Safety.Watchdog
use franka_deploy.Safety.Workspace.{Axis, WorkspaceBounds, enabled, bbox, check}
use franka_deploy.Control.Ticks.{
  Row, RobotState, Tick, ThreadState, Commanded, swap, lead, limited, in_fence, fenced, execute,
  round_of, rounds, row_at, robot_error, oscillation_tripped, index_error, adapter_error,
}

-- Without a fence every position passes.
check_disabled :
    (ws : WorkspaceBounds) (position : Vec Axis) → enabled ws ≡ false → check ws position ≡ ok tt
unfolding check bbox
check_disabled ws position h = rw h refl

-- A step of at most `m` from inside a range, cut to the range, is a step of at most `m`.
raised_step : (q y lo m : Float) → (y -ℤ q) within m → lo ≤ℤ q → (maximum y lo -ℤ q) within m
unfolding maximum
raised_step q y lo m h low = elim (Bool-cases (ltb_ℤ y lo)) [
  | inl e ↦ rw e (omega (int_laws, h.0, h.1, low, ltb_ℤ→lt y lo e))
  | inr e ↦ rw e h
]

lowered_step : (q y hi m : Float) → (y -ℤ q) within m → q ≤ℤ hi → (minimum y hi -ℤ q) within m
unfolding minimum
lowered_step q y hi m h high = elim (Bool-cases (ltb_ℤ hi y)) [
  | inl e ↦ rw e (
    omega (int_laws, h.0, h.1, high, ltb_ℤ→lt hi y e),
    omega (int_laws, h.0, h.1, high, ltb_ℤ→lt hi y e),
  )
  | inr e ↦ rw e h
]

clamped_step :
    (q x lo hi m : Float)
    → x within m
    → lo ≤ℤ q
    → q ≤ℤ hi
    → (minimum (maximum (q +ℤ x) lo) hi -ℤ q) within m
clamped_step q x lo hi m h low high =
    let moved : ((q +ℤ x) -ℤ q) within m = omega (int_laws, h.0, h.1) in
    lowered_step q (maximum (q +ℤ x) lo) hi m (raised_step q (q +ℤ x) lo m moved low) high

module _ (np : Numpy) (cfg : LoopConfig) (joints : List Joint) (fk : Vec Joint → Vec Axis)
    (row_to_joint_target : Row → Vec Joint → Option (Vec Joint × Float))
    (workspace : WorkspaceBounds) where
  -- What holds of a target when it is sent.
  pub record IsSafe (c : Commanded) : Type 0 where
    pub above : (j : Joint) → fr3_q_lower np j +ℤ default_joint_limit_margin np ≤ℤ c.target j
    pub below : (j : Joint) → c.target j ≤ℤ fr3_q_upper np j -ℤ default_joint_limit_margin np
    pub target_fenced : check workspace (fk c.target) ≡ ok tt
    pub robot_fenced : check workspace c.measured.ee_pos ≡ ok tt
    pub paced :
        (j : Joint)
        → fr3_q_lower np j +ℤ default_joint_limit_margin np ≤ℤ c.measured.q j
        → c.measured.q j ≤ℤ fr3_q_upper np j -ℤ default_joint_limit_margin np
        → (c.target j -ℤ c.measured.q j) within cfg.max_step_rad

  in_fence_ok :
      (position : Vec Axis)
      → in_fence np cfg joints fk row_to_joint_target workspace position ≡ ok tt
      → check workspace position ≡ ok tt
  in_fence_ok position h = ground arith

  fenced_ok :
      (st : RobotState) (target : Vec Joint)
      → fenced np cfg joints fk row_to_joint_target workspace st target ≡ ok tt
      → (check workspace (fk target) ≡ ok tt) × (check workspace st.ee_pos ≡ ok tt)
  fenced_ok st target h = elim (Bool-cases (enabled workspace)) [
    | inl on ↦
        let (_, first, second) =
          >>=-ok (in_fence np cfg joints fk row_to_joint_target workspace (fk target)) _
            (rw on at h) in
        (in_fence_ok (fk target) first, in_fence_ok st.ee_pos second)
    | inr off ↦ (check_disabled workspace (fk target) off, check_disabled workspace st.ee_pos off)
  ]

  module _ (laws : IsNumpy np) (fits : Fits np (default_joint_limit_margin np))
      (step_nonneg : nought ≤ℤ cfg.max_step_rad) where
    limited_step :
        (smoothed q : Vec Joint) (j : Joint)
        → fr3_q_lower np j +ℤ default_joint_limit_margin np ≤ℤ q j
        → q j ≤ℤ fr3_q_upper np j -ℤ default_joint_limit_margin np
        → (limited np cfg smoothed q j -ℤ q j) within cfg.max_step_rad
    unfolding limited clip_to_joint_limits
    limited_step smoothed q j low high =
        let step = np.clip (smoothed j -ℤ q j) (neg cfg.max_step_rad) cfg.max_step_rad in
        let lo = fr3_q_lower np j +ℤ default_joint_limit_margin np in
        let hi = fr3_q_upper np j -ℤ default_joint_limit_margin np in
        let small : step within cfg.max_step_rad =
          clip_bounds np laws _ _ _ (omega (int_laws, step_nonneg)) in
        rw (laws.clip_lem (q j +ℤ step) lo hi)
          (clamped_step (q j) step lo hi cfg.max_step_rad small low high)

    limited-IsSafe :
        (smoothed : Vec Joint) (st : RobotState)
        → check workspace (fk (limited np cfg smoothed st.q)) ≡ ok tt
        → check workspace st.ee_pos ≡ ok tt
        → IsSafe (record { measured = st; target = limited np cfg smoothed st.q })
    unfolding limited
    limited-IsSafe smoothed st target_ok robot_ok = record {
      above = λ j. (clip_to_joint_limits_bounds np laws _ (default_joint_limit_margin np) fits j).0;
      below = λ j. (clip_to_joint_limits_bounds np laws _ (default_joint_limit_margin np) fits j).1;
      target_fenced = target_ok;
      robot_fenced = robot_ok;
      paced = λ j low high. limited_step smoothed st.q j low high;
    }

    -- A tick that goes on has sent one target, and that target is safe.
    execute_sent :
        (s : ThreadState) (t : Tick) (s' : ThreadState)
        → execute np cfg joints fk row_to_joint_target workspace s t ≡ ok s'
        → (c : Commanded) × (s'.commanded ≡ s.commanded ++ c ∷ []) × IsSafe c
    unfolding execute
    execute_sent s t s' h =
        let (st, _, h₁) = >>=-ok (or_raise t.reads robot_error) _ h in
        let (_, _, h₂) =
          >>=-ok
            (guard (not (cfg.watchdog_enabled && (Watchdog.update np joints s.watchdog st.dq).1))
              oscillation_tripped)
            _ h₁ in
        let (row, _, h₃) =
          >>=-ok (or_raise (row_at s.progress.chunk s.progress.idx) index_error) _ h₂ in
        let (target8, _, h₄) =
          >>=-ok (or_raise (row_to_joint_target row st.q) adapter_error) _ h₃ in
        let smoothed = (Smoothing.step np s.smoother target8.0).1 in
        let q_tgt = limited np cfg smoothed st.q in
        let (_, in_box, h₅) =
          >>=-ok (fenced np cfg joints fk row_to_joint_target workspace st q_tgt) _ h₄ in
        let (_, _, h₆) = >>=-ok (guard t.accepts robot_error) _ h₅ in
        let (target_ok, robot_ok) = fenced_ok st q_tgt in_box in
        rw (← ok-injective _ s' h₆) (
          record { measured = st; target = q_tgt },
          refl,
          limited-IsSafe smoothed st target_ok robot_ok,
        )

    round_of_sent :
        (s : ThreadState) (t : Tick) (s' : ThreadState)
        → round_of np cfg joints fk row_to_joint_target workspace s t ≡ ok s'
        → (c : Commanded) × (s'.commanded ≡ s.commanded ++ c ∷ []) × IsSafe c
    unfolding round_of
    round_of_sent s t s' h =
        let (p, _, h₁) = >>=-ok (swap np cfg s.progress t) _ h in
        let (q, _, h₂) = >>=-ok (lead np cfg p t) _ h₁ in
        let at_q = record s { progress = q } in
        let (r, sent, h₃) =
          >>=-ok (execute np cfg joints fk row_to_joint_target workspace at_q t) _ h₂ in
        rw (← ok-injective _ s' h₃) (execute_sent at_q t r sent)

    -- Whatever chunks, measurements and clock readings the rounds of the policy thread meet, and however
    -- they end, every target that it commands keeps the margin to the joint limits, passes the fence
    -- together with the measured position of the end effector, and is at most the maximal step away from
    -- the measured joints wherever those keep the margin themselves. A run without a fault commands one
    -- target in each round. The maximal step is not negative, and the margin leaves a range at each joint.
    pub rounds-IsSafe :
        (s : ThreadState) (ts : List Tick)
        → All IsSafe s.commanded
        → All IsSafe (rounds np cfg joints fk row_to_joint_target workspace s ts).0.commanded
          × ((rounds np cfg joints fk row_to_joint_target workspace s ts).1 ≡ none
              → length (rounds np cfg joints fk row_to_joint_target workspace s ts).0.commanded
                ≡ length s.commanded + length ts)
    unfolding rounds
    rounds-IsSafe s [] safe = (safe, λ _. omega arith)
    rounds-IsSafe s (t ∷ ts) safe =
        elim (Result-split (round_of np cfg joints fk row_to_joint_target workspace s t)) [
          | inl (s', e) ↦
              let (c, sent, c_safe) = round_of_sent s t s' e in
              let now : All IsSafe s'.commanded =
                rw sent (All-append IsSafe s.commanded (c ∷ []) safe (c_safe, tt)) in
              let (all_safe, count) = rounds-IsSafe s' ts now in
              let longer : length s'.commanded ≡ length s.commanded + 1 =
                rw sent (length-append s.commanded (c ∷ [])) in
              rw (e, rounds) (all_safe, λ fine. omega (arith, count fine, longer))
          | inr (f, e) ↦ rw (e, rounds) (safe, λ fine. absurd (cc))
        ]
