-- ===== src/Robot/ReferenceFilter/Bounds.antt =====
-- What the filter guarantees of every command, whatever the targets are.
use franka_deploy.Common.{
  ◌within◌, ◌≡◌, refl, List, [], ◌∷◌, neg, ◌+ℤ◌, ◌-ℤ◌, ◌≤ℤ◌, ◌<ℤ◌, int_laws, Float, Vec, nought,
  Numpy, IsNumpy, clip_bounds, clip_between, clip_above, sym, eq_of_parts, ◌∙◌, ap, neg_parts,
}
use franka_deploy.Robot.ReferenceFilter.{
  JerkLimitedReferenceFilter, reset, acc_of, velocity_of, step, run,
}

module _ (np : Numpy) (laws : IsNumpy np) where
  open np use {mul, div}

  mul_right_mono : (x y a : Float) → nought ≤ℤ a → x ≤ℤ y → mul x a ≤ℤ mul y a
  mul_right_mono x y a h k = rw (laws.mul_comm x a, laws.mul_comm y a) (laws.mul_mono a x y h k)

  mul-neg_left : (x a : Float) → mul (neg x) a ≡ neg (mul x a)
  mul-neg_left x a = laws.mul_comm (neg x) a ∙ laws.mul-neg a x ∙ ap neg (laws.mul_comm a x)

  mul-nonneg : (x a : Float) → nought ≤ℤ x → nought ≤ℤ a → nought ≤ℤ mul x a
  mul-nonneg x a h k =
      let both = laws.mul_mono x (neg a) a h (omega (int_laws, neg_parts a)) in
      let opposite = laws.mul-neg x a in
      let apart : neg (mul x a) ≤ℤ mul x a = rw opposite at both in
      omega (int_laws, neg_parts (mul x a))

  mul-within : (x b a : Float) → nought ≤ℤ a → x within b → mul x a within mul b a
  mul-within x b a h w =
      (rw (← mul-neg_left b a) (mul_right_mono (neg b) x a h w.0), mul_right_mono x b a h w.1)

  div-within : (x b d : Float) → nought <ℤ d → x within b → div x d within div b d
  div-within x b d h w =
      (rw (← laws.div-neg b d) (laws.div_mono (neg b) x d h w.0), laws.div_mono x b d h w.1)

module _ (np : Numpy) (laws : IsNumpy np) {D : Type 0} where
  open np use {mul, div}

  -- Limits that are not negative, and acceleration limits that a product with the period and a
  -- quotient by it do not round up.
  pub record IsConfigured (f : JerkLimitedReferenceFilter D) : Type 0 where
    pub dt_pos : nought <ℤ f.dt
    pub v_nonneg : (d : D) → nought ≤ℤ f.v_max d
    pub a_nonneg : (d : D) → nought ≤ℤ f.a_max d
    pub j_nonneg : (d : D) → nought ≤ℤ f.j_max d
    pub settled : (d : D) → div (mul (f.a_max d) f.dt) f.dt ≤ℤ f.a_max d

  pub record IsBounded (f : JerkLimitedReferenceFilter D) : Type 0 where
    pub velocity : (d : D) → f.qd_cmd d within f.v_max d
    pub acceleration : (d : D) → f.acc_prev d within f.a_max d

  -- The wanted acceleration is within the limit.
  acc_of-within :
      (f : JerkLimitedReferenceFilter D) (target : Vec D) (d : D)
      → IsConfigured f
      → IsBounded f
      → acc_of np f target d within f.a_max d
  unfolding acc_of
  acc_of-within f target d c b =
      let (low, high) = b.acceleration d in
      let jump = mul-nonneg np laws (f.j_max d) f.dt (c.j_nonneg d) (omega (int_laws, c.dt_pos)) in
      let a0 = c.a_nonneg d in
      let (wl, wh) =
        clip_bounds np laws (mul f.kp (target d -ℤ f.q_cmd d) -ℤ mul f.kd (f.qd_cmd d))
          (neg (f.a_max d)) (f.a_max d) (omega (int_laws, neg_parts (f.a_max d))) in
      clip_between np laws _ _ _ _ _ wl wh (omega int_laws) (omega int_laws)

  module _ (f : JerkLimitedReferenceFilter D) (target : Vec D) (c : IsConfigured f)
      (b : IsBounded f) (d : D) where
    -- The velocity changes by what the acceleration limit allows in a tick.
    velocity_of-within : (velocity_of np f target d -ℤ f.qd_cmd d) within mul (f.a_max d) f.dt
    unfolding velocity_of
    velocity_of-within =
        let (slow, fast) = b.velocity d in
        let dt0 : nought ≤ℤ f.dt = omega (int_laws, c.dt_pos) in
        let (down, up) =
          mul-within np laws (acc_of np f target d) (f.a_max d) f.dt dt0
            (acc_of-within f target d c b) in
        let most = mul-nonneg np laws (f.a_max d) f.dt (c.a_nonneg d) dt0 in
        let (lo, hi) =
          clip_between np laws (f.qd_cmd d +ℤ mul (acc_of np f target d) f.dt) (neg (f.v_max d))
            (f.v_max d) (f.qd_cmd d -ℤ mul (f.a_max d) f.dt) (f.qd_cmd d +ℤ mul (f.a_max d) f.dt)
            (omega int_laws) (omega int_laws) (omega int_laws) (omega int_laws) in
        (omega int_laws, omega int_laws)

    acceleration-within : div (velocity_of np f target d -ℤ f.qd_cmd d) f.dt within f.a_max d
    acceleration-within =
        let (low, high) = div-within np laws _ _ f.dt c.dt_pos velocity_of-within in
        (omega (int_laws, c.settled d), omega (int_laws, c.settled d))

    -- One tick moves the command by at most the velocity limit times the period.
    position-within : ((step np f target).q_cmd d -ℤ f.q_cmd d) within mul (f.v_max d) f.dt
    unfolding step velocity_of
    position-within =
        let dt0 : nought ≤ℤ f.dt = omega (int_laws, c.dt_pos) in
        let v0 = c.v_nonneg d in
        let (down, up) =
          mul-within np laws (velocity_of np f target d) (f.v_max d) f.dt dt0
            (clip_bounds np laws _ _ _ (omega int_laws)) in
        (omega int_laws, omega int_laws)

  step-IsConfigured :
      (f : JerkLimitedReferenceFilter D) (target : Vec D)
      → IsConfigured f
      → IsConfigured (step np f target)
  unfolding step
  step-IsConfigured f target c = record {
    dt_pos = c.dt_pos;
    v_nonneg = c.v_nonneg;
    a_nonneg = c.a_nonneg;
    j_nonneg = c.j_nonneg;
    settled = c.settled;
  }

  pub reset-IsConfigured :
      (f : JerkLimitedReferenceFilter D) (q0 : Vec D)
      → IsConfigured f
      → IsConfigured (reset np f q0)
  unfolding reset
  reset-IsConfigured f q0 c = record {
    dt_pos = c.dt_pos;
    v_nonneg = c.v_nonneg;
    a_nonneg = c.a_nonneg;
    j_nonneg = c.j_nonneg;
    settled = c.settled;
  }

  -- In a configured filter each tick keeps the velocity and the acceleration within their limits, and
  -- moves the command at every dimension by at most `v_max * dt`, whatever the target is.
  pub step-IsBounded :
      (f : JerkLimitedReferenceFilter D) (target : Vec D)
      → IsConfigured f
      → IsBounded f
      → IsConfigured (step np f target)
        × IsBounded (step np f target)
        × ((d : D) → ((step np f target).q_cmd d -ℤ f.q_cmd d) within mul (f.v_max d) f.dt)
  step-IsBounded f target c b = (
    step-IsConfigured f target c,
    unfold step velocity_of in
        record {
          velocity = λ d. clip_bounds np laws _ _ _ (omega (int_laws, c.v_nonneg d));
          acceleration = λ d. acceleration-within f target c b d;
        },
    λ d. position-within f target c b d,
  )

  -- After a reset the bounds hold at the end of every sequence of targets.
  pub run-IsBounded :
      (f : JerkLimitedReferenceFilter D) (q0 : Vec D) (targets : List (Vec D))
      → IsConfigured f
      → IsBounded (run np (reset np f q0) targets)
  unfolding run reset
  run-IsBounded f q0 targets c = go (reset np f q0) targets (reset-IsConfigured f q0 c) (record {
    velocity = λ d. omega (int_laws, c.v_nonneg d);
    acceleration = λ d. omega (int_laws, c.a_nonneg d);
  })
    where
      go :
          (g : JerkLimitedReferenceFilter D) (ts : List (Vec D))
          → IsConfigured g
          → IsBounded g
          → IsBounded (run np g ts)
      go g [] c b = b
      go g (t ∷ ts) c b = let (c', b', _) = step-IsBounded g t c b in go (step np g t) ts c' b'

  module _ (f : JerkLimitedReferenceFilter D) (target : Vec D) (d : D) where
    acc_of-ge :
        nought ≤ℤ mul (f.j_max d) f.dt
        → f.acc_prev d -ℤ mul (f.j_max d) f.dt ≤ℤ acc_of np f target d
    unfolding acc_of
    acc_of-ge h = (clip_bounds np laws _ _ _ (omega int_laws)).0

    velocity_of_limit :
        f.qd_cmd d ≡ f.v_max d
        → nought ≤ℤ f.v_max d
        → nought ≤ℤ mul (acc_of np f target d) f.dt
        → velocity_of np f target d ≡ f.qd_cmd d
    unfolding velocity_of
    velocity_of_limit top v0 p0 =
        clip_above np laws _ _ _ (omega int_laws) (rw top (omega int_laws)) ∙ sym top

  -- At the velocity limit, an acceleration that is more than the jerk limit allows in a tick drops to
  -- zero in one tick, whatever the target is: the change exceeds the jerk limit.
  pub step_jerk :
      (f : JerkLimitedReferenceFilter D) (target : Vec D) (d : D)
      → IsConfigured f
      → f.qd_cmd d ≡ f.v_max d
      → mul (f.j_max d) f.dt <ℤ f.acc_prev d
      → ((step np f target).acc_prev d ≡ nought)
        × (mul (f.j_max d) f.dt <ℤ f.acc_prev d -ℤ (step np f target).acc_prev d)
  unfolding step
  step_jerk f target d c top fast =
      let dt0 : nought ≤ℤ f.dt = omega (int_laws, c.dt_pos) in
      let jump = mul-nonneg np laws (f.j_max d) f.dt (c.j_nonneg d) dt0 in
      let ahead : nought ≤ℤ acc_of np f target d = omega (int_laws, acc_of-ge f target d jump) in
      let same =
        velocity_of_limit f target d top (c.v_nonneg d)
          (mul-nonneg np laws (acc_of np f target d) f.dt ahead dt0) in
      let still : velocity_of np f target d -ℤ f.qd_cmd d ≡ nought =
        rw same (eq_of_parts _ _ (omega int_laws)) in
      rw (still, laws.div-nought f.dt) (refl, omega int_laws)
