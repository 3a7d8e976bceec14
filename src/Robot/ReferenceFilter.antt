-- ===== src/Robot/ReferenceFilter.antt =====
-- franka_deploy/robot/reference_filter.py: the filter between a setpoint and the commanded position.
pub mod Bounds
use franka_deploy.Common.{ℕ, ◌+◌, List, [], ◌∷◌, neg, ◌+ℤ◌, ◌-ℤ◌, Float, Vec, nought, Numpy}

pub record JerkLimitedReferenceFilter (D : Type 0) : Type 0 where
  pub dt : Float
  pub v_max : Vec D
  pub a_max : Vec D
  pub j_max : Vec D
  pub kp : Float
  pub kd : Float
  pub q_cmd : Vec D
  pub qd_cmd : Vec D
  pub acc_prev : Vec D

module _ (np : Numpy) {D : Type 0} where
  open np use {lit, mul, div, clip}

  -- kp = wn ** 2 and kd = 2 wn.
  unfoldable pub make : Float → Vec D → Vec D → Vec D → Float → JerkLimitedReferenceFilter D
  make dt v_max a_max j_max wn = record {
    dt = dt;
    v_max = v_max;
    a_max = a_max;
    j_max = j_max;
    kp = mul wn wn;
    kd = mul (lit 2 0) wn;
    q_cmd = λ d. nought;
    qd_cmd = λ d. nought;
    acc_prev = λ d. nought;
  }

  unfoldable pub reset : JerkLimitedReferenceFilter D → Vec D → JerkLimitedReferenceFilter D
  reset f q0 = record f { q_cmd = q0; qd_cmd = λ d. nought; acc_prev = λ d. nought }

  -- The acceleration that the filter wants, within the acceleration limit and then within the jerk limit.
  unfoldable pub acc_of : JerkLimitedReferenceFilter D → Vec D → Vec D
  acc_of f target d =
      let err = target d -ℤ f.q_cmd d in
      let acc_target = clip (mul f.kp err -ℤ mul f.kd (f.qd_cmd d)) (neg (f.a_max d)) (f.a_max d) in
      let dacc_max = mul (f.j_max d) f.dt in
      clip acc_target (f.acc_prev d -ℤ dacc_max) (f.acc_prev d +ℤ dacc_max)

  unfoldable pub velocity_of : JerkLimitedReferenceFilter D → Vec D → Vec D
  velocity_of f target d =
      clip (f.qd_cmd d +ℤ mul (acc_of f target d) f.dt) (neg (f.v_max d)) (f.v_max d)

  -- The next filter; the command that `step` returns is its `q_cmd`.
  unfoldable pub step : JerkLimitedReferenceFilter D → Vec D → JerkLimitedReferenceFilter D
  unfolding velocity_of
  step f target = record f {
    acc_prev = λ d. div (velocity_of f target d -ℤ f.qd_cmd d) f.dt;
    qd_cmd = velocity_of f target;
    q_cmd = λ d. f.q_cmd d +ℤ mul (velocity_of f target d) f.dt;
  }

  unfoldable pub run : JerkLimitedReferenceFilter D → List (Vec D) → JerkLimitedReferenceFilter D
  run f [] = f
  run f (target ∷ targets) = run (step f target) targets
