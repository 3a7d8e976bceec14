-- ===== src/Safety/Examples.antt =====
-- The theorems about franka_deploy/safety/ at concrete inputs, and tests.
use mathlib.Core.List.{Memᴰ}
use franka_deploy.Common.{
  ◌≡◌, refl, ◌↔◌, arith, true, false, none, List, [], ◌∷◌, ℤ, pos, negsuc, ◌+ℤ◌, ◌-ℤ◌, leb, Vec,
  All, decimal, decimal-IsNumpy, ok, err, maximum, minimum, abs, neg, ℕ, ◌<◌, ◌≤◌,
}
use franka_deploy.Safety.Limits
use franka_deploy.Safety.Limits.{Joint, j1, j2, j3, j4, j5, j6, j7}
use franka_deploy.Safety.Smoothing
use franka_deploy.Safety.Smoothing.{EmaSmoother}
use franka_deploy.Safety.Watchdog
use franka_deploy.Safety.Watchdog.{OscillationWatchdog}
use franka_deploy.Safety.Watchdog.Quiet
use franka_deploy.Safety.Watchdog.Debounce
use franka_deploy.Safety.Watchdog.Swing
use franka_deploy.Safety.Workspace
use franka_deploy.Safety.Workspace.{
  Axis, axis_x, axis_y, axis_z, WorkspaceBounds, WorkspaceExceeded,
}
use franka_deploy.Safety.Workspace.Fence

default_Fits : Limits.Fits decimal (Limits.default_joint_limit_margin decimal)
unfolding decimal Limits.fr3_q_lower Limits.fr3_q_upper Limits.default_joint_limit_margin neg ◌+ℤ◌
    ◌-ℤ◌
default_Fits j1 = omega arith
default_Fits j2 = omega arith
default_Fits j3 = omega arith
default_Fits j4 = omega arith
default_Fits j5 = omega arith
default_Fits j6 = omega arith
default_Fits j7 = omega arith

abbrev far_away : Vec Joint
far_away j = pos 100_000

clip_to_joint_limits_runs :
    Limits.clip_to_joint_limits decimal far_away (Limits.default_joint_limit_margin decimal) j4
    ≡ negsuc 2_017
unfolding Limits.clip_to_joint_limits Limits.fr3_q_lower Limits.fr3_q_upper
    Limits.default_joint_limit_margin decimal neg ◌+ℤ◌ ◌-ℤ◌ minimum maximum
clip_to_joint_limits_runs = refl

abbrev smoother : EmaSmoother Axis
smoother = record { alpha = pos 3_000; value = none }

abbrev at_each : ℕ → Vec Axis
at_each n axis = pos n

one_third : Smoothing.Weights decimal decimal-IsNumpy (at_each 0) (at_each 10_000) (pos 3_000)
unfolding decimal ◌+ℤ◌ ◌-ℤ◌
one_third = record {
  alpha_pos = omega arith;
  alpha-le-one = omega arith;
  split_lo = λ d. refl;
  split_hi = λ d. refl;
}

-- Three ticks to a window, half of the pairs to trip, twice in a row.
abbrev watchdog : OscillationWatchdog Joint
watchdog = record {
  window_size = 3;
  threshold = pos 5_000;
  trip_count_threshold = 2;
  velocity_deadzone = pos 200;
  history = [];
  consecutive_trips = 0;
}

abbrev moving : ℤ → Vec Joint
moving v j = v

abbrev to_and_fro : List (Vec Joint)
to_and_fro = moving (pos 900) ∷ moving (negsuc 899) ∷ moving (pos 900) ∷ []

abbrev joints : List Joint
joints = j1 ∷ j2 ∷ j3 ∷ j4 ∷ j5 ∷ j6 ∷ j7 ∷ []

answers_run :
    Watchdog.answers decimal joints watchdog (moving (negsuc 899) ∷ to_and_fro)
    ≡ false ∷ false ∷ false ∷ true ∷ []
unfolding Watchdog.answers Watchdog.update Watchdog.oscillates Watchdog.ratio Watchdog.push
    Watchdog.count_pairs Watchdog.sign_change Watchdog.both_moving decimal abs neg
answers_run = refl

answers-reset_early_example :
    All
      (λ b. b ≡ false)
      (Watchdog.answers decimal joints (Watchdog.reset decimal joints watchdog) to_and_fro)
answers-reset_early_example =
    Debounce.answers-reset_early decimal joints watchdog to_and_fro (omega arith)

update-reset_swing_example :
    (Watchdog.update decimal joints
      (Watchdog.feed decimal joints (Watchdog.reset decimal joints watchdog) to_and_fro)
      (moving (negsuc 899))).1
    ≡ leb 5 5
unfolding Watchdog.sign_change Watchdog.both_moving abs neg decimal
update-reset_swing_example =
    Swing.update-reset_swing decimal decimal-IsNumpy joints j1 watchdog to_and_fro
      (moving (negsuc 899)) (Memᴰ.head refl) (omega arith) (omega arith) (omega arith)
      (refl, (refl, (refl, tt)))

abbrev jitter : List (Vec Joint)
jitter = moving (pos 100) ∷ moving (negsuc 99) ∷ moving (pos 100) ∷ moving (negsuc 99) ∷ []

answers-reset_quiet_example :
    All
      (λ b. b ≡ false)
      (Watchdog.answers decimal joints (Watchdog.reset decimal joints watchdog) jitter)
unfolding abs neg
answers-reset_quiet_example =
    Quiet.answers-reset_quiet decimal decimal-IsNumpy joints (λ j. Quiet.resting) watchdog jitter
      (omega arith) (omega arith)
      (λ d. omega arith, (λ d. omega arith, (λ d. omega arith, (λ d. omega arith, tt))))

abbrev fence : WorkspaceBounds
fence = record { points = at_each 1_000 ∷ at_each 6_000 ∷ []; margin = pos 200 }

check_runs :
    (Workspace.check fence (at_each 3_000) ≡ ok tt)
    × (Workspace.check fence (at_each 5_900) ≡ err Workspace.workspace_exceeded)
unfolding Workspace.check Workspace.bbox Workspace.enabled ◌+ℤ◌ ◌-ℤ◌ minimum maximum
check_runs = (refl, refl)

check_iff_example :
    (1 < 2
      → (Workspace.check fence (at_each 3_000) ≡ ok tt)
        ↔ ((a : Axis) → Fence.Between (pos 200) fence.points (at_each 3_000) a))
    × (2 ≤ 1 → Workspace.check fence (at_each 3_000) ≡ ok tt)
check_iff_example = Fence.check_iff fence (at_each 3_000)

clip_to_joint_limits_idem_example :
    let margin = Limits.default_joint_limit_margin decimal in
    let q = Limits.clip_to_joint_limits decimal far_away margin in
    Limits.clip_to_joint_limits decimal q margin j4 ≡ q j4
clip_to_joint_limits_idem_example =
    Limits.clip_to_joint_limits_idem decimal decimal-IsNumpy far_away
      (Limits.default_joint_limit_margin decimal) default_Fits j4
