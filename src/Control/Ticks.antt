-- ===== src/Control/Ticks.antt =====
-- `ControlLoop._run` of franka_deploy/control_loop.py: the ticks of the policy thread.
-- The clock, the policy server and the robot node come in as the fields of a `Tick`. The kinematics and
-- the adapter of the confirmed format are parameters here.
pub mod Yields
pub mod Schedule
pub mod Safety
use franka_deploy.Common.{
  ℕ, zero, suc, ◌+◌, ◌-◌, ◌≡◌, Bool, true, false, not, ◌&&◌, Option, none, some, List, [], ◌∷◌,
  ◌++◌, ℤ, pos, negsuc, neg, sub_ℕ, ◌+ℤ◌, ◌-ℤ◌, ltb, leb, ltb_ℤ, leb_ℤ, Float, Vec, nought, Numpy,
  minimum, maximum, if◌then◌else◌, length, get_elem?, get_item, Result, ok, err, ◌>>=◌, ◌>>◌, guard,
  or_raise, min,
}
use franka_deploy.Control.Config.{LoopConfig}
use franka_deploy.Safety.Limits.{Joint, clip_to_joint_limits, default_joint_limit_margin}
use franka_deploy.Safety.Smoothing
use franka_deploy.Safety.Smoothing.{EmaSmoother}
use franka_deploy.Safety.Watchdog
use franka_deploy.Safety.Watchdog.{OscillationWatchdog}
use franka_deploy.Safety.Workspace.{Axis, WorkspaceBounds, WorkspaceExceeded, enabled, check}
use franka_deploy.Robot.Gripper.{GripperRuntime, set_target}

abbrev pub Row : Type 0
Row = List Float

-- What ends the loop.
pub data Fault : Type 0 where
  oscillation_tripped workspace_fault index_error adapter_error server_error robot_error : Fault

-- What `get_state` answers, with the position of the end effector.
pub record RobotState : Type 0 where
  pub q : Vec Joint
  pub dq : Vec Joint
  pub ee_pos : Vec Axis

-- The world during one round of the loop: the clock where it is read, whether the observations for a
-- prediction, in the foreground and ahead, can be made, the chunk that a prediction returns, the robot's state, and whether the node
-- takes the target; `none` and `false` stand for an exception.
pub record Tick : Type 0 where
  pub observed_at : Float
  pub swapped_at : Float
  pub fired_at : Float
  pub ended_at : Float
  pub observes : Bool
  pub observes_ahead : Bool
  pub pending_done : Bool
  pub predicts : Option (List Row)
  pub reads : Option RobotState
  pub accepts : Bool

-- The local variables of `_run`; `pending` says whether a prediction is in flight.
pub record Progress : Type 0 where
  pub chunk : List Row
  pub idx : ℤ
  pub pending : Bool
  pub t_obs : Float
  pub n_replans : ℕ
  pub n_late : ℕ
  pub t_next : Float

-- A target as it was commanded, with the measurement that it was computed from.
pub record Commanded : Type 0 where
  pub measured : RobotState
  pub target : Vec Joint

pub record ThreadState : Type 0 where
  pub progress : Progress
  pub smoother : EmaSmoother Joint
  pub watchdog : OscillationWatchdog Joint
  pub gripper : Option GripperRuntime
  pub commanded : List Commanded

unfoldable pub horizon_of : LoopConfig → List Row → ℕ
horizon_of cfg chunk = min (length chunk) cfg.exec_horizon

-- `chunk[idx]`.
unfoldable pub row_at : List Row → ℤ → Option Row
row_at chunk idx = get_item chunk idx

-- Before the loop: the first chunk, and the clock after its prediction.
unfoldable pub begun : List Row → Float → Progress
begun chunk now = record {
  chunk = chunk;
  idx = pos 0;
  pending = false;
  t_obs = nought;
  n_replans = 1;
  n_late = 0;
  t_next = now;
}

module _ (np : Numpy) (cfg : LoopConfig) where
  open np use {lit, mul, div, clip, round}

  -- `_run` computes it before its `try`, and dies there if `fps` is zero.
  abbrev pub dt : Float
  dt = div (lit 1 0) cfg.fps

  -- The index at which a new chunk is taken up: the ticks since its observation, inside the horizon.
  unfoldable pub resume_at : Float → Float → ℕ → ℤ
  resume_at now t_obs horizon =
      minimum (maximum (round (div (now -ℤ t_obs) dt)) (pos 0)) (sub_ℕ horizon 1)

  -- A prediction in the foreground, or the result of the one in flight.
  unfoldable pub fetched : Progress → Tick → Result Fault Progress
  fetched p t =
      if p.pending
      then (do
        chunk ← or_raise t.predicts server_error
        ok (record p {
          chunk = chunk;
          pending = false;
          n_late = if t.pending_done then p.n_late else p.n_late + 1;
        }))
      else (do
        guard t.observes robot_error
        chunk ← or_raise t.predicts server_error
        ok (record p { chunk = chunk; t_obs = t.observed_at }))

  -- (1) the chunk is exhausted.
  unfoldable pub swap : Progress → Tick → Result Fault Progress
  swap p t = if ltb_ℤ p.idx (pos (horizon_of cfg p.chunk)) then ok p else (do
    p' ← fetched p t
    ok (record p' {
      n_replans = p'.n_replans + 1;
      idx = resume_at t.swapped_at p'.t_obs (horizon_of cfg p'.chunk);
    }))

  -- (2) close to the boundary, the next prediction is fired.
  unfoldable pub lead : Progress → Tick → Result Fault Progress
  lead p t =
      if not p.pending
        && ltb 0 cfg.lead_ticks
        && leb_ℤ (pos (horizon_of cfg p.chunk) -ℤ pos cfg.lead_ticks) p.idx
      then (do
        guard t.observes_ahead robot_error
        ok (record p { t_obs = t.fired_at; pending = true }))
      else ok p

  -- The clamp of a step against the measurement, and then the clip to the joint limits.
  unfoldable pub limited : Vec Joint → Vec Joint → Vec Joint
  limited smoothed q_meas =
      clip_to_joint_limits np
        (λ j. q_meas j +ℤ clip (smoothed j -ℤ q_meas j) (neg cfg.max_step_rad) cfg.max_step_rad)
        (default_joint_limit_margin np)

  -- The schedule after a tick: a loop that is badly behind starts over from now.
  unfoldable pub paced : Progress → Tick → Progress
  paced p t =
      let t_next = p.t_next +ℤ dt in
      let sleep_s = t_next -ℤ t.ended_at in
      let late = not (ltb_ℤ nought sleep_s) && ltb_ℤ sleep_s (neg dt) in
      record p { t_next = if late then t.ended_at else t_next }

  module _ (joints : List Joint) (fk : Vec Joint → Vec Axis)
      (row_to_joint_target : Row → Vec Joint → Option (Vec Joint × Float))
      (workspace : WorkspaceBounds) where
    abbrev pub in_fence : Vec Axis → Result Fault (Unit {0})
    in_fence position = elim (check workspace position) [
      | ok _ ↦ ok tt
      | err e ↦ err workspace_fault
    ]

    abbrev pub fenced : RobotState → Vec Joint → Result Fault (Unit {0})
    fenced st q_tgt =
        if enabled workspace then (do in_fence (fk q_tgt); in_fence st.ee_pos) else ok tt

    -- (3) one tick, anchored at the latest measurement.
    unfoldable pub execute : ThreadState → Tick → Result Fault ThreadState
    execute s t = do
      st ← or_raise t.reads robot_error
      let watched = Watchdog.update np joints s.watchdog st.dq
      guard (not (cfg.watchdog_enabled && watched.1)) oscillation_tripped
      row ← or_raise (row_at s.progress.chunk s.progress.idx) index_error
      target8 ← or_raise (row_to_joint_target row st.q) adapter_error
      let smoothed = Smoothing.step np s.smoother target8.0
      let q_tgt = limited smoothed.1 st.q
      fenced st q_tgt
      guard t.accepts robot_error
      ok (record s {
        progress = record s.progress { idx = s.progress.idx +ℤ pos 1 };
        smoother = smoothed.0;
        watchdog = if cfg.watchdog_enabled then watched.0 else s.watchdog;
        gripper = elim s.gripper [ none ↦ none | some g ↦ some (set_target np g target8.1) ];
        commanded = s.commanded ++ record { measured = st; target = q_tgt } ∷ [];
      })

    -- One round of the `while`.
    unfoldable pub round_of : ThreadState → Tick → Result Fault ThreadState
    round_of s t = do
      swapped ← swap s.progress t
      led ← lead swapped t
      s' ← execute (record s { progress = led }) t
      ok (record s' { progress = paced s'.progress t })

    -- The rounds until `stop_evt` is set after the last tick, or a fault: then the commands up to it.
    unfoldable pub rounds : ThreadState → List Tick → ThreadState × Option Fault
    rounds s [] = (s, none)
    rounds s (t ∷ ts) = elim (round_of s t) [ err e ↦ (s, some e) | ok s' ↦ rounds s' ts ]
