-- ===== src/Control/Config.antt =====
-- `LoopConfig` of franka_deploy/control_loop.py.
use franka_deploy.Common.{ℕ, Bool, Float}

pub record LoopConfig : Type 0 where
  pub fps : Float
  pub exec_horizon : ℕ
  pub lead_ticks : ℕ
  pub max_step_rad : Float
  pub ema_alpha : Float
  pub watchdog_enabled : Bool
  pub watchdog_window : ℕ
  pub watchdog_threshold : Float
  pub watchdog_trip_count : ℕ
  pub watchdog_deadzone : Float
