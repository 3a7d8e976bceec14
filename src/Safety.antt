-- ===== src/Safety.antt =====
-- franka_deploy/safety/: what stands between a policy's raw output and the robot.
pub mod Limits
pub mod Smoothing
pub mod Watchdog
pub mod Workspace
mod Examples
