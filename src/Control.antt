-- ===== src/Control.antt =====
-- franka_deploy/control_loop.py: the session with the robot.
pub mod Loop
pub mod Config
pub mod Ticks
pub mod Run
pub mod Observation
mod Examples
pub mod Deployment
