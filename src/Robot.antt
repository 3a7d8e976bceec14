-- ===== src/Robot.antt =====
-- franka_deploy/robot/: the process that owns the robot, and its client.
pub mod ReferenceFilter
pub mod Gripper
mod Examples
pub mod Node
pub mod Runtime
