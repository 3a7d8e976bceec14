-- ===== src/Schema.antt =====
-- franka_deploy/schema/: what is sent to a policy server, and what its answers mean.
pub mod Options
pub mod Spec
pub mod Json
pub mod Encode
pub mod Sources
pub mod Client
pub mod Serialize
pub mod Plugins
pub mod Detect
pub mod Apply
mod Examples
