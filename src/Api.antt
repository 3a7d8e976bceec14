-- ===== src/Api.antt =====
-- franka_deploy/api/: the state of the app process and the HTTP routes.
pub mod State
pub mod Persist
pub mod Routes
pub mod Fence
pub mod Site
pub mod Previews
mod Examples
