-- ===== src/Api.antt =====
-- apps/api: the control plane.
pub mod DeploymentService
pub mod DeploymentState
