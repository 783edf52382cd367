-- ===== src/Discovery.antt =====
-- internal/discovery: from the containers of the daemon to projects and services.
pub mod Group
pub mod Locator
pub mod Reconcile
pub mod DockerName
