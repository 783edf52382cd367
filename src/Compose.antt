-- ===== src/Compose.antt =====
-- internal/compose: the compose commands, the services that share a namespace, and the edit of an
-- image line.
pub mod Runner
pub mod Dependents
pub mod Rewrite
