-- ===== src/Job.antt =====
-- internal/job: the job engine. It is the only component that mutates Docker.
pub mod Effects
pub mod Health
pub mod Steps
pub mod Settle
pub mod Apply
pub mod Rollback
pub mod Dispatch
pub mod Standalone
pub mod Lifecycle
pub mod SelfUpdater
pub mod Engine
