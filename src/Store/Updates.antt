-- ===== src/Store/Updates.antt =====
-- internal/store/updates.go and the table `updates` of internal/store/migrations: one definition
-- for each method, its SQL written out over the rows. The newest row stands first.
pub mod Defs
pub mod Writes
pub mod Reads
pub mod Drift
pub mod Keys
pub mod Upserts
pub mod Trace
