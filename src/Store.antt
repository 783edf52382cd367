-- ===== src/Store.antt =====
-- internal/store: the repositories over the SQLite database.
pub mod Sql
pub mod Transaction
pub mod Updates
pub mod Jobs
pub mod TagDigests
pub mod Services
pub mod Projects
