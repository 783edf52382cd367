-- ===== src/Scan.antt =====
-- internal/scan: the scan of one service.
pub mod Baseline
