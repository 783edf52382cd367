-- ===== src/Detect.antt =====
-- internal/detect: versions, tags and image references.
pub mod Semver
pub mod Ref
pub mod Reverse
pub mod Detector
