-- ===== src/Scan.antt =====
-- internal/scan: the walk over a chat's history.
pub mod Ages
pub mod Retry
