-- ===== src/Stability.antt =====
-- Keeping the program up to date (packages/stability).
pub mod Update
