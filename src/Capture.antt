-- ===== src/Capture.antt =====
-- Capturing pages from a phone (packages/capture): the persisted session.
pub mod Session
pub mod Lan
pub mod Adb
