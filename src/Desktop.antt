-- ===== src/Desktop.antt =====
-- The desktop application (apps/desktop): the controller of a capture.
pub mod Controller
