-- ===== src/Ai.antt =====
-- The analysis by a language model (packages/ai/service.py), which may add to a question but may
-- not touch its official fields.
pub mod Protect
pub mod Payload
pub mod Stats
pub mod Cache
pub mod Service
pub mod Schedule
