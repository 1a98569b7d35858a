-- ===== src/Core.antt =====
-- packages/core: the domain model, the completeness policy and the repository.
pub mod Question
pub mod Answers
pub mod Ids
pub mod Repository
pub mod Integrity
