-- ===== src/Analysis.antt =====
-- packages/analysis: deterministic statistics, editable tags, filters and the report.
pub mod Metric
pub mod Tags
pub mod Store
pub mod Filters
pub mod Report
