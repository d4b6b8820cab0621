-- ===== src/Pipelines.antt =====
-- pkg/pipelines
pub mod Text
pub mod Vega
