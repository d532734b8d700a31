-- ===== src/App.antt =====
-- internal/app: the pipeline.
pub mod Pipeline
