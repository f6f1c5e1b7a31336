-- ===== src/Metrics.antt =====
-- controller/internal/metrics: what is counted of the engine.
pub mod Recorder
pub mod Restarts
