-- ===== src/Secwatch.antt =====
-- controller/internal/secwatch: the events that the browser VM reports.
pub mod Monitor
pub mod Recent
pub mod MonitorLaws
