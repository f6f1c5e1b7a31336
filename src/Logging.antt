-- ===== src/Logging.antt =====
-- controller/internal/logging: the ring buffer that keeps the last lines of the log.
pub mod Ring
pub mod Parts
pub mod History
pub mod Writes
