-- ===== src/Lifecycle/Attempts.antt =====
-- When controller/internal/lifecycle/retry.go tries a phase again, and how long it waits.
use torvmremix.Lifecycle.State.{State}
