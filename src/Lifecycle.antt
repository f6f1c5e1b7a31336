-- ===== src/Lifecycle.antt =====
-- controller/internal/lifecycle: the state machine that brings the VM up and puts the network back.
pub mod State
pub mod Retry
pub mod Engine
pub mod Waits
pub mod Handlers
pub mod Polling
pub mod Turn
pub mod Invariant
pub mod Graph
pub mod Order
pub mod Ends
pub mod Cancel
pub mod Exit
pub mod Attempts
pub mod Reload
pub mod ReloadLaws
pub mod Browser
pub mod BrowserLaws
pub mod BrowserWait
