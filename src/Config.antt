-- ===== src/Config.antt =====
-- controller/internal/config: the settings of the controller, their checks and what is made of them.
pub mod Schema
pub mod Address
pub mod Validate
pub mod Torrc
pub mod CleanAddress
pub mod Directives
pub mod Overlay
pub mod Deep
pub mod Diff
pub mod DiffLaws
