-- ===== src/Update.antt =====
-- controller/internal/update: the search for a newer release.
pub mod Versions
pub mod VersionLaws
pub mod Checker
pub mod Notices
