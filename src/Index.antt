-- ===== src/Index.antt =====
-- controller/internal/index: the search over documents.
pub mod Tokens
pub mod TokenLaws
pub mod Meta
pub mod Filter
pub mod FilterLaws
pub mod Inverted
pub mod Tables
pub mod History
pub mod Search
