-- ===== src/Tor.antt =====
-- controller/internal/tor: what the controller reads from Tor's control port.
pub mod Fields
pub mod Circuit
pub mod Directives
pub mod Events
pub mod Control
pub mod ControlLaws
pub mod Replies
pub mod Reader
pub mod ReaderMoves
pub mod ReaderLaws
pub mod Countries
pub mod Relays
pub mod Globe
pub mod EventLaws
