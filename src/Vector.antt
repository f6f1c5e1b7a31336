-- ===== src/Vector.antt =====
-- controller/internal/vectorindex: the search by similar meaning.
pub mod Partial
pub mod Counts
pub mod Heap
pub mod HeapLaws
pub mod Search
pub mod Insert
pub mod Beams
pub mod Layers
pub mod Descent
pub mod Select
pub mod Distances
pub mod Links
pub mod Neat
pub mod Linking
pub mod Connect
pub mod WellFormed
pub mod Grow
pub mod Answers
pub mod Embed
pub mod EmbedLaws
pub mod Index
pub mod IndexLaws
pub mod Replies
pub mod Graph
