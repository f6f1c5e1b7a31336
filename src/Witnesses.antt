-- ===== src/Witnesses.antt =====
-- The theorems at concrete inputs, and tests of the text functions.
mod Runs
mod Texts
mod Vectors
mod Documents
mod Services
