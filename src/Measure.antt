-- ===== src/Measure.antt =====
-- tools/measure_corpus.py: how many applications each source names, and their union. A set is a
-- list without repetition.
pub mod Sets
pub mod Normalize
pub mod Sources
pub mod Netify
pub mod Report
pub mod Counts
pub mod Keys
mod Tests
