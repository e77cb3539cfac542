-- ===== src/WordDiff.antt =====
-- apdiff-viewer/src/diff/word_diff.rs: the words that changed between two versions of a line.
pub mod Words
pub mod Segments
pub mod Consolidation
pub mod Tests
