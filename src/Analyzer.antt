-- ===== src/Analyzer.antt =====
-- The analyzer
pub mod Rules
pub mod Window
pub mod Similarity
pub mod Counting
pub mod Covering
pub mod Passage
pub mod Range
pub mod Analysis
pub mod Degraded
pub mod Trust
pub mod Floor
pub mod Matches
