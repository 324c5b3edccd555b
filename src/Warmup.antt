-- ===== src/Warmup.antt =====
-- The exercises of warmup/.
pub mod SortedPoints
pub mod WordCount
