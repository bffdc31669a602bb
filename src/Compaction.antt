-- ===== src/Compaction.antt =====
-- compaction: the phases of a compaction.
pub mod Phase
mod Tests
