-- ===== src/Wal.antt =====
-- write: the records of the write-ahead log, and their replay.
pub mod Op
pub mod Recovery
pub mod GroupCommit
mod Tests
