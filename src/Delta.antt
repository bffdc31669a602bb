-- ===== src/Delta.antt =====
-- storage/delta: the three layers of point updates.
pub mod Cell
pub mod Merge
pub mod Patch
pub mod MemStore
pub mod Layers
mod Tests
