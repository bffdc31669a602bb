-- ===== src/Segment.antt =====
-- segment: the masks of a segment.
pub mod UpdMask
mod Tests
