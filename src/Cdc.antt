-- ===== src/Cdc.antt =====
-- cdc: the buffer of the captured changes.
pub mod Log
mod Tests
