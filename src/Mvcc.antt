-- ===== src/Mvcc.antt =====
-- mvcc/: transactions, snapshots and the visibility of rows.
pub mod TxnMeta
pub mod Snapshot
pub mod Visibility
pub mod Overlay
pub mod Manager
mod Tests
