-- ===== src/Meta.antt =====
-- metadata/: what the transaction layer and the primary-key index keep in the key-value store.
pub mod Kv
pub mod PkIndex
pub mod ZoneMap
pub mod BlockStats
mod Tests
