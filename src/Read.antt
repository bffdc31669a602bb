-- ===== src/Read.antt =====
-- src/read: which segments a scan passes over.
pub mod Prune
mod Tests
