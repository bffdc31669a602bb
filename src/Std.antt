-- ===== src/Std.antt =====
-- The collections of Rust's standard library that the modelled code uses, each by what the
-- standard library documents of it.
pub mod HashMap
pub mod HashSet
pub mod BTreeMap
pub mod Int
pub mod Vec
pub mod Utf8
