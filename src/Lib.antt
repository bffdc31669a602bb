-- ===== src/Lib.antt =====
-- RockDuck: a hybrid row and column store in Rust. This library models the parts that decide which
-- data a reader sees and which data survives: transactions and snapshots, the layers of point
-- updates, the group commit and the replay of the write-ahead log, the filters of a query and the
-- pruning of segments by them, the index of primary keys, the phases of a compaction and the buffer
-- of captured changes.
--
-- How the parts interact. A transaction is begun and committed at the `VisibilityManager`
-- (src/mvcc/visibility.rs), which records the active ones in the key-value store
-- (src/metadata/kv_store.rs). A reader takes a snapshot of the manager and asks one of the two
-- implementations of `VisFilter` about each row, or a `SegmentOverlay` (src/segment/overlay.rs)
-- outside of queries. Point updates are `DeltaCell`s (src/storage/delta/types.rs): they go into the
-- memory store (mem_store.rs) and its log, move to two layers on disk as patches, and are merged by
-- key when the layer stack (mod.rs, merge.rs) is queried. A commit is queued for the log writer
-- (src/write/durability_wal.rs), and one thread, which is elected (src/write/group_commit.rs),
-- writes the queue. After a crash the log is replayed (src/write/wal_recovery.rs) and the memory
-- store is filled again. The text of a filter is parsed (src/query/filter_expr.rs) into an
-- expression that is evaluated over batches, and from which ranges are taken for the zone maps
-- (src/metadata/block_zone_map.rs), by which a scan (src/read/scan.rs) passes over segments. The
-- index of primary keys (src/metadata/pk_skiplist.rs) lives in the key-value store and follows
-- segment aliases.
--
-- Files.
--   Prelude        names of the libraries, Boolean tests, lists, orders
--   Std            HashMap, HashSet, BTreeMap, sort_by and integers of the standard library
--   Error          src/error.rs: the variants that are raised, and results
--   Meta/Kv        src/metadata/kv_engine.rs, kv_store.rs: the engine as a record of its calls
--   Meta/ZoneMap   src/metadata/block_zone_map.rs: the comparison of bytes, may_overlap and, in
--                  the modules Builder and SbbFilter, the builder of an index and the Bloom filter
--   Meta/BlockStats
--                  src/metadata/block_stats.rs: the least and the greatest value of a part
--   Meta/PkIndex   src/metadata/pk_skiplist.rs: keys, writes, deletes and lookups
--   Mvcc/TxnMeta, Snapshot, Visibility, Manager, Overlay
--                  src/mvcc/visibility.rs and src/segment/overlay.rs
--   Mvcc/Manager/Conflict, History
--                  the conflict detection of `commit_txn`, and `prune_history`
--   Delta/Cell, Patch, Merge, MemStore, Layers
--                  src/storage/delta/types.rs, merge.rs, mem_store.rs, mod.rs
--   Wal/Op, Wal/Recovery
--                  src/write/durability_wal.rs (the records) and wal_recovery.rs
--   Wal/GroupCommit
--                  src/write/durability_wal.rs (the appends) and group_commit.rs
--   Query/Expr, Tokenizer, Parser, Evaluate, Predicates
--                  src/query/filter_expr.rs
--   Read/Prune     src/read/scan.rs: the test by which a segment is passed over
--   Segment/UpdMask
--                  src/segment/upd_mask.rs
--   Compaction/Phase
--                  src/compaction/phase.rs
--   Cdc/Log        src/cdc/log.rs
-- The child modules of these hold proofs; the modules named Tests hold runs on concrete data.
--
-- How the state is modelled. A struct is a record and a method that changes it returns the record
-- after the call; an error is a value of `Result`, with the state that the failing call leaves. A
-- call that reads the clock takes the time as an argument. Locks are left out: each call is one
-- step, and orders of calls are lists of calls (Mvcc/Manager/Calls, Delta/MemStore/Flush,
-- Compaction/Phase/Moves). A hash map is a list of pairs whose order stands for the order of
-- iteration; a B-tree map is a list in the order of its keys. A string is the list of its bytes,
-- and in a filter that of its code points. Numbers are unbounded, and the wrap-around of a machine
-- width is written out where the source multiplies or casts. The loops are recursions on a list,
-- but for the tokenizer, which takes one unit of fuel more than the text has characters, and the
-- functions of the parser that call one another, which take five units for each token and four
-- besides, and the loop of the builder of zone maps, which takes one for each row. A panic of the
-- zone maps is `none`.
--
-- Parameters. The key-value engine, the codecs, the hash of a Bloom filter, the cardinality of a
-- bitmap, the log writer, the closure that applies a replayed operation, the reading of UTF-8, the
-- parsing, negation, bytes and comparison of floating-point numbers, the comparison kernels of
-- Arrow and the zone maps that a segment has are arguments of the definitions that use them. The
-- two disk layers are an interface of the layer stack.
--
-- Not modelled: file access, Arrow and Vortex data, the schedule of the background threads, the
-- heat of columns (it is computed in floating point), query routing, the compaction engines and the
-- export.
pub mod Prelude
pub mod Std
pub mod Error
pub mod Meta
pub mod Mvcc
pub mod Delta
pub mod Wal
pub mod Segment
pub mod Compaction
pub mod Cdc
pub mod Query
pub mod Read
