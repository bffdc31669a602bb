-- ===== src/Mvcc/Snapshot.antt =====
-- src/mvcc/visibility.rs: snapshots, and the contexts that project them.
use rockduck.Prelude.{ℕ, ◌-◌, ◌^◌, List, []}
use rockduck.Std.HashMap.{HashMap}
use rockduck.Mvcc.TxnMeta.{TxnId}

pub data IsolationLevel : Type 0 where
  read_committed repeatable_read snapshot : IsolationLevel

pub record TxnSnapshot : Type 0 where
  pub snapshot_id : TxnId
  pub active_txns : List TxnId
  pub isolation : IsolationLevel
  pub commit_ts_map : HashMap TxnId ℕ

unfoldable pub new : TxnId → List TxnId → IsolationLevel → TxnSnapshot
new snapshot_id active_txns isolation = record {
  snapshot_id = snapshot_id;
  active_txns = active_txns;
  isolation = isolation;
  commit_ts_map = [];
}

pub data VisibilityProjection : Type 0 where
  online historical compaction_rewrite vtab : VisibilityProjection

pub record VisibilityContext : Type 0 where
  pub projection : VisibilityProjection
  pub snapshot_id : TxnId
  pub active_txns : List TxnId
  pub commit_ts_map : HashMap TxnId ℕ

-- `COMPACTION_SNAPSHOT_ID` is `u64::MAX`.
abbrev pub compaction_snapshot_id : TxnId
compaction_snapshot_id = 2 ^ 64 - 1

unfoldable pub from_snapshot : TxnSnapshot → VisibilityProjection → VisibilityContext
from_snapshot s projection = record {
  projection = projection;
  snapshot_id = s.snapshot_id;
  active_txns = s.active_txns;
  commit_ts_map = s.commit_ts_map;
}

unfoldable pub historical_context : TxnId → HashMap TxnId ℕ → VisibilityContext
historical_context target_txn commit_ts_map = record {
  projection = historical;
  snapshot_id = target_txn;
  active_txns = [];
  commit_ts_map = commit_ts_map;
}

unfoldable pub compaction_context : VisibilityContext
compaction_context = record {
  projection = compaction_rewrite;
  snapshot_id = compaction_snapshot_id;
  active_txns = [];
  commit_ts_map = [];
}
