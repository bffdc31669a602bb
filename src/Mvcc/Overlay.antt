-- ===== src/Mvcc/Overlay.antt =====
-- src/segment/overlay.rs: the visibility of rows outside of queries, which compaction goes by.
pub mod Compaction
use rockduck.Prelude.{nat_eq, ℕ, Bool, Option, List}
use rockduck.Std.HashMap.{HashMap}
use rockduck.Mvcc.TxnMeta.{TxnId}
use rockduck.Mvcc.Snapshot.{
  TxnSnapshot, VisibilityProjection, online, VisibilityContext, snapshot,
  from_snapshot as snapshot_context, compaction_context,
}
use rockduck.Mvcc.Visibility.{VisFilter}

pub record SegmentOverlay : Type 0 where
  pub projection : VisibilityProjection
  pub snapshot_id : TxnId
  pub active_txns : List TxnId
  pub commit_ts_map : HashMap TxnId ℕ

unfoldable pub from_context : VisibilityContext → SegmentOverlay
from_context c = record {
  projection = c.projection;
  snapshot_id = c.snapshot_id;
  active_txns = c.active_txns;
  commit_ts_map = c.commit_ts_map;
}

unfoldable pub from_snapshot : TxnSnapshot → SegmentOverlay
unfolding from_context
from_snapshot s = from_context (snapshot_context s online)

unfoldable pub for_compaction_all_visible : SegmentOverlay
unfolding from_context compaction_context
for_compaction_all_visible = from_context compaction_context

unfoldable pub is_row_visible : SegmentOverlay → VisFilter → TxnId → Option TxnId → Bool
is_row_visible o filter created_txn deleted_txn =
    filter o.snapshot_id created_txn deleted_txn o.active_txns o.commit_ts_map

unfoldable pub as_snapshot : SegmentOverlay → TxnSnapshot
as_snapshot o = record {
  snapshot_id = o.snapshot_id;
  active_txns = o.active_txns;
  isolation = snapshot;
  commit_ts_map = o.commit_ts_map;
}

unfoldable pub as_context : SegmentOverlay → VisibilityContext
as_context o = record {
  projection = o.projection;
  snapshot_id = o.snapshot_id;
  active_txns = o.active_txns;
  commit_ts_map = o.commit_ts_map;
}
