-- ===== src/Delta/Cell/Visible.antt =====
-- src/storage/delta/types.rs: the visibility of a cell beside that of a row.
use rockduck.Prelude.{nat_eq, ℕ, ◌≡◌, none, List, arith}
use rockduck.Std.HashMap.{HashMap}
use rockduck.Mvcc.Visibility.{manager_filter}
use rockduck.Delta.Cell.{DeltaCell, is_visible_at_commit}

-- A cell is visible at a snapshot exactly when the manager's filter shows a row that the cell's
-- transaction created and nobody deleted.
pub is_visible_at_commit-eq-manager_filter :
    (c : DeltaCell) (snapshot_txn : ℕ) (commit_ts_by_txn : HashMap ℕ ℕ) (active_txns : List ℕ)
    → is_visible_at_commit c snapshot_txn commit_ts_by_txn active_txns
      ≡ manager_filter snapshot_txn c.txn_id none active_txns commit_ts_by_txn
unfolding is_visible_at_commit manager_filter rockduck.Mvcc.Visibility.manager_deletion
is_visible_at_commit-eq-manager_filter c snapshot_txn commit_ts_by_txn active_txns = ground arith
