-- ===== src/Mvcc/Visibility.antt =====
-- src/mvcc/visibility.rs: the trait `VisFilter` and its implementations, each as it is written.
pub mod Rules
use rockduck.Prelude.{
  nat_eq, ℕ, Bool, true, false, not, Option, none, some, List, ltb, leb, if◌then◌else◌, elem,
}
use rockduck.Std.HashMap
use rockduck.Std.HashMap.{HashMap}
use rockduck.Mvcc.TxnMeta.{TxnId}

-- `is_row_visible(snapshot_id, created_txn, deleted_txn, active_txns, commit_ts_map)`
abbrev pub VisFilter : Type 0
VisFilter = TxnId → TxnId → Option TxnId → List TxnId → HashMap TxnId ℕ → Bool

unfoldable pub noop_filter : VisFilter
noop_filter snapshot_id created_txn deleted_txn active_txns commit_ts_map = true

-- Rule 4 of `TxnSnapshot`
snapshot_deletion : TxnId → Option TxnId → List TxnId → HashMap TxnId ℕ → Bool
snapshot_deletion snapshot_id none active_txns commit_ts_map = true
snapshot_deletion snapshot_id (some del) active_txns commit_ts_map =
    if elem del active_txns then true else (elim (HashMap.get commit_ts_map del) [
      | some del_commit_ts ↦ if leb del_commit_ts snapshot_id then false else true
      | none ↦ true
    ])

-- The rest of rule 3 of `TxnSnapshot`, and rule 4
snapshot_committed : TxnId → Option ℕ → Option TxnId → List TxnId → HashMap TxnId ℕ → Bool
unfolding snapshot_deletion
snapshot_committed snapshot_id none deleted_txn active_txns commit_ts_map =
    snapshot_deletion snapshot_id deleted_txn active_txns commit_ts_map
snapshot_committed snapshot_id (some commit_ts) deleted_txn active_txns commit_ts_map =
    if ltb snapshot_id commit_ts
    then false
    else snapshot_deletion snapshot_id deleted_txn active_txns commit_ts_map

-- `impl VisFilter for TxnSnapshot`
unfoldable pub snapshot_filter : VisFilter
unfolding snapshot_committed
snapshot_filter snapshot_id created_txn deleted_txn active_txns commit_ts_map =
    if ltb snapshot_id created_txn
    then false
    else if elem created_txn active_txns
    then false
    else if not (HashMap.contains_key commit_ts_map created_txn)
    then false
    else snapshot_committed snapshot_id (HashMap.get commit_ts_map created_txn) deleted_txn
        active_txns commit_ts_map

-- Rule 4 of `VisibilityManager`
unfoldable pub manager_deletion : TxnId → Option TxnId → List TxnId → HashMap TxnId ℕ → Bool
manager_deletion snapshot_id none active_txns commit_ts_map = true
manager_deletion snapshot_id (some del) active_txns commit_ts_map =
    if elem del active_txns then true else (elim (HashMap.get commit_ts_map del) [
      | some del_commit_ts ↦ if leb del_commit_ts snapshot_id then false else true
      | none ↦ true
    ])

-- `impl VisFilter for VisibilityManager`
unfoldable pub manager_filter : VisFilter
unfolding manager_deletion
manager_filter snapshot_id created_txn deleted_txn active_txns commit_ts_map =
    if ltb snapshot_id created_txn
    then false
    else if elem created_txn active_txns
    then false
    else (elim (HashMap.get commit_ts_map created_txn) [
      | some commit_ts ↦
          if ltb snapshot_id commit_ts
          then false
          else manager_deletion snapshot_id deleted_txn active_txns commit_ts_map
      | none ↦ false
    ])
