-- ===== src/Mvcc/Overlay/Compaction.antt =====
-- What compaction keeps: `compaction_overlay_filter` pairs the all-visible overlay with the filter
-- of a new manager.
use rockduck.Prelude.{nat_eq, ◌≡◌, false, Option, arith}
use rockduck.Mvcc.TxnMeta.{TxnId}
use rockduck.Mvcc.Visibility.{manager_filter}
use rockduck.Mvcc.Overlay.{for_compaction_all_visible, is_row_visible}

-- Every row fails the filter of compaction, whoever created it: the map of commit times is empty.
pub compaction-hides_all :
    (created_txn : TxnId) (deleted_txn : Option TxnId)
    → is_row_visible for_compaction_all_visible manager_filter created_txn deleted_txn ≡ false
unfolding is_row_visible for_compaction_all_visible manager_filter
compaction-hides_all created_txn deleted_txn = ground arith
