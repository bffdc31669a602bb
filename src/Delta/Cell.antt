-- ===== src/Delta/Cell.antt =====
-- src/storage/delta/types.rs: the cell, the unit of a point update, and its visibility.
pub mod Visible
use rockduck.Prelude.{
  nat_eq, nat_ord, list_ord, pair_ord, Ord, ℕ, Bool, true, false, not, ◌&&◌, Option, none, some,
  List, Bytes, Str, elem, leb, ltb, if◌then◌else◌,
}
use rockduck.Std.Int.{ℤ}
use rockduck.Std.HashMap
use rockduck.Std.HashMap.{HashMap}

pub record DeltaCell : Type 0 where
  pub seg_id : Str
  pub row_offset : ℕ
  pub column : Str
  pub txn_id : ℕ
  pub before : Option Bytes
  pub after : Option Bytes
  pub committed : Bool
  pub ts : ℤ

-- `Option::is_none`
abbrev pub is_none {ℓ} : {A : Type ℓ} → Option A → Bool
is_none none = true
is_none (some a) = false

unfoldable pub is_visible_at_commit : DeltaCell → ℕ → HashMap ℕ ℕ → List ℕ → Bool
is_visible_at_commit c snapshot_txn commit_ts_by_txn active_txns =
    if ltb snapshot_txn c.txn_id
    then false
    else if elem c.txn_id active_txns
    then false
    else elim (HashMap.get commit_ts_by_txn c.txn_id) [
      | some commit_ts ↦ leb commit_ts snapshot_txn
      | none ↦ false
    ]

unfoldable pub legacy_committed_flag : DeltaCell → Bool
legacy_committed_flag c = c.committed

unfoldable pub is_insert : DeltaCell → Bool
is_insert c = is_none c.before && not (is_none c.after)

unfoldable pub is_delete : DeltaCell → Bool
is_delete c = not (is_none c.before) && is_none c.after

unfoldable pub is_update : DeltaCell → Bool
is_update c = not (is_none c.before) && not (is_none c.after)

-- The key under which the layers keep a cell: segment, column and row.
abbrev pub CellKey : Type 0
CellKey = Str × (Str × ℕ)

instance abbrev pub cell_key_ord : Ord CellKey
cell_key_ord = pair_ord

abbrev pub cell_key : DeltaCell → CellKey
cell_key c = (c.seg_id, (c.column, c.row_offset))
