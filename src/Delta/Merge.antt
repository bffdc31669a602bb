-- ===== src/Delta/Merge.antt =====
-- src/storage/delta/merge.rs: the merge of the layers' cells into one cell per key.
pub mod Newest
pub mod Result
use rockduck.Prelude.{
  nat_ord, ℕ, Bool, true, Option, none, some, List, [], ◌∷◌, map, ltb, if◌then◌else◌, Ordering,
  then_ord, list_cmp, compare,
}
use rockduck.Std.BTreeMap
use rockduck.Std.BTreeMap.{BTreeMap}
use rockduck.Std.HashMap.{HashMap}
use rockduck.Std.Vec.{sort_by}
use rockduck.Delta.Cell.{DeltaCell, cell_key_ord, CellKey, cell_key, is_visible_at_commit}

-- `Option::is_none_or`
abbrev pub is_none_or {ℓ} : {A : Type ℓ} → (A → Bool) → Option A → Bool
is_none_or p none = true
is_none_or p (some a) = p a

-- The test under which a cell goes into the map of the newest cells: there is none under its key,
-- or an older one. `txn` reads the transaction of an entry and `entry` makes one.
module _ {V : Type 0} (txn : V → ℕ) (entry : DeltaCell → V) where
  abbrev pub keep_newest : BTreeMap CellKey V → DeltaCell → BTreeMap CellKey V
  keep_newest m delta =
      if is_none_or (λ existing. ltb (txn existing) delta.txn_id) (BTreeMap.get m (cell_key delta))
      then BTreeMap.insert m (cell_key delta) (entry delta)
      else m

module _ (snapshot_txn : ℕ) (commit_ts_by_txn : HashMap ℕ ℕ) (active_txns : List ℕ) where
  -- The body of the inner loop: one cell.
  abbrev pub merge_delta :
      BTreeMap CellKey (ℕ × DeltaCell) → DeltaCell → BTreeMap CellKey (ℕ × DeltaCell)
  merge_delta dedup delta =
      if is_visible_at_commit delta snapshot_txn commit_ts_by_txn active_txns
      then keep_newest (λ e. e.0) (λ d. (d.txn_id, d)) dedup delta
      else dedup

  abbrev pub merge_layer :
      BTreeMap CellKey (ℕ × DeltaCell) → List DeltaCell → BTreeMap CellKey (ℕ × DeltaCell)
  merge_layer dedup [] = dedup
  merge_layer dedup (delta ∷ layer) = merge_layer (merge_delta dedup delta) layer

  abbrev pub merge_layers :
      BTreeMap CellKey (ℕ × DeltaCell) → List (List DeltaCell) → BTreeMap CellKey (ℕ × DeltaCell)
  merge_layers dedup [] = dedup
  merge_layers dedup (layer ∷ layers) = merge_layers (merge_layer dedup layer) layers

-- The order of the last sort.
abbrev pub delta_cmp : DeltaCell → DeltaCell → Ordering
delta_cmp a b = then_ord (list_cmp a.seg_id b.seg_id) (
    then_ord (list_cmp a.column b.column)
      (then_ord (compare a.row_offset b.row_offset) (compare a.txn_id b.txn_id)))

unfoldable pub k_way_merge : List (List DeltaCell) → ℕ → HashMap ℕ ℕ → List ℕ → List DeltaCell
k_way_merge [] snapshot_txn commit_ts_by_txn active_txns = []
k_way_merge (layer ∷ layers) snapshot_txn commit_ts_by_txn active_txns =
    let dedup = merge_layers snapshot_txn commit_ts_by_txn active_txns [] (layer ∷ layers) in
    sort_by delta_cmp (map (λ e. e.1) (BTreeMap.values dedup))
