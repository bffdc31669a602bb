-- ===== src/Delta/Layers/Newest.antt =====
-- src/storage/delta/mod.rs: the queries over all layers.
use rockduck.Prelude.{
  nat_eq, list_eq, ℕ, ◌≡◌, ◌≤◌, ◌+◌, refl, sym, ap, ◌∙◌, ◌&&◌, none, some, List, [], ◌∷◌, Str, In,
  arith,
}
use rockduck.Std.HashMap.{HashMap}
use rockduck.Std.BTreeMap
use rockduck.Std.Vec.{IsRising}
use rockduck.Delta.Cell.{DeltaCell, cell_key_ord, CellKey, cell_key, is_visible_at_commit}
use rockduck.Delta.Merge.Newest.{
  newest_map, collapse, collapse-IsRising, key_cmp, find_cell, find_cell-collapse, newest,
  newest-In, newest-max,
}
use rockduck.Delta.MemStore.{get_visible}
use rockduck.Delta.Layers.{
  DiskLayer, DeltaLayerStack, dedup_cells, gather, query_all_layers, passes_batch,
  record_l2_to_l3_compaction, patch_counts,
}

dedup_cells-eq :
    (ds : List DeltaCell) (m : BTreeMap.BTreeMap CellKey DeltaCell)
    → dedup_cells m ds ≡ collapse m ds
dedup_cells-eq [] m = refl
dedup_cells-eq (d ∷ ds) m = dedup_cells-eq ds (newest_map m d)

-- A change query returns one cell at most for a key, in the order of the keys. It stands among the
-- gathered cells of the layers, and no gathered cell of its key is newer.
pub query_all_layers-newest :
    (l2 l3 : DiskLayer) (s : DeltaLayerStack) (seg_id : Str) (committed since : ℕ)
    → IsRising key_cmp (query_all_layers l2 l3 s seg_id committed since).0
      × ((k : CellKey) (d : DeltaCell)
          → find_cell k (query_all_layers l2 l3 s seg_id committed since).0 ≡ some d
          → In d (gather l2 l3 s (get_visible s.l1 seg_id committed).0 seg_id committed since)
            × (cell_key d ≡ k))
      × ((c : DeltaCell)
          → In c (gather l2 l3 s (get_visible s.l1 seg_id committed).0 seg_id committed since)
          → (d : DeltaCell) × (find_cell
                (cell_key c)
                (query_all_layers l2 l3 s seg_id committed since).0
              ≡ some d)
            × (c.txn_id ≤ d.txn_id))
unfolding query_all_layers
query_all_layers-newest l2 l3 s seg_id committed since =
    let cells = gather l2 l3 s (get_visible s.l1 seg_id committed).0 seg_id committed since in
    let e : dedup_cells [] cells ≡ collapse [] cells = dedup_cells-eq cells [] in
    let find : (k : CellKey)
        → find_cell k (BTreeMap.values (dedup_cells [] cells)) ≡ newest k none cells =
      λ k. ap (λ m. find_cell k (BTreeMap.values m)) e ∙ find_cell-collapse cells k in
    (
      rw e (collapse-IsRising cells),
      λ k d h. newest-In k cells d (sym (find k) ∙ h),
      λ c i.
          let (d, q, le) = newest-max (cell_key c) cells c i refl in (d, find (cell_key c) ∙ q, le),
    )

-- On a cell of the snapshot's range, the batch query tests what the single query tests, and the
-- flag of the cell besides.
pub passes_batch-eq :
    (snapshot_txn : ℕ) (commit_ts_by_txn : HashMap ℕ ℕ) (active_txns : List ℕ) (d : DeltaCell)
    → d.txn_id ≤ snapshot_txn
    → passes_batch snapshot_txn commit_ts_by_txn active_txns d
      ≡ (d.committed && is_visible_at_commit d snapshot_txn commit_ts_by_txn active_txns)
unfolding passes_batch is_visible_at_commit
passes_batch-eq snapshot_txn commit_ts_by_txn active_txns d h = ground arith

-- A compaction from the second layer to the third keeps the number of patches when no more are
-- removed than are counted.
pub record_l2_to_l3_compaction-total :
    (s : DeltaLayerStack) (removed : ℕ)
    → removed ≤ s.l2_patch_count
    → (patch_counts (record_l2_to_l3_compaction s removed)).0
        + (patch_counts (record_l2_to_l3_compaction s removed)).1
      ≡ (patch_counts s).0 + (patch_counts s).1
unfolding patch_counts record_l2_to_l3_compaction
record_l2_to_l3_compaction-total s removed h = omega arith
