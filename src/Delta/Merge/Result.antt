-- ===== src/Delta/Merge/Result.antt =====
-- src/storage/delta/merge.rs: the result of `k_way_merge`, in terms of the cells of all layers.
use rockduck.Prelude.{
  nat_eq, ℕ, ◌≡◌, ◌≤◌, refl, sym, ap, ◌∙◌, Bool, true, false, none, some, List, [], ◌∷◌, map, arith,
  if◌then◌else◌, In, filter, filter-In, In-filter, filter-append, concat,
}
use rockduck.Std.HashMap.{HashMap}
use rockduck.Std.BTreeMap
use rockduck.Std.BTreeMap.{BTreeMap}
use rockduck.Std.Vec.{sort_by, sort_by-eq, IsRising}
use rockduck.Delta.Cell.{DeltaCell, cell_key_ord, CellKey, cell_key, is_visible_at_commit}
use rockduck.Delta.Merge.{
  keep_newest, merge_delta, merge_layer, merge_layers, delta_cmp, k_way_merge,
}
use rockduck.Delta.Merge.Newest.{
  newest_map, collapse, collapse-append, collapse-IsRising, IsRising-delta_cmp, key_cmp, find_cell,
  find_cell-collapse, newest, newest-In, newest-max,
}

-- The entry that the merge makes of a cell.
abbrev entry : DeltaCell → ℕ × DeltaCell
entry d = (d.txn_id, d)

keep_newest-entry :
    (m : BTreeMap CellKey DeltaCell) (d : DeltaCell)
    → keep_newest (λ e. e.0) entry (BTreeMap.map_values entry m) d
      ≡ BTreeMap.map_values entry (newest_map m d)
keep_newest-entry m d = ground (
  arith,
  BTreeMap.get-map_values entry m (cell_key d),
  BTreeMap.insert-map_values entry m (cell_key d) d,
)

module _ (snapshot_txn : ℕ) (commit_ts_by_txn : HashMap ℕ ℕ) (active_txns : List ℕ) where
  abbrev pub visible : DeltaCell → Bool
  visible d = is_visible_at_commit d snapshot_txn commit_ts_by_txn active_txns

  merge_delta-entry :
      (m : BTreeMap CellKey DeltaCell) (d : DeltaCell)
      → merge_delta snapshot_txn commit_ts_by_txn active_txns (BTreeMap.map_values entry m) d
        ≡ BTreeMap.map_values entry (if visible d then newest_map m d else m)
  merge_delta-entry m d = ground (arith, keep_newest-entry m d)

  merge_layer-collapse :
      (m : BTreeMap CellKey DeltaCell) (layer : List DeltaCell)
      → merge_layer snapshot_txn commit_ts_by_txn active_txns (BTreeMap.map_values entry m) layer
        ≡ BTreeMap.map_values entry (collapse m (filter visible layer))
  merge_layer-collapse m [] = refl
  merge_layer-collapse m (d ∷ layer) =
      ap (λ n. merge_layer snapshot_txn commit_ts_by_txn active_txns n layer)
        (merge_delta-entry m d)
      ∙ merge_layer-collapse (if visible d then newest_map m d else m) layer
      ∙ ap (BTreeMap.map_values entry) (rest (visible d))
    where
      rest :
          (b : Bool)
          → collapse (if b then newest_map m d else m) (filter visible layer)
            ≡ collapse m (if b then d ∷ filter visible layer else filter visible layer)
      rest true = refl
      rest false = refl

  merge_layers-collapse :
      (m : BTreeMap CellKey DeltaCell) (layers : List (List DeltaCell))
      → merge_layers snapshot_txn commit_ts_by_txn active_txns (BTreeMap.map_values entry m) layers
        ≡ BTreeMap.map_values entry (collapse m (filter visible (concat layers)))
  merge_layers-collapse m [] = refl
  merge_layers-collapse m (layer ∷ layers) =
      ap (λ n. merge_layers snapshot_txn commit_ts_by_txn active_txns n layers)
        (merge_layer-collapse m layer)
      ∙ merge_layers-collapse (collapse m (filter visible layer)) layers
      ∙ ap (BTreeMap.map_values entry) (
          sym (
            ap (collapse m) (filter-append visible layer (concat layers))
            ∙ collapse-append m (filter visible layer) (filter visible (concat layers))))

  map-entry : (ds : List DeltaCell) → map (λ e. e.1) (map entry ds) ≡ ds
  map-entry [] = refl
  map-entry (d ∷ ds) = ap (◌∷◌ d) (map-entry ds)

  -- The last sort finds the cells in order.
  pub k_way_merge-eq :
      (layers : List (List DeltaCell))
      → k_way_merge layers snapshot_txn commit_ts_by_txn active_txns
        ≡ BTreeMap.values (collapse [] (filter visible (concat layers)))
  unfolding k_way_merge
  k_way_merge-eq [] = refl
  k_way_merge-eq (layer ∷ layers) =
      let ds = filter visible (concat (layer ∷ layers)) in
      let m = collapse [] ds in
      ap (λ n. sort_by delta_cmp (map (λ e. e.1) (BTreeMap.values n)))
        (merge_layers-collapse [] (layer ∷ layers))
      ∙ ap (λ l. sort_by delta_cmp (map (λ e. e.1) l)) (BTreeMap.values-map_values entry m)
      ∙ ap (sort_by delta_cmp) (map-entry (BTreeMap.values m))
      ∙ sort_by-eq delta_cmp (BTreeMap.values m)
          (IsRising-delta_cmp (BTreeMap.values m) (collapse-IsRising ds))

  -- The merged cells rise strictly by segment, column and row: there is one cell at most for a key.
  pub k_way_merge-IsRising :
      (layers : List (List DeltaCell))
      → IsRising key_cmp (k_way_merge layers snapshot_txn commit_ts_by_txn active_txns)
  k_way_merge-IsRising layers =
      rw (k_way_merge-eq layers) (collapse-IsRising (filter visible (concat layers)))

  -- The merged cell of a key stands in one of the layers and is visible at the snapshot; and under
  -- the key of every visible cell of the layers there is a merged cell that is at least as new.
  pub k_way_merge-newest :
      (layers : List (List DeltaCell))
      → ((k : CellKey) (d : DeltaCell)
          → find_cell k (k_way_merge layers snapshot_txn commit_ts_by_txn active_txns) ≡ some d
          → In d (concat layers) × (visible d ≡ true) × (cell_key d ≡ k))
        × ((c : DeltaCell)
            → In c (concat layers)
            → visible c ≡ true
            → (d : DeltaCell) × (find_cell
                  (cell_key c)
                  (k_way_merge layers snapshot_txn commit_ts_by_txn active_txns)
                ≡ some d)
              × (c.txn_id ≤ d.txn_id))
  k_way_merge-newest layers =
      let cells = filter visible (concat layers) in
      let find : (k : CellKey)
          → find_cell k (k_way_merge layers snapshot_txn commit_ts_by_txn active_txns)
            ≡ newest k none cells =
        λ k. ap (find_cell k) (k_way_merge-eq layers) ∙ find_cell-collapse cells k in
      (
        λ k d h.
            let (i, q) = newest-In k cells d (sym (find k) ∙ h) in
            let (j, v) = In-filter visible d (concat layers) i in (j, v, q),
        λ c i v.
            let (d, e, le) =
              newest-max (cell_key c) cells c (filter-In visible c (concat layers) i v) refl in
            (d, find (cell_key c) ∙ e, le),
      )
