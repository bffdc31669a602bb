-- ===== src/Delta/Layers.antt =====
-- src/storage/delta/mod.rs: the stack of the three layers. The two layers on disk are kept as what the
-- stack asks them: the cells of a segment at a snapshot.
pub mod Newest
pub mod Recovery
use rockduck.Prelude.{
  nat_eq, list_eq, ℕ, ◌+◌, ◌-◌, Bool, true, false, not, ◌&&◌, ◌==◌, Option, none, some, List, [],
  ◌∷◌, ◌++◌, map, Str, filter, elem, leb, ltb, if◌then◌else◌,
}
use rockduck.Error.{Result, ok, err, ◌>>=◌}
use rockduck.Std.HashMap
use rockduck.Std.HashMap.{HashMap}
use rockduck.Std.BTreeMap
use rockduck.Std.BTreeMap.{BTreeMap}
use rockduck.Wal.Op.{
  WalOp, OpPayload, insert_payload, update_payload, delete_payload, begin_payload,
  checkpoint_payload, compaction_payload, commit_payload, rollback_payload,
}
use rockduck.Std.Int.{ℤ, pos}
use rockduck.Delta.Cell.{DeltaCell, cell_key_ord, CellKey, cell_key}
use rockduck.Delta.Merge.{keep_newest, k_way_merge}
use rockduck.Delta.MemStore.{DeltaMemStore, get_visible, replay_into}

-- A layer on disk: `get_visible`, which may fail.
pub record DiskLayer : Type 0 where
  pub cells : Str → ℕ → Result (List DeltaCell)

pub record DeltaLayerStack : Type 0 where
  pub l1 : DeltaMemStore
  pub l2_patch_count : ℕ
  pub l3_patch_count : ℕ
  pub recent_flush : BTreeMap CellKey DeltaCell
  pub flush_epoch : ℕ

-- The loop of the guard-level deduplication.
abbrev pub dedup_cells : BTreeMap CellKey DeltaCell → List DeltaCell → BTreeMap CellKey DeltaCell
dedup_cells deduped [] = deduped
dedup_cells deduped (delta ∷ all) =
    dedup_cells (keep_newest (λ d. d.txn_id) (λ d. d) deduped delta) all

-- `if let Ok(cells) = ...`
abbrev pub cells_or_none : Result (List DeltaCell) → List DeltaCell
cells_or_none (ok ds) = ds
cells_or_none (err e) = []

-- The window of transactions that a change query asks for.
unfoldable pub is_between : ℕ → ℕ → DeltaCell → Bool
is_between since committed d = ltb since d.txn_id && (leb d.txn_id committed && d.committed)

module _ (l2 l3 : DiskLayer) where
  -- All cells, layer after layer, before the deduplication.
  unfoldable pub gather : DeltaLayerStack → List DeltaCell → Str → ℕ → ℕ → List DeltaCell
  gather s l1_cells seg_id committed since =
      filter (is_between since committed) l1_cells
      ++ (filter (λ d. (d.seg_id == seg_id) && is_between since committed d)
            (BTreeMap.values s.recent_flush)
          ++ (filter (is_between since committed) (cells_or_none (l2.cells seg_id committed))
              ++ filter (is_between since committed) (cells_or_none (l3.cells seg_id committed))))

  unfoldable pub query_all_layers : DeltaLayerStack → Str → ℕ → ℕ → List DeltaCell × DeltaLayerStack
  query_all_layers s seg_id committed since =
      let (l1_cells, l1') = get_visible s.l1 seg_id committed in
      (
        BTreeMap.values (dedup_cells [] (gather s l1_cells seg_id committed since)),
        record s { l1 = l1' },
      )

  unfoldable pub query_all :
      DeltaLayerStack → Str → ℕ → HashMap ℕ ℕ → List ℕ → Result (List DeltaCell) × DeltaLayerStack
  query_all s seg_id snapshot_txn commit_ts_by_txn active_txns =
      let (l1_cells, l1') = get_visible s.l1 seg_id snapshot_txn in
      (
        (do
          l2_cells ← l2.cells seg_id snapshot_txn
          l3_cells ← l3.cells seg_id snapshot_txn
          ok (
              k_way_merge (l1_cells ∷ l2_cells ∷ l3_cells ∷ []) snapshot_txn commit_ts_by_txn
                active_txns)),
        record s { l1 = l1' },
      )

-- The test of `query_batch`, after the merge of the layers.
unfoldable pub passes_batch : ℕ → HashMap ℕ ℕ → List ℕ → DeltaCell → Bool
passes_batch snapshot_txn commit_ts_by_txn active_txns d =
    if not d.committed
    then false
    else if elem d.txn_id active_txns
    then false
    else elim (HashMap.get commit_ts_by_txn d.txn_id) [
      | some commit_ts ↦ leb commit_ts snapshot_txn
      | none ↦ false
    ]

abbrev cache_all : BTreeMap CellKey DeltaCell → List DeltaCell → BTreeMap CellKey DeltaCell
cache_all recent [] = recent
cache_all recent (d ∷ ds) = cache_all (BTreeMap.insert recent (cell_key d) d) ds

unfoldable pub cache_recent_flush : DeltaLayerStack → List DeltaCell → DeltaLayerStack
cache_recent_flush s deltas = record s { recent_flush = cache_all [] deltas }

unfoldable pub clear_recent_flush : DeltaLayerStack → DeltaLayerStack
clear_recent_flush s = record s { recent_flush = []; flush_epoch = s.flush_epoch + 1 }

unfoldable pub record_l2_patch : DeltaLayerStack → DeltaLayerStack
record_l2_patch s = record s { l2_patch_count = s.l2_patch_count + 1 }

unfoldable pub record_l2_to_l3_compaction : DeltaLayerStack → ℕ → DeltaLayerStack
record_l2_to_l3_compaction s removed = record s {
  l2_patch_count = s.l2_patch_count - removed;
  l3_patch_count = s.l3_patch_count + removed;
}

unfoldable pub patch_counts : DeltaLayerStack → ℕ × ℕ
patch_counts s = (s.l2_patch_count, s.l3_patch_count)

-- `first().cloned().unwrap_or_default()`
abbrev first_or_empty : List Str → Str
first_or_empty [] = []
first_or_empty (c ∷ cs) = c

recovered_cell : Str → ℕ → Str → ℕ → DeltaCell
recovered_cell seg_id row_offset column txn_id = record {
  seg_id = seg_id;
  row_offset = row_offset;
  column = column;
  txn_id = txn_id;
  before = none;
  after = none;
  committed = true;
  ts = pos 0;
}

-- The cell that recovery makes of a record of the log; other records are passed over.
unfoldable pub cell_of_op : WalOp → Option DeltaCell
unfolding recovered_cell
cell_of_op op = elim op.payload [
  | insert_payload p ↦ some (recovered_cell p.seg_id p.offset (first_or_empty p.columns) op.txn_id)
  | update_payload p ↦
      some (recovered_cell p.new_seg_id p.offset (first_or_empty p.columns) op.txn_id)
  | delete_payload p ↦
      some
        (recovered_cell p.seg_id p.offset (first_or_empty (map (λ e. e.0) p.before_row)) op.txn_id)
  | _ ↦ none
]

abbrev pub replay_op : DeltaMemStore → Option DeltaCell → DeltaMemStore
replay_op l1 none = l1
replay_op l1 (some d) = replay_into l1 d

unfoldable pub replay_all : DeltaMemStore → List WalOp → DeltaMemStore
replay_all l1 [] = l1
replay_all l1 (op ∷ ops) = replay_all (replay_op l1 (cell_of_op op)) ops

unfoldable pub recover_from_wal : DeltaLayerStack → List WalOp → DeltaLayerStack
recover_from_wal s ops = record s { l1 = replay_all s.l1 ops }
