-- ===== src/Delta/Tests.antt =====
-- Cells of two keys in two layers, and a patch of each format.
use rockduck.Prelude.{
  nat_eq, list_eq, ℕ, ◌≤◌, ◌≡◌, ◌↔◌, ◌⊎◌, inl, refl, true, false, none, some, List, [], ◌∷◌, Bytes,
  arith, In, concat, length, take,
}
use rockduck.Error.{codec, ok, err}
use rockduck.Std.HashMap.{HashMap}
use rockduck.Std.Vec.{IsRising}
use rockduck.Std.Int.{pos}
use rockduck.Wal.Op.{WalOp, insert_op, insert_payload}
use rockduck.Mvcc.Visibility.{manager_filter}
use rockduck.Delta.Cell.{DeltaCell, CellKey, cell_key, is_visible_at_commit}
use rockduck.Delta.Cell.Visible.{is_visible_at_commit-eq-manager_filter}
use rockduck.Delta.Merge.{k_way_merge}
use rockduck.Delta.Merge.Newest.{key_cmp, find_cell}
use rockduck.Delta.Merge.Result.{visible, k_way_merge-newest}
use rockduck.Delta.Patch.{
  DeltaPatchFormat, sparse_format, patch_magic, to_bytes, panicked, parsed, from_bytes,
}
use rockduck.Delta.Patch.Format.{IsEncodable, from_bytes-to_bytes, from_bytes-panicked}
use rockduck.Delta.MemStore.{delta_key_ord, delta_key, DeltaMemStore, immediate, get_visible}
use rockduck.Delta.MemStore.Flush.{
  Call, replay_call, swap_call, drain_call, try_flush_call, run, IsHeld, Spares, run-IsHeld,
}
use rockduck.Delta.MemStore.Reads.{IsCacheSound, get_visible-again}
use rockduck.Delta.Layers.{DiskLayer, DeltaLayerStack, gather, query_all_layers}
use rockduck.Delta.Layers.Newest.{query_all_layers-newest}
use rockduck.Delta.Layers.Recovery.{IsBlankBuffer}

abbrev cell : ℕ → ℕ → DeltaCell
cell row txn = record {
  seg_id = 115 ∷ [];
  row_offset = row;
  column = 99 ∷ [];
  txn_id = txn;
  before = none;
  after = some (txn ∷ []);
  committed = true;
  ts = pos txn;
}

-- Two versions of row 7 and one of row 8, each committed at its own identifier.
abbrev layers : List (List DeltaCell)
layers = (cell 7 1 ∷ cell 8 2 ∷ []) ∷ (cell 7 3 ∷ []) ∷ []

abbrev history : HashMap ℕ ℕ
history = (1, 1) ∷ (2, 2) ∷ (3, 3) ∷ []

k_way_merge-newest_example :
    ((k : CellKey) (d : DeltaCell)
      → find_cell k (k_way_merge layers 5 history []) ≡ some d
      → In d (concat layers) × (visible 5 history [] d ≡ true) × (cell_key d ≡ k))
    × ((c : DeltaCell)
        → In c (concat layers)
        → visible 5 history [] c ≡ true
        → (d : DeltaCell) × (find_cell (cell_key c) (k_way_merge layers 5 history []) ≡ some d)
          × (c.txn_id ≤ d.txn_id))
k_way_merge-newest_example = k_way_merge-newest 5 history [] layers

is_visible_at_commit-eq-manager_filter_example :
    is_visible_at_commit (cell 7 3) 5 history (2 ∷ []) ≡ manager_filter 5 3 none (2 ∷ []) history
is_visible_at_commit-eq-manager_filter_example =
    is_visible_at_commit-eq-manager_filter (cell 7 3) 5 history (2 ∷ [])

-- A bitmap library that counts bytes.
abbrev patch : DeltaPatchFormat
patch = sparse_format (7 ∷ 8 ∷ []) (1 ∷ 2 ∷ 3 ∷ []) 2

patch-IsEncodable : IsEncodable length patch
unfolding IsEncodable
patch-IsEncodable = (omega arith, omega arith, refl)

from_bytes-to_bytes_example : from_bytes length (to_bytes patch) ≡ parsed (some patch)
from_bytes-to_bytes_example = from_bytes-to_bytes length patch patch-IsEncodable

abbrev short_file : Bytes
short_file = 82 ∷ 68 ∷ 69 ∷ 76 ∷ 84 ∷ 65 ∷ 0 ∷ []

from_bytes-panicked_example :
    (from_bytes length short_file ≡ panicked)
    ↔ ((length short_file ≡ 7) × (take 6 short_file ≡ patch_magic))
from_bytes-panicked_example = from_bytes-panicked length short_file

abbrev empty_store : DeltaMemStore
empty_store = record {
  hot = [];
  cold = [];
  snapshot = [];
  hot_size_bytes = 0;
  flush_threshold = 1000;
  sync_level = immediate;
  wal_buffer = [];
  last_wal_flush = 0;
  batch_ms = 100;
  batch_max_pending = 1000;
  shutdown = false;
  has_wal = true;
  visible_cache = [];
}

abbrev one_cell : DeltaMemStore
one_cell = record empty_store { hot = (delta_key (cell 7 1), cell 7 1) ∷ [] }

abbrev calls : List Call
calls = swap_call ∷ replay_call (cell 8 2) ∷ try_flush_call ∷ drain_call ∷ []

calls-Spares : Spares (delta_key (cell 7 1)) calls
unfolding Spares
calls-Spares = (λ h. ground arith, tt)

one_cell-IsHeld : IsHeld one_cell (cell 7 1)
unfolding IsHeld
one_cell-IsHeld = inl refl

run-IsHeld_example : In (cell 7 1) (run one_cell calls).0 ⊎ IsHeld (run one_cell calls).1 (cell 7 1)
run-IsHeld_example = run-IsHeld calls one_cell (cell 7 1) calls-Spares one_cell-IsHeld

get_visible-again_example :
    (get_visible (run (get_visible one_cell (115 ∷ []) 5).1 calls).1 (115 ∷ []) 5).0
    ≡ (get_visible one_cell (115 ∷ []) 5).0
get_visible-again_example = get_visible-again one_cell (115 ∷ []) 5 calls

one_cell-IsCacheSound : IsCacheSound one_cell.visible_cache
unfolding IsCacheSound
one_cell-IsCacheSound = tt

one_cell-In : In (cell 7 1) (get_visible one_cell (115 ∷ []) 5).0
unfolding get_visible
one_cell-In = inl refl

abbrev on_disk : DiskLayer
on_disk = record { cells = λ seg_id txn. ok (cell 7 3 ∷ []) }

abbrev broken : DiskLayer
broken = record { cells = λ seg_id txn. err codec }

abbrev stack : DeltaLayerStack
stack = record {
  l1 = one_cell;
  l2_patch_count = 3;
  l3_patch_count = 1;
  recent_flush = [];
  flush_epoch = 0;
}

query_all_layers-newest_example :
    IsRising key_cmp (query_all_layers on_disk broken stack (115 ∷ []) 5 0).0
    × ((k : CellKey) (d : DeltaCell)
        → find_cell k (query_all_layers on_disk broken stack (115 ∷ []) 5 0).0 ≡ some d
        → In d (gather on_disk broken stack (get_visible one_cell (115 ∷ []) 5).0 (115 ∷ []) 5 0)
          × (cell_key d ≡ k))
    × ((c : DeltaCell)
        → In c (gather on_disk broken stack (get_visible one_cell (115 ∷ []) 5).0 (115 ∷ []) 5 0)
        → (d : DeltaCell) × (find_cell
              (cell_key c)
              (query_all_layers on_disk broken stack (115 ∷ []) 5 0).0
            ≡ some d)
          × (c.txn_id ≤ d.txn_id))
query_all_layers-newest_example = query_all_layers-newest on_disk broken stack (115 ∷ []) 5 0

abbrev inserted : WalOp
inserted = record {
  op_type = insert_op;
  txn_id = 4;
  payload = insert_payload (record {
    table = [];
    pk = [];
    columns = [];
    wal_batch = 5 ∷ [];
    schema_bytes = [];
    seg_id = 115 ∷ [];
    granule_id = 0;
    offset = 9;
  });
}

abbrev restarted : DeltaLayerStack
restarted = record stack { l1 = empty_store }

restarted-IsBlankBuffer : IsBlankBuffer (restarted.l1).hot
unfolding IsBlankBuffer
restarted-IsBlankBuffer = tt
