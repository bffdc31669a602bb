-- ===== src/Delta/Layers/Recovery.antt =====
-- src/storage/delta/mod.rs: the recovery of the first layer.
use rockduck.Prelude.{◌≡◌, refl, true, Option, none, some, List, [], ◌∷◌, arith}
use rockduck.Std.BTreeMap
use rockduck.Wal.Op.{WalOp}
use rockduck.Delta.Cell.{DeltaCell}
use rockduck.Delta.MemStore.{delta_key_ord, DeltaKey, Buffer, delta_key, DeltaMemStore, replay_into}
use rockduck.Delta.Layers.{DeltaLayerStack, cell_of_op, replay_op, replay_all, recover_from_wal}

-- A cell without either image, marked as committed.
pub IsBlank : DeltaCell → Type 0
IsBlank d = (d.before ≡ none) × (d.after ≡ none) × (d.committed ≡ true)

-- Every cell of the buffer is such a cell.
unfoldable pub IsBlankBuffer : Buffer → Type 0
IsBlankBuffer [] = Unit
IsBlankBuffer ((k, d) ∷ m) = IsBlank d × IsBlankBuffer m

insert-IsBlankBuffer :
    (m : Buffer) (k : DeltaKey) (d : DeltaCell)
    → IsBlank d
    → IsBlankBuffer m
    → IsBlankBuffer (BTreeMap.insert m k d)
unfolding IsBlankBuffer
insert-IsBlankBuffer [] k d b h = (b, tt)
insert-IsBlankBuffer ((j, c) ∷ m) k d b h = ground (arith, insert-IsBlankBuffer m k d b h.1)

cell_of_op-IsBlank : (op : WalOp) (d : DeltaCell) → cell_of_op op ≡ some d → IsBlank d
unfolding cell_of_op rockduck.Delta.Layers.recovered_cell IsBlank
cell_of_op-IsBlank op d h = ground arith

replay_op-IsBlankBuffer :
    (l1 : DeltaMemStore) (o : Option DeltaCell)
    → ((d : DeltaCell) → o ≡ some d → IsBlank d)
    → IsBlankBuffer l1.hot
    → IsBlankBuffer (replay_op l1 o).hot
unfolding replay_into
replay_op-IsBlankBuffer l1 none b h = h
replay_op-IsBlankBuffer l1 (some d) b h =
    ground (arith, insert-IsBlankBuffer l1.hot (delta_key d) d (b d refl) h)

-- Recovery rebuilds no value: if every cell of the first layer's hot buffer is without images
-- before it, and so for an empty buffer, then every cell is after it.
pub recover_from_wal-IsBlankBuffer :
    (ops : List WalOp) (s : DeltaLayerStack)
    → IsBlankBuffer (s.l1).hot
    → IsBlankBuffer ((recover_from_wal s ops).l1).hot
unfolding recover_from_wal replay_all
recover_from_wal-IsBlankBuffer [] s h = h
recover_from_wal-IsBlankBuffer (op ∷ ops) s h =
    recover_from_wal-IsBlankBuffer ops (record s { l1 = replay_op s.l1 (cell_of_op op) })
      (replay_op-IsBlankBuffer s.l1 (cell_of_op op) (cell_of_op-IsBlank op) h)
