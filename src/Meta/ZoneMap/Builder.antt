-- ===== src/Meta/ZoneMap/Builder.antt =====
-- src/metadata/block_zone_map.rs: the builder of a zone map from the arrays of a column. The name of the
-- column and the bloom filters of the granules are left out. The loop runs on fuel, and `none` is its
-- exhaustion.
pub mod Fills
pub mod Rounds
pub mod Tiles
pub mod Bounds
use rockduck.Prelude.{
  nat_ord, nat_eq, ℕ, zero, suc, ◌+◌, ◌-◌, ◌*◌, ◌/◌, ◌%◌, max, Bool, true, false, Option, none,
  some, List, [], ◌∷◌, ◌++◌, Bytes, length, ltb, leb, ◌||◌, ◌==◌, if◌then◌else◌,
}
use rockduck.Meta.ZoneMap.{DataType, BlockStats, GranuleZoneMapIndex, shorter}
use rockduck.Meta.BlockStats.{Array, BlockColumnStats, no_values, merge_with, compute_block_stats}

-- `as u32`, and the arithmetic of `u32` in a release build
unfoldable pub u32 : ℕ → ℕ
u32 x = x % 4294967296

pub record BlockZoneMapBuilder : Type 0 where
  pub column_type : DataType
  pub block_size : ℕ
  pub granule_size : ℕ
  pub max_bytes_per_block : ℕ
  pub block_end_row : ℕ
  pub blocks_flushed_rows : ℕ
  pub pending_rows : ℕ
  pub pending_bytes : ℕ
  pub current_block_stats : BlockColumnStats
  pub current_granule : List BlockStats
  pub completed_granules : List (List BlockStats)
  pub blocks_in_granule : ℕ

abbrev pub new_builder : DataType → BlockZoneMapBuilder
new_builder column_type = record {
  column_type = column_type;
  block_size = 8192;
  granule_size = 8;
  max_bytes_per_block = 10485760;
  block_end_row = 0;
  blocks_flushed_rows = 0;
  pending_rows = 0;
  pending_bytes = 0;
  current_block_stats = no_values 0;
  current_granule = [];
  completed_granules = [];
  blocks_in_granule = 0;
}

abbrev pub pending_block : BlockZoneMapBuilder → BlockStats
pending_block b = record {
  row_start = b.blocks_flushed_rows;
  row_end = u32 (b.blocks_flushed_rows + b.pending_rows);
  min_bytes = b.current_block_stats.min_bytes;
  max_bytes = b.current_block_stats.max_bytes;
  null_count = b.current_block_stats.null_count;
}

unfoldable pub flush_block : BlockZoneMapBuilder → BlockZoneMapBuilder
flush_block b = if b.pending_rows == 0 then b else (record b {
  current_granule = b.current_granule ++ (pending_block b ∷ []);
  blocks_in_granule = u32 (b.blocks_in_granule + 1);
  blocks_flushed_rows = u32 (b.blocks_flushed_rows + b.pending_rows);
  pending_rows = 0;
  pending_bytes = 0;
  current_block_stats = no_values 0;
})

unfoldable pub flush_granule : BlockZoneMapBuilder → BlockZoneMapBuilder
flush_granule b = if length b.current_granule == 0 then b else (record b {
  current_granule = [];
  completed_granules = b.completed_granules ++ (b.current_granule ∷ []);
  blocks_in_granule = 0;
})

-- A block is flushed, and then its granule where that is full.
unfoldable pub flush_both : BlockZoneMapBuilder → BlockZoneMapBuilder
flush_both b =
    let c = flush_block b in if leb c.granule_size c.blocks_in_granule then flush_granule c else c

abbrev pub is_full : BlockZoneMapBuilder → Bool
is_full b = leb b.block_size b.pending_rows || leb b.max_bytes_per_block b.pending_bytes

-- How many of the `left` rows go into the current block; the bytes are cast before the minimum.
unfoldable pub rows_can_add : BlockZoneMapBuilder → ℕ → ℕ
rows_can_add b left =
    shorter (shorter (u32 left) (b.block_size - b.pending_rows))
      (u32 (max ((b.max_bytes_per_block - b.pending_bytes) / 8) 1))

unfoldable pub finalize : BlockZoneMapBuilder → GranuleZoneMapIndex
finalize b =
    let c = if ltb 0 b.pending_rows then flush_block b else b in
    let d =
      if ltb 0 (length c.current_granule) || ltb 0 c.blocks_in_granule
      then flush_granule c
      else c in
    record { column_type = d.column_type; granules = d.completed_granules }

-- Behind the loop of a column.
abbrev pub with_end_row : Option (BlockZoneMapBuilder × ℕ × ℕ) → Option (BlockZoneMapBuilder × ℕ)
with_end_row none = none
with_end_row (some (c, rows_consumed, pass_end_row)) =
    some (record c { block_end_row = max c.block_end_row pass_end_row }, rows_consumed)

-- What `append_batch` does with the rest.
abbrev pub flush_left : Option (BlockZoneMapBuilder × ℕ) → Option (BlockZoneMapBuilder × ℕ)
flush_left none = none
flush_left (some (c, rows_consumed)) =
    some (flush_granule (if ltb 0 c.pending_rows then flush_block c else c), rows_consumed)

module _ (f32_lt f64_lt : Bytes → Bytes → Bool) (f32_is_nan f64_is_nan : Bytes → Bool)
    (col : Array) where
  abbrev pub with_rows : BlockZoneMapBuilder → (offset rows : ℕ) → BlockZoneMapBuilder
  with_rows b offset rows = record b {
    current_block_stats =
        merge_with b.current_block_stats
          (compute_block_stats f32_lt f64_lt f32_is_nan f64_is_nan col offset rows);
    pending_rows = u32 (b.pending_rows + rows);
    pending_bytes = b.pending_bytes + rows * 8;
  }

  -- The part of a round behind the test for a full block.
  abbrev pub rows_added : BlockZoneMapBuilder → (rows_consumed : ℕ) → BlockZoneMapBuilder × ℕ
  rows_added c rows_consumed =
      let rows = rows_can_add c (length col.values - rows_consumed) in
      if rows == 0
      then (flush_both (record c { pending_rows = c.block_size }), 0)
      else (with_rows c rows_consumed rows, rows)

  -- The body of the loop: the builder after it, and the rows that were added.
  unfoldable pub append_rows : BlockZoneMapBuilder → (rows_consumed : ℕ) → BlockZoneMapBuilder × ℕ
  append_rows b rows_consumed = rows_added (if is_full b then flush_both b else b) rows_consumed

  unfoldable pub append_loop :
      ℕ
      → BlockZoneMapBuilder
      → (rows_consumed pass_end_row : ℕ) → Option (BlockZoneMapBuilder × ℕ × ℕ)
  append_loop zero b rows_consumed pass_end_row =
      if ltb rows_consumed (length col.values) then none else some (b, rows_consumed, pass_end_row)
  append_loop (suc fuel) b rows_consumed pass_end_row =
      let (c, rows) = append_rows b rows_consumed in
      let rest = append_loop fuel c (rows_consumed + rows) (u32 (pass_end_row + rows)) in
      if ltb rows_consumed (length col.values) then rest else some (b, rows_consumed, pass_end_row)

  -- The builder and the rows that were consumed. A row is fuel enough for a round.
  unfoldable pub append_column : BlockZoneMapBuilder → Option (BlockZoneMapBuilder × ℕ)
  append_column b = with_end_row (append_loop (length col.values) b 0 0)

  unfoldable pub append_batch : BlockZoneMapBuilder → Option (BlockZoneMapBuilder × ℕ)
  append_batch b = flush_left (append_column b)
