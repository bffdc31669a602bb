-- ===== src/Meta/ZoneMap/Builder/Bounds.antt =====
-- src/metadata/block_zone_map.rs: the bounds of the blocks that an array adds to an index.

use rockduck.Prelude.{
  ℕ, ◌+◌, ◌<◌, ◌≡◌, sym, ap, ◌∙◌, false, Option, some, List, [], ◌∷◌, Bytes, length, In, slice,
  concat, ◌++◌, Bool, true, ◌||◌,
}
use rockduck.Meta.ZoneMap.{DataType, BlockStats, bytes_lt}
use rockduck.Meta.ZoneMap.Order.{IsOrdered}
use rockduck.Meta.BlockStats.{Array, compute_block_stats}
use rockduck.Meta.BlockStats.Within.{Within, IsColumn, part-Within}
use rockduck.Meta.BlockStats.Among.{compute_block_stats-Among}
use rockduck.Meta.BlockStats.AllNull.{is_integer}
use rockduck.Meta.BlockStats.Present.{is_text, HasBounds, compute_block_stats-HasBounds}
use rockduck.Meta.ZoneMap.Builder.{BlockZoneMapBuilder, append_batch}
use rockduck.Meta.ZoneMap.Builder.Fills.{Tiles, IsBlock}
use rockduck.Meta.ZoneMap.Builder.Tiles.{IsReady, append_batch-Added}

module _ (f32_lt f64_lt : Bytes → Bytes → Bool) (f32_is_nan f64_is_nan : Bytes → Bool) (col : Array)
    (dtype : DataType) where
  -- A block's bounds, where it has any, are values of the part, and no value of the part is below the
  -- lower or above the upper one. A part of integers or texts that has a value has both.
  pub record IsBounded (part : List (Option Bytes)) (block : BlockStats) : Type 0 where
    pub has_bounds :
        (x : Bytes)
        → (is_integer dtype || is_text dtype) ≡ true
        → In (some x) part
        → HasBounds block.min_bytes block.max_bytes
    pub min_in : (m : Bytes) → block.min_bytes ≡ some m → In (some m) part
    pub max_in : (m : Bytes) → block.max_bytes ≡ some m → In (some m) part
    pub from_min :
        (m x : Bytes)
        → block.min_bytes ≡ some m
        → In (some x) part
        → bytes_lt f32_lt f64_lt x m dtype ≡ some false
    pub to_max :
        (m x : Bytes)
        → block.max_bytes ≡ some m
        → In (some x) part
        → bytes_lt f32_lt f64_lt m x dtype ≡ some false

  -- The blocks are of the rows from `start` to `end` in their order and without a gap, and each is bounded
  -- by its own rows; the rows are numbered from `base` on.
  abbrev pub BoundedTiles : (base start : ℕ) → List BlockStats → (end : ℕ) → Type 0
  BoundedTiles base start [] end = start ≡ end
  BoundedTiles base start (block ∷ blocks) end =
      (rows : ℕ) × (0 < rows)
      × (block.row_start ≡ base + start)
      × (block.row_end ≡ base + start + rows)
      × IsBounded (slice col.values start (start + rows)) block
      × BoundedTiles base (start + rows) blocks end

  module _ (ordered : IsOrdered dtype)
      (column : IsColumn f32_lt f64_lt f32_is_nan f64_is_nan dtype col) where
    IsBlock-IsBounded :
        (base start rows : ℕ) (block : BlockStats)
        → 0 < rows
        → IsBlock f32_lt f64_lt f32_is_nan f64_is_nan col base start rows block
        → IsBounded (slice col.values start (start + rows)) block
    IsBlock-IsBounded base start rows block p b =
        let a =
          compute_block_stats-Among f32_lt f64_lt f32_is_nan f64_is_nan dtype col start rows ordered
            column in
        record {
          has_bounds = λ x t i.
              let (mn, mx, lo, hi) =
                compute_block_stats-HasBounds f32_lt f64_lt f32_is_nan f64_is_nan col start rows x
                  (ap (λ d. is_integer d || is_text d) column.of_type ∙ t) p i in
              (mn, mx, b.min_of ∙ lo, b.max_of ∙ hi);
          min_in = λ m e. a.min_in m (sym b.min_of ∙ e);
          max_in = λ m e. a.max_in m (sym b.max_of ∙ e);
          from_min = λ m x e i. (within x i).from_min m (sym b.min_of ∙ e);
          to_max = λ m x e i. (within x i).to_max m (sym b.max_of ∙ e);
        }
      where
        within :
            (x : Bytes)
            → In (some x) (slice col.values start (start + rows))
            → Within f32_lt f64_lt dtype
                (compute_block_stats f32_lt f64_lt f32_is_nan f64_is_nan col start rows)
                x
        within x i =
            part-Within f32_lt f64_lt f32_is_nan f64_is_nan dtype col start rows x ordered column p
              i

    Tiles-BoundedTiles :
        (base start : ℕ) (blocks : List BlockStats) (end : ℕ)
        → Tiles f32_lt f64_lt f32_is_nan f64_is_nan col base start blocks end
        → BoundedTiles base start blocks end
    Tiles-BoundedTiles base start [] end t = t
    Tiles-BoundedTiles base start (block ∷ blocks) end (rows, p, b, t) = (
      rows,
      p,
      b.from_base,
      b.to_end,
      IsBlock-IsBounded base start rows block p b,
      Tiles-BoundedTiles base (start + rows) blocks end t,
    )

    pub append_batch-BoundedTiles :
        (start : BlockZoneMapBuilder)
        → (limit : start.blocks_flushed_rows + length col.values < 4294967296) → IsReady start
        → (c : BlockZoneMapBuilder) × (append_batch f32_lt f64_lt f32_is_nan f64_is_nan col start
            ≡ some (c, length col.values))
          × IsReady c
          × (blocks : List BlockStats) × (concat c.completed_granules
              ≡ concat start.completed_granules ++ blocks)
          × BoundedTiles start.blocks_flushed_rows 0 blocks (length col.values)
    append_batch-BoundedTiles start limit r =
        let (c, e, a) = append_batch-Added f32_lt f64_lt f32_is_nan f64_is_nan col start limit r in
        (
          c,
          e,
          a.ready,
          a.blocks,
          a.are,
          Tiles-BoundedTiles start.blocks_flushed_rows 0 a.blocks (length col.values) a.tiles,
        )
