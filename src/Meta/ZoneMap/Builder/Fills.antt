-- ===== src/Meta/ZoneMap/Builder/Fills.antt =====
-- src/metadata/block_zone_map.rs: what the loop of the builder keeps: the finished blocks are those of
-- the rows that were consumed, one behind the other, and the pending rows are one part of the array.
use mathlib.Core.Path.{subst}
use rockduck.Prelude.{
  append_assoc, append_nil, nat_ord, nat_eq, ℕ, ◌+◌, ◌-◌, ◌*◌, ◌≤◌, ◌<◌, ◌≡◌, ◌⊎◌, inl, inr, refl,
  sym, ap, ◌∙◌, Bool, List, [], ◌∷◌, ◌++◌, Bytes, arith, length, leb, concat, ◌==◌, Bool-cases,
}
use rockduck.Meta.ZoneMap.{DataType, BlockStats}
use rockduck.Meta.BlockStats.{Array, BlockColumnStats, no_values, compute_block_stats}
use rockduck.Meta.ZoneMap.Builder.{
  u32, BlockZoneMapBuilder, pending_block, flush_block, flush_granule, flush_both,
}

pub u32-eq : (x : ℕ) → x < 4294967296 → u32 x ≡ x
unfolding u32
u32-eq x h = omega arith

concat-append :
    (xss : List (List BlockStats)) (ys : List BlockStats)
    → concat (xss ++ (ys ∷ [])) ++ [] ≡ concat xss ++ ys
concat-append [] ys = append_nil (ys ++ []) ∙ append_nil ys
concat-append (xs ∷ xss) ys =
    append_assoc xs (concat (xss ++ (ys ∷ []))) []
    ∙ ap (◌++◌ xs) (concat-append xss ys)
    ∙ sym (append_assoc xs (concat xss) ys)

module _ (f32_lt f64_lt : Bytes → Bytes → Bool) (f32_is_nan f64_is_nan : Bytes → Bool)
    (col : Array) where
  abbrev pub stats_of : ℕ → ℕ → BlockColumnStats
  stats_of = compute_block_stats f32_lt f64_lt f32_is_nan f64_is_nan col

  pub stats-empty : (offset rows : ℕ) → rows ≡ 0 → stats_of offset rows ≡ no_values 0
  unfolding compute_block_stats
  stats-empty offset rows h = ground arith

  -- A block is of `rows` rows of the array from `offset` on, which are numbered from `base + offset`.
  pub record IsBlock (base offset rows : ℕ) (block : BlockStats) : Type 0 where
    pub from_base : block.row_start ≡ base + offset
    pub to_end : block.row_end ≡ base + offset + rows
    pub min_of : block.min_bytes ≡ (stats_of offset rows).min_bytes
    pub max_of : block.max_bytes ≡ (stats_of offset rows).max_bytes
    pub nulls_of : block.null_count ≡ (stats_of offset rows).null_count

  -- The blocks are of the rows from `start` to `end`, in their order and without a gap.
  abbrev pub Tiles : (base start : ℕ) → List BlockStats → (end : ℕ) → Type 0
  Tiles base start [] end = start ≡ end
  Tiles base start (block ∷ blocks) end =
      (rows : ℕ) × (0 < rows) × IsBlock base start rows block × Tiles base (start + rows) blocks end

  Tiles-append :
      (base start : ℕ) (blocks : List BlockStats) (mid rows : ℕ) (block : BlockStats)
      → Tiles base start blocks mid
      → 0 < rows
      → IsBlock base mid rows block
      → Tiles base start (blocks ++ (block ∷ [])) (mid + rows)
  Tiles-append base start [] mid rows block e p i =
      (rows, p, subst (λ s. IsBlock base s rows block) (sym e) i, ap (λ s. s + rows) e)
  Tiles-append base start (b ∷ blocks) mid rows block (n, q, j, t) p i =
      (n, q, j, Tiles-append base (start + n) blocks mid rows block t p i)

  abbrev pub flushed : BlockZoneMapBuilder → BlockZoneMapBuilder
  flushed b = record b {
    current_granule = b.current_granule ++ (pending_block b ∷ []);
    blocks_in_granule = u32 (b.blocks_in_granule + 1);
    blocks_flushed_rows = u32 (b.blocks_flushed_rows + b.pending_rows);
    pending_rows = 0;
    pending_bytes = 0;
    current_block_stats = no_values 0;
  }

  abbrev granule_flushed : BlockZoneMapBuilder → BlockZoneMapBuilder
  granule_flushed b = record b {
    current_granule = [];
    completed_granules = b.completed_granules ++ (b.current_granule ∷ []);
    blocks_in_granule = 0;
  }

  module _ (dtype : DataType) (old : List BlockStats) (base : ℕ) where
    -- The state behind `consumed` rows of an array, before which were the blocks `old`. The pending
    -- rows, which are one part of the array, are none, a block, or the last ones.
    pub record Filling (b : BlockZoneMapBuilder) (consumed : ℕ) : Type 0 where
      pub of_type : b.column_type ≡ dtype
      pub size : 0 < b.block_size
      pub room : 8 * b.block_size ≤ b.max_bytes_per_block
      pub small : b.max_bytes_per_block < 4294967296
      pub bytes : b.pending_bytes ≡ b.pending_rows * 8
      pub fits : b.pending_rows ≤ b.block_size
      pub of_consumed : b.pending_rows ≤ consumed
      pub of_array : consumed ≤ length col.values
      pub whole :
          (b.pending_rows ≡ 0) ⊎ (b.pending_rows ≡ b.block_size) ⊎ (consumed ≡ length col.values)
      pub rows : b.blocks_flushed_rows + b.pending_rows ≡ base + consumed
      pub stats : b.current_block_stats ≡ stats_of (consumed - b.pending_rows) b.pending_rows
      pub blocks : List BlockStats
      pub are : concat b.completed_granules ++ b.current_granule ≡ old ++ blocks
      pub tiles : Tiles base 0 blocks (consumed - b.pending_rows)

    module _ (limit : base + length col.values < 4294967296) where
      flushed-Filling :
          (b : BlockZoneMapBuilder) (consumed : ℕ)
          → 0 < b.pending_rows
          → Filling b consumed
          → Filling (flushed b) consumed
      unfolding compute_block_stats
      flushed-Filling b consumed p f =
          let h : b.blocks_flushed_rows + b.pending_rows < 4294967296 =
            omega (arith, f.rows, f.of_array, limit) in
          let e : u32 (b.blocks_flushed_rows + b.pending_rows) ≡ base + consumed =
            u32-eq (b.blocks_flushed_rows + b.pending_rows) h ∙ f.rows in
          let mid : ℕ = consumed - b.pending_rows in
          let k : mid + b.pending_rows ≡ consumed - 0 = omega (arith, f.of_consumed) in
          record {
            of_type = f.of_type;
            size = f.size;
            room = f.room;
            small = f.small;
            bytes = refl;
            fits = omega arith;
            of_consumed = omega arith;
            of_array = f.of_array;
            whole = inl refl;
            rows = omega (arith, e);
            stats = refl;
            blocks = f.blocks ++ (pending_block b ∷ []);
            are =
                sym (
                  append_assoc (concat b.completed_granules) b.current_granule
                    (pending_block b ∷ []))
                ∙ ap (λ xs. xs ++ (pending_block b ∷ [])) f.are
                ∙ append_assoc old f.blocks (pending_block b ∷ []);
            tiles = subst (Tiles base 0 (f.blocks ++ (pending_block b ∷ []))) k (
                Tiles-append base 0 f.blocks mid b.pending_rows (pending_block b) f.tiles p
                  (record {
                    from_base = omega (arith, f.rows, f.of_consumed);
                    to_end = omega (arith, e, f.of_consumed);
                    min_of = ap BlockColumnStats.min_bytes f.stats;
                    max_of = ap BlockColumnStats.max_bytes f.stats;
                    nulls_of = ap BlockColumnStats.null_count f.stats;
                  }));
          }

      pub flush_block-Filling :
          (b : BlockZoneMapBuilder) (consumed : ℕ)
          → Filling b consumed
          → Filling (flush_block b) consumed × ((flush_block b).pending_rows ≡ 0)
      unfolding flush_block
      flush_block-Filling b consumed f = elim (Bool-cases (b.pending_rows == 0)) [
        | inl e ↦ rw e (f, ground arith)
        | inr e ↦
            let p : 0 < b.pending_rows = ground arith in rw e (flushed-Filling b consumed p f, refl)
      ]

      granule_flushed-Filling :
          (b : BlockZoneMapBuilder) (consumed : ℕ)
          → Filling b consumed
          → Filling (granule_flushed b) consumed
      granule_flushed-Filling b consumed f = record {
        of_type = f.of_type;
        size = f.size;
        room = f.room;
        small = f.small;
        bytes = f.bytes;
        fits = f.fits;
        of_consumed = f.of_consumed;
        of_array = f.of_array;
        whole = f.whole;
        rows = f.rows;
        stats = f.stats;
        blocks = f.blocks;
        are = concat-append b.completed_granules b.current_granule ∙ f.are;
        tiles = f.tiles;
      }

      pub flush_granule-Filling :
          (b : BlockZoneMapBuilder) (consumed : ℕ)
          → Filling b consumed
          → Filling (flush_granule b) consumed × ((flush_granule b).pending_rows ≡ b.pending_rows)
      unfolding flush_granule
      flush_granule-Filling b consumed f = elim (Bool-cases (length b.current_granule == 0)) [
        | inl e ↦ rw e (f, refl)
        | inr e ↦ rw e (granule_flushed-Filling b consumed f, refl)
      ]

      pub flush_both-Filling :
          (b : BlockZoneMapBuilder) (consumed : ℕ)
          → Filling b consumed
          → Filling (flush_both b) consumed × ((flush_both b).pending_rows ≡ 0)
      unfolding flush_both
      flush_both-Filling b consumed f =
          let (g, p) = flush_block-Filling b consumed f in
          let c : BlockZoneMapBuilder = flush_block b in
          elim (Bool-cases (leb (flush_block b).granule_size (flush_block b).blocks_in_granule)) [
            | inl e ↦
                let (h, q) = flush_granule-Filling (flush_block b) consumed g in rw e (h, q ∙ p)
            | inr e ↦ rw e (g, p)
          ]
