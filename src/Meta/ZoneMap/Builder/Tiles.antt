-- ===== src/Meta/ZoneMap/Builder/Tiles.antt =====
-- src/metadata/block_zone_map.rs: the blocks that an array adds to an index.
use mathlib.Core.Path.{subst}
use rockduck.Prelude.{
  nat_ord, nat_eq, ℕ, zero, suc, ◌+◌, ◌-◌, ◌*◌, ◌≤◌, ◌<◌, ◌≡◌, inl, inr, refl, sym, ap, ◌∙◌, Bool,
  true, false, some, List, [], ◌∷◌, ◌++◌, append_nil, Bytes, arith, length, ltb, concat, max, ◌||◌,
  if◌then◌else◌, Bool-cases, ◌==◌,
}
use rockduck.Meta.ZoneMap.{BlockStats}
use rockduck.Meta.BlockStats.{Array, no_values}
use rockduck.Meta.ZoneMap.Builder.{
  u32, BlockZoneMapBuilder, flush_block, flush_granule, append_rows, append_loop, append_column,
  append_batch, finalize, flush_left, with_end_row,
}
use rockduck.Meta.ZoneMap.Builder.Fills.{
  Filling, Tiles, stats-empty, flush_block-Filling, flush_granule-Filling,
}
use rockduck.Meta.ZoneMap.Builder.Rounds.{append_rows-Filling}

-- Nothing is pending, as in a new builder and behind each array. A block's rows fit its bytes.
pub record IsReady (b : BlockZoneMapBuilder) : Type 0 where
  pub size : 0 < b.block_size
  pub room : 8 * b.block_size ≤ b.max_bytes_per_block
  pub small : b.max_bytes_per_block < 4294967296
  pub no_rows : b.pending_rows ≡ 0
  pub no_bytes : b.pending_bytes ≡ 0
  pub no_stats : b.current_block_stats ≡ no_values 0
  pub no_blocks : b.current_granule ≡ []

empty-list : (blocks : List BlockStats) → (length blocks == 0) ≡ true → blocks ≡ []
empty-list [] h = refl
empty-list (b ∷ blocks) h = absurd (ground arith)

flush_granule-empty : (b : BlockZoneMapBuilder) → (flush_granule b).current_granule ≡ []
unfolding flush_granule
flush_granule-empty b = elim (Bool-cases (length b.current_granule == 0)) [
  | inl e ↦ rw e (empty-list b.current_granule e)
  | inr e ↦ rw e refl
]

flush_granule-none : (b : BlockZoneMapBuilder) → b.current_granule ≡ [] → flush_granule b ≡ b
unfolding flush_granule
flush_granule-none b h =
    let e : (length b.current_granule == 0) ≡ true = ap (λ xs. length xs == 0) h in rw e refl

-- The index of such a builder is of its granules.
pub finalize-IsReady :
    (b : BlockZoneMapBuilder)
    → IsReady b
    → finalize b ≡ record { column_type = b.column_type; granules = b.completed_granules }
unfolding finalize
finalize-IsReady b r =
    let no_rows = r.no_rows in
    let e : ltb 0 b.pending_rows ≡ false = ground arith in
    rw e (elim (Bool-cases (ltb 0 (length b.current_granule) || ltb 0 b.blocks_in_granule)) [
      | inl h ↦ rw (h, flush_granule-none b r.no_blocks) refl
      | inr h ↦ rw h refl
    ])

module _ (f32_lt f64_lt : Bytes → Bytes → Bool) (f32_is_nan f64_is_nan : Bytes → Bool)
    (col : Array) where
  abbrev FillingOf : BlockZoneMapBuilder → BlockZoneMapBuilder → ℕ → Type 0
  FillingOf start =
      Filling f32_lt f64_lt f32_is_nan f64_is_nan col start.column_type
        (concat start.completed_granules) start.blocks_flushed_rows

  ready-Filling : (b : BlockZoneMapBuilder) → IsReady b → FillingOf b b 0
  ready-Filling b r =
      let e = r.no_rows in
      record {
        of_type = refl;
        size = r.size;
        room = r.room;
        small = r.small;
        bytes = omega (arith, r.no_bytes);
        fits = omega arith;
        of_consumed = omega arith;
        of_array = omega arith;
        whole = inl e;
        rows = omega arith;
        stats =
            r.no_stats
            ∙ sym (
                stats-empty f32_lt f64_lt f32_is_nan f64_is_nan col (0 - b.pending_rows)
                  b.pending_rows e);
        blocks = [];
        are = ap (λ xs. concat b.completed_granules ++ xs) r.no_blocks;
        tiles = omega arith;
      }

  module _ (start : BlockZoneMapBuilder)
      (limit : start.blocks_flushed_rows + length col.values < 4294967296) where
    append_loop-Filling :
        (fuel : ℕ) (b : BlockZoneMapBuilder) (consumed pass : ℕ)
        → FillingOf start b consumed
        → length col.values ≤ consumed + fuel
        → (c : BlockZoneMapBuilder) × (pass_end : ℕ) × (append_loop f32_lt f64_lt f32_is_nan
              f64_is_nan col fuel b consumed pass
            ≡ some (c, length col.values, pass_end))
          × FillingOf start c (length col.values)
    unfolding append_loop
    append_loop-Filling zero b consumed pass f h =
        let of_array = f.of_array in
        let e : consumed ≡ length col.values = omega arith in
        let l : ltb consumed (length col.values) ≡ false = ground arith in
        (b, pass, rw l (ap (λ n. some (b, n, pass)) e), subst (FillingOf start b) e f)
    append_loop-Filling (suc fuel) b consumed pass f h =
        elim (Bool-cases (ltb consumed (length col.values))) [
          | inl l ↦
              let m : consumed < length col.values = ground arith in
              let (p, g) =
                append_rows-Filling f32_lt f64_lt f32_is_nan f64_is_nan col start.column_type
                  (concat start.completed_granules) start.blocks_flushed_rows limit b consumed f
                  m in
              let c : BlockZoneMapBuilder × ℕ =
                append_rows f32_lt f64_lt f32_is_nan f64_is_nan col b consumed in
              let (d, pass_end, q, k) =
                append_loop-Filling fuel c.0 (consumed + c.1) (u32 (pass + c.1)) g (omega arith) in
              (d, pass_end, rw l q, k)
          | inr l ↦
              let of_array = f.of_array in
              let e : consumed ≡ length col.values = ground arith in
              (b, pass, rw l (ap (λ n. some (b, n, pass)) e), subst (FillingOf start b) e f)
        ]

    ended-Filling :
        (c : BlockZoneMapBuilder) (end_row : ℕ)
        → FillingOf start c (length col.values)
        → FillingOf start (record c { block_end_row = end_row }) (length col.values)
    ended-Filling c end_row f = record {
      of_type = f.of_type;
      size = f.size;
      room = f.room;
      small = f.small;
      bytes = f.bytes;
      fits = f.fits;
      of_consumed = f.of_consumed;
      of_array = f.of_array;
      whole = f.whole;
      rows = f.rows;
      stats = f.stats;
      blocks = f.blocks;
      are = f.are;
      tiles = f.tiles;
    }

    -- What an array adds: the builder behind it, and the blocks.
    pub record Added (c : BlockZoneMapBuilder) : Type 0 where
      pub ready : IsReady c
      pub of_type : c.column_type ≡ start.column_type
      pub blocks : List BlockStats
      pub are : concat c.completed_granules ≡ concat start.completed_granules ++ blocks
      pub tiles :
          Tiles f32_lt f64_lt f32_is_nan f64_is_nan col start.blocks_flushed_rows 0 blocks
            (length col.values)
      pub rows : c.blocks_flushed_rows ≡ start.blocks_flushed_rows + length col.values

    flushed-Added :
        (c : BlockZoneMapBuilder)
        → c.pending_rows ≡ 0
        → FillingOf start c (length col.values)
        → Added (flush_granule c)
    flushed-Added c p f =
        let (g, q) =
          flush_granule-Filling f32_lt f64_lt f32_is_nan f64_is_nan col start.column_type
            (concat start.completed_granules) start.blocks_flushed_rows limit c (length col.values)
            f in
        let e : (flush_granule c).pending_rows ≡ 0 = q ∙ p in
        let k : length col.values - (flush_granule c).pending_rows ≡ length col.values =
          omega (arith, e) in
        record {
          ready = record {
            size = g.size;
            room = g.room;
            small = g.small;
            no_rows = e;
            no_bytes = omega (arith, g.bytes, e);
            no_stats =
                g.stats
                ∙ stats-empty f32_lt f64_lt f32_is_nan f64_is_nan col
                    (length col.values - (flush_granule c).pending_rows)
                    (flush_granule c).pending_rows e;
            no_blocks = flush_granule-empty c;
          };
          of_type = g.of_type;
          blocks = g.blocks;
          are =
              sym (append_nil (concat (flush_granule c).completed_granules))
              ∙ ap (λ xs. concat (flush_granule c).completed_granules ++ xs)
                  (sym (flush_granule-empty c))
              ∙ g.are;
          tiles =
              subst
                (Tiles f32_lt f64_lt f32_is_nan f64_is_nan col start.blocks_flushed_rows 0 g.blocks)
                k g.tiles;
          rows = omega (arith, g.rows, e);
        }

    left-Added :
        (c : BlockZoneMapBuilder)
        → FillingOf start c (length col.values)
        → Added (flush_granule (if ltb 0 c.pending_rows then flush_block c else c))
    left-Added c f = elim (Bool-cases (ltb 0 c.pending_rows)) [
      | inl e ↦
          let (g, p) =
            flush_block-Filling f32_lt f64_lt f32_is_nan f64_is_nan col start.column_type
              (concat start.completed_granules) start.blocks_flushed_rows limit c
              (length col.values) f in
          rw e (flushed-Added (flush_block c) p g)
      | inr e ↦ rw e (flushed-Added c (ground arith) f)
    ]

    -- Where the rows stay below 2^32, an array is consumed whole: its blocks come behind those before,
    -- each with the statistics that are computed of its own rows, and nothing is left pending.
    pub append_batch-Added :
        IsReady start
        → (c : BlockZoneMapBuilder) × (append_batch f32_lt f64_lt f32_is_nan f64_is_nan col start
            ≡ some (c, length col.values))
          × Added c
    unfolding append_batch append_column
    append_batch-Added r =
        let (b, pass_end, e, f) =
          append_loop-Filling (length col.values) start 0 0 (ready-Filling start r) (omega arith) in
        let c : BlockZoneMapBuilder = record b { block_end_row = max b.block_end_row pass_end } in
        (
          flush_granule (if ltb 0 c.pending_rows then flush_block c else c),
          ap (λ o. flush_left (with_end_row o)) e,
          left-Added c (ended-Filling b (max b.block_end_row pass_end) f),
        )
