-- ===== src/Meta/ZoneMap/Builder/Rounds.antt =====
-- src/metadata/block_zone_map.rs: a round of the builder's loop adds rows and keeps the state.
use mathlib.Core.Path.{subst}
use rockduck.Prelude.{
  nat_ord, nat_eq, ℕ, ◌+◌, ◌-◌, ◌/◌, ◌≤◌, ◌<◌, ◌≡◌, ◌⊎◌, inl, inr, refl, sym, ap, ap₂, ◌∙◌, max,
  Bool, false, Option, none, some, List, Bytes, arith, length, ◌==◌, Bool-cases,
}
use rockduck.Meta.ZoneMap.{DataType, BlockStats, shorter, lexical_lt}
use rockduck.Meta.BlockStats.{
  Array, BlockColumnStats, no_values, merge_with, compute_block_stats, replaced,
}
use rockduck.Meta.ZoneMap.Builder.{
  u32, BlockZoneMapBuilder, flush_both, is_full, rows_can_add, with_rows, append_rows, rows_added,
}
use rockduck.Meta.ZoneMap.Builder.Fills.{u32-eq, Tiles, Filling, flush_both-Filling, stats-empty}

shorter-least : (a b c : ℕ) → b ≤ c → shorter (shorter a b) c ≡ shorter a b
shorter-least a b c h = ground arith

shorter-bounds :
    (a b : ℕ) → (shorter a b ≤ a) × (shorter a b ≤ b) × ((shorter a b ≡ b) ⊎ (shorter a b ≡ a))
shorter-bounds a b = ground arith

replaced-none : (r : Bytes → Bytes → Bool) (o : Option Bytes) → replaced r none o ≡ o
replaced-none r none = refl
replaced-none r (some b) = refl

merge_with-empty : (s : BlockColumnStats) → merge_with (no_values 0) s ≡ s
unfolding merge_with
merge_with-empty s =
    let h : 0 + s.null_count ≡ s.null_count = omega arith in
    rw
      (
        replaced-none (λ current x. lexical_lt x current) s.min_bytes,
        replaced-none (λ current x. lexical_lt current x) s.max_bytes,
        h,
      )
      refl

module _ (f32_lt f64_lt : Bytes → Bytes → Bool) (f32_is_nan f64_is_nan : Bytes → Bool)
    (col : Array) where
  abbrev stats_of : ℕ → ℕ → BlockColumnStats
  stats_of = compute_block_stats f32_lt f64_lt f32_is_nan f64_is_nan col

  module _ (dtype : DataType) (old : List BlockStats) (base : ℕ)
      (limit : base + length col.values < 4294967296) where
    abbrev State : BlockZoneMapBuilder → ℕ → Type 0
    State = Filling f32_lt f64_lt f32_is_nan f64_is_nan col dtype old base

    rows_can_add-eq :
        (b : BlockZoneMapBuilder) (consumed : ℕ)
        → State b consumed
        → b.pending_rows ≡ 0
        → rows_can_add b (length col.values - consumed)
          ≡ shorter (length col.values - consumed) b.block_size
    unfolding rows_can_add
    rows_can_add-eq b consumed f p =
        let left : ℕ = length col.values - consumed in
        let h : left < 4294967296 = omega (arith, limit) in
        let room : ℕ = max ((b.max_bytes_per_block - b.pending_bytes) / 8) 1 in
        let k : room < 4294967296 = omega (arith, f.small) in
        let m : b.block_size ≤ room = omega (arith, f.room, f.bytes, p) in
        let e : u32 left ≡ left = u32-eq left h in
        let e2 : u32 room ≡ room = u32-eq room k in
        let e3 : b.block_size - b.pending_rows ≡ b.block_size = omega (arith, p) in
        rw (e, e2, e3) (shorter-least left b.block_size room m)

    with_rows-Filling :
        (b : BlockZoneMapBuilder) (consumed n : ℕ)
        → State b consumed
        → b.pending_rows ≡ 0
        → n ≡ shorter (length col.values - consumed) b.block_size
        → State (with_rows f32_lt f64_lt f32_is_nan f64_is_nan col b consumed n) (consumed + n)
    with_rows-Filling b consumed n f p q =
        let small = f.small in
        let room = f.room in
        let of_array = f.of_array in
        let bytes = f.bytes in
        let (l, m, c) = shorter-bounds (length col.values - consumed) b.block_size in
        let h : b.pending_rows + n < 4294967296 = omega arith in
        let e : u32 (b.pending_rows + n) ≡ n = u32-eq (b.pending_rows + n) h ∙ omega arith in
        let rows = f.rows in
        let at : (consumed + n) - u32 (b.pending_rows + n) ≡ consumed = omega arith in
        let before : consumed - b.pending_rows ≡ (consumed + n) - u32 (b.pending_rows + n) =
          omega arith in
        record {
          of_type = f.of_type;
          size = f.size;
          room = f.room;
          small = f.small;
          bytes = omega arith;
          fits = omega arith;
          of_consumed = omega arith;
          of_array = omega arith;
          whole = elim c [ inl i ↦ inr (inl (omega arith)) | inr i ↦ inr (inr (omega arith)) ];
          rows = omega arith;
          stats =
              ap (λ s. merge_with s (stats_of consumed n))
                (f.stats
                  ∙ stats-empty f32_lt f64_lt f32_is_nan f64_is_nan col (consumed - b.pending_rows)
                      b.pending_rows p)
              ∙ merge_with-empty (stats_of consumed n)
              ∙ sym (ap₂ stats_of at e);
          blocks = f.blocks;
          are = f.are;
          tiles =
              subst (Tiles f32_lt f64_lt f32_is_nan f64_is_nan col base 0 f.blocks) before f.tiles;
        }

    -- A round of the loop adds rows, and keeps the state.
    pub append_rows-Filling :
        (b : BlockZoneMapBuilder) (consumed : ℕ)
        → State b consumed
        → consumed < length col.values
        → (0 < (append_rows f32_lt f64_lt f32_is_nan f64_is_nan col b consumed).1)
          × State
              (append_rows f32_lt f64_lt f32_is_nan f64_is_nan col b consumed).0
              (consumed + (append_rows f32_lt f64_lt f32_is_nan f64_is_nan col b consumed).1)
    unfolding append_rows
    append_rows-Filling b consumed f l = elim (Bool-cases (is_full b)) [
      | inl e ↦
          let (g, p) =
            flush_both-Filling f32_lt f64_lt f32_is_nan f64_is_nan col dtype old base limit b
              consumed f in
          rw e (added (flush_both b) g p)
      | inr e ↦
          let whole = f.whole in let p : b.pending_rows ≡ 0 = ground arith in rw e (added b f p)
    ]
      where
        added :
            (c : BlockZoneMapBuilder)
            → State c consumed
            → c.pending_rows ≡ 0
            → (0 < (rows_added f32_lt f64_lt f32_is_nan f64_is_nan col c consumed).1)
              × State
                  (rows_added f32_lt f64_lt f32_is_nan f64_is_nan col c consumed).0
                  (consumed + (rows_added f32_lt f64_lt f32_is_nan f64_is_nan col c consumed).1)
        added c g p =
            let size = g.size in
            let q = rows_can_add-eq c consumed g p in
            let n : ℕ = rows_can_add c (length col.values - consumed) in
            let w : 0 < n = ground (arith, q) in
            let h : (n == 0) ≡ false = ground arith in
            rw h (w, with_rows-Filling c consumed n g p q)
