-- ===== src/Read/Prune/Built.antt =====
-- src/read/scan.rs, src/metadata/block_zone_map.rs: the scan of a segment whose zone maps the builder
-- made of its columns.
use mathlib.Core.Path.{subst}
use rockduck.Prelude.{
  nat_ord, ℕ, ◌+◌, ◌≤◌, ◌<◌, ◌≡◌, ◌≢◌, inl, inr, refl, sym, ap, ◌∙◌, Bool, true, Option, none, some,
  List, [], ◌∷◌, arith, Bytes, Str, In, concat, length, get_elem?, get_elem?-eq-none, ltb,
  Bool-cases,
}
use rockduck.Meta.ZoneMap.{DataType, BlockStats, GranuleZoneMapIndex}
use rockduck.Meta.ZoneMap.Order.{IsOrdered, InBlock}
use rockduck.Meta.ZoneMap.Builder.{BlockZoneMapBuilder, new_builder, append_batch, finalize}
use rockduck.Meta.ZoneMap.Builder.Fills.{Tiles}
use rockduck.Meta.ZoneMap.Builder.Tiles.{IsReady, finalize-IsReady, append_batch-Added}
use rockduck.Meta.BlockStats.{Array}
use rockduck.Meta.BlockStats.Within.{IsColumn, compute_block_stats-Within}
use rockduck.Query.Expr.{Expr}
use rockduck.Query.Predicates.{ZoneMapPredicateGroup, extract_predicates_grouped}
use rockduck.Query.Predicates.Sound.{Matches, Only}
use rockduck.Read.Prune.{should_skip_segment_for_zone_map}
use rockduck.Read.Prune.Sound.{HoldsValue, is_equality, should_skip-Matches}

get_elem?-lt :
    (xs : List (Option Bytes)) (i : ℕ) (a : Option Bytes) → get_elem? xs i ≡ some a → i < length xs
get_elem?-lt xs i a h = ground (arith, get_elem?-eq-none xs i)

new_builder-IsReady : (dtype : DataType) → IsReady (new_builder dtype)
new_builder-IsReady dtype = record {
  size = omega arith;
  room = omega arith;
  small = omega arith;
  no_rows = refl;
  no_bytes = refl;
  no_stats = refl;
  no_blocks = refl;
}

module _ (f32_lt f64_lt : Bytes → Bytes → Bool) (f32_is_nan f64_is_nan : Bytes → Bool) where
  abbrev pub finalized : Option (BlockZoneMapBuilder × ℕ) → Option GranuleZoneMapIndex
  finalized none = none
  finalized (some (b, rows)) = some (finalize b)

  -- The zone map of one array.
  abbrev pub zone_map_of : Array → Option GranuleZoneMapIndex
  zone_map_of col =
      finalized (append_batch f32_lt f64_lt f32_is_nan f64_is_nan col (new_builder col.data_type))

  module _ (dtype : DataType) (col : Array) (ordered : IsOrdered dtype)
      (column : IsColumn f32_lt f64_lt f32_is_nan f64_is_nan dtype col) (i : ℕ) (x : Bytes)
      (at : get_elem? col.values i ≡ some (some x)) where
    tiled-InBlock :
        (start : ℕ) (blocks : List BlockStats) (end : ℕ)
        → Tiles f32_lt f64_lt f32_is_nan f64_is_nan col 0 start blocks end
        → start ≤ i
        → i < end
        → (block : BlockStats) × In block blocks × InBlock f32_lt f64_lt dtype block x
    tiled-InBlock start [] end t l r = absurd (omega arith)
    tiled-InBlock start (block ∷ blocks) end (rows, p, b, t) l r =
        elim (Bool-cases (ltb i (start + rows))) [
          | inl h ↦
              let w =
                compute_block_stats-Within f32_lt f64_lt f32_is_nan f64_is_nan dtype col start rows
                  i x ordered column at l (ground arith) in
              (
                block,
                inl refl,
                record {
                  from_min = λ m e. w.from_min m (sym b.min_of ∙ e);
                  to_max = λ m e. w.to_max m (sym b.max_of ∙ e);
                },
              )
          | inr h ↦
              let (c, j, k) = tiled-InBlock (start + rows) blocks end t (ground arith) r in
              (c, inr j, k)
        ]

    -- The zone map of a column of fewer than 2^32 rows is built, and one of its blocks holds the value.
    zone_map_of-HoldsValue :
        length col.values < 4294967296
        → (zm : GranuleZoneMapIndex) × (zone_map_of col ≡ some zm)
          × HoldsValue f32_lt f64_lt dtype zm x
    zone_map_of-HoldsValue limit =
        let (c, e, a) =
          append_batch-Added f32_lt f64_lt f32_is_nan f64_is_nan col (new_builder col.data_type)
            (omega (arith, limit)) (new_builder-IsReady col.data_type) in
        let f = finalize-IsReady c a.ready in
        let (block, j, k) =
          tiled-InBlock 0 a.blocks (length col.values) a.tiles (omega arith)
            (get_elem?-lt col.values i (some x) at) in
        let g : concat (finalize c).granules ≡ a.blocks = ap (λ z. concat z.granules) f ∙ a.are in
        let d : (finalize c).column_type ≡ dtype =
          ap GranuleZoneMapIndex.column_type f ∙ a.of_type ∙ column.of_type in
        (
          finalize c,
          ap finalized e,
          record {
            of_type = d;
            block = block;
            is_block = subst (In block) (sym g) j;
            in_block = subst (λ t. InBlock f32_lt f64_lt t block x) (sym d) k;
          },
        )

  module _ (columns : Str → Option Array) where
    -- The zone maps of a segment, and the values of a row: none where the column is not of the segment
    -- or the value is null.
    abbrev pub segment_zone_map : Str → Option GranuleZoneMapIndex
    segment_zone_map c = elim (columns c) [ none ↦ none | some col ↦ zone_map_of col ]

    abbrev pub row_of : ℕ → Str → Option Bytes
    row_of i c = elim (columns c) [
      | none ↦ none
      | some col ↦ elim (get_elem? col.values i) [ none ↦ none | some v ↦ v ]
    ]

    module _ {F : Type 0} (f64_to_le_bytes : F → Bytes) (schema : Str → DataType) where
      -- A scan with a filter of equalities passes over no segment that has a row of which the filter is
      -- true, when the builder made the segment's zone maps of its columns, which are of ordered types
      -- and have fewer than 2^32 rows, each value of its type.
      pub should_skip-built :
          (e : Expr F) (g : ZoneMapPredicateGroup) (i : ℕ)
          → ((c : Str) → IsOrdered (schema c))
          → ((c : Str) (col : Array)
              → columns c ≡ some col
              → (length col.values < 4294967296)
                × IsColumn f32_lt f64_lt f32_is_nan f64_is_nan (schema c) col)
          → Only f32_lt f64_lt f64_to_le_bytes schema (row_of i) is_equality e
          → Matches f32_lt f64_lt f64_to_le_bytes schema (row_of i) e
          → extract_predicates_grouped f64_to_le_bytes e ≡ some g
          → should_skip_segment_for_zone_map f32_lt f64_lt segment_zone_map (some g) ≢ some true
      should_skip-built e g i ordered typed only h q =
          should_skip-Matches f32_lt f64_lt segment_zone_map f64_to_le_bytes schema (row_of i) e g
            ordered (λ c x zm r z. held c x zm (columns c) refl r z) only h q
        where
          held :
              (c : Str) (x : Bytes) (zm : GranuleZoneMapIndex) (o : Option Array)
              → columns c ≡ o
              → row_of i c ≡ some x
              → segment_zone_map c ≡ some zm
              → HoldsValue f32_lt f64_lt (schema c) zm x
          held c x zm none k r z = absurd (ground arith)
          held c x zm (some col) k r z =
              let (limit, column) = typed c col k in
              let at : get_elem? col.values i ≡ some (some x) = ground arith in
              let (zm2, f, w) =
                zone_map_of-HoldsValue (schema c) col (ordered c) column i x at limit in
              let d : zm2 ≡ zm = ground arith in
              subst (λ m. HoldsValue f32_lt f64_lt (schema c) m x) d w
