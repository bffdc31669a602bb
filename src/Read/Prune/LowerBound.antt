-- ===== src/Read/Prune/LowerBound.antt =====
-- src/read/scan.rs: the segments that a scan passes over, for filters with a lower bound. The range has
-- an empty upper bound, which `evaluate_or_group_for_segment` hands on as a value.
use mathlib.Core.Path.{subst}
use rockduck.Prelude.{
  nat_eq, list_eq, ℕ, ◌≢◌, not, ◌≡◌, refl, sym, ◌∙◌, inl, inr, Bool, true, false, Option, none,
  some, List, [], ◌∷◌, arith, Bytes, Str, In, All, concat,
}
use rockduck.Std.Int.{ℤ, i64_to_le_bytes}
use rockduck.Std.Utf8.{as_bytes}
use rockduck.Meta.ZoneMap.{
  int64, utf8, BlockStats, GranuleZoneMapIndex, read_bytes, bytes_lt, below, block_overlaps,
  any_overlaps, may_overlap,
}
use rockduck.Query.Expr.{CompareOp, gt, ge, ScalarVal, comparison}
use rockduck.Query.Predicates.{ZoneMapPredicateGroup, scalar_to_bytes, extract_predicates_grouped}
use rockduck.Read.Prune.{evaluate_or_group_for_segment, should_skip_segment_for_zone_map}

abbrev pub is_lower_bound : CompareOp → Bool
is_lower_bound gt = true
is_lower_bound ge = true
is_lower_bound _ = false

-- The block has a least value that is not empty.
abbrev pub HasMin : BlockStats → Type 0
HasMin b = (c : ℕ) × (cs : Bytes) × (b.min_bytes ≡ some (c ∷ cs))

module _ (f32_lt f64_lt : Bytes → Bytes → Bool) where
  block_overlaps-utf8 :
      (b : BlockStats) (lo : Bytes)
      → HasMin b
      → block_overlaps f32_lt f64_lt utf8 b lo [] ≡ some false
  unfolding block_overlaps bytes_lt
  block_overlaps-utf8 b lo (c, cs, e) = ground arith

  any_overlaps-utf8 :
      (bs : List BlockStats) (lo : Bytes)
      → All HasMin bs
      → any_overlaps f32_lt f64_lt utf8 bs lo [] ≡ some false
  any_overlaps-utf8 [] lo a = refl
  any_overlaps-utf8 (b ∷ bs) lo (h, a) =
      ground (arith, block_overlaps-utf8 b lo h, any_overlaps-utf8 bs lo a)

  block_overlaps-below :
      (b : BlockStats) (lo : Bytes)
      → below f32_lt f64_lt b.max_bytes lo int64 ≡ some true
      → block_overlaps f32_lt f64_lt int64 b lo [] ≡ some false
  unfolding block_overlaps
  block_overlaps-below b lo h = ground arith

  -- A block that is not below the bound is compared with no bytes.
  block_overlaps-int64 :
      (b : BlockStats) (lo : Bytes)
      → HasMin b
      → below f32_lt f64_lt b.max_bytes lo int64 ≢ some true
      → block_overlaps f32_lt f64_lt int64 b lo [] ≡ none
  unfolding block_overlaps bytes_lt read_bytes
  block_overlaps-int64 b lo (c, cs, e) h = ground arith

  any_overlaps-int64 :
      (b : BlockStats) (bs : List BlockStats) (lo : Bytes)
      → In b bs
      → All HasMin bs
      → below f32_lt f64_lt b.max_bytes lo int64 ≡ some false
      → any_overlaps f32_lt f64_lt int64 bs lo [] ≡ none
  any_overlaps-int64 b [] lo i a h = absurd i
  any_overlaps-int64 b (x ∷ bs) lo (inl e) (m, a) h =
      let k : below f32_lt f64_lt x.max_bytes lo int64 ≡ some false =
        subst (λ z. below f32_lt f64_lt z.max_bytes lo int64 ≡ some false) e h in
      ground (arith, block_overlaps-int64 x lo m)
  any_overlaps-int64 b (x ∷ bs) lo (inr j) (m, a) h =
      passed (below f32_lt f64_lt x.max_bytes lo int64) refl (any_overlaps-int64 b bs lo j a h)
    where
      passed :
          (o : Option Bool)
          → below f32_lt f64_lt x.max_bytes lo int64 ≡ o
          → any_overlaps f32_lt f64_lt int64 bs lo [] ≡ none
          → any_overlaps f32_lt f64_lt int64 (x ∷ bs) lo [] ≡ none
      passed none q ih = ground (arith, block_overlaps-int64 x lo m)
      passed (some false) q ih = ground (arith, block_overlaps-int64 x lo m)
      passed (some true) q ih = ground (arith, block_overlaps-below x lo q)

  module _ (zone_map : Str → Option GranuleZoneMapIndex) {F : Type 0} (f64_to_le_bytes : F → Bytes)
      (col : Str) (op : CompareOp) (zm : GranuleZoneMapIndex) (lower : is_lower_bound op ≡ true)
      (mapped : zone_map col ≡ some zm) (mins : All HasMin (concat zm.granules)) where
    -- The group of a lower bound, and what the segment test makes of it.
    skip-lower :
        (val : ScalarVal F) (lo : Bytes)
        → scalar_to_bytes f64_to_le_bytes val ≡ some lo
        → (g : ZoneMapPredicateGroup) × (extract_predicates_grouped f64_to_le_bytes
              (comparison col op val)
            ≡ some g)
          × (should_skip_segment_for_zone_map f32_lt f64_lt zone_map (some g)
              ≡ (elim (may_overlap f32_lt f64_lt zm lo []) [ none ↦ none | some b ↦ some (not b) ]))
    unfolding extract_predicates_grouped should_skip_segment_for_zone_map
        evaluate_or_group_for_segment
    skip-lower val lo e = (
      record {
        groups = record { column = col; ranges = (lo, []) ∷ [] } ∷ [];
        has_cross_column_or = false;
      },
      by_op op lower,
      skipped (may_overlap f32_lt f64_lt zm lo []) refl,
    )
      where
        by_op :
            (o : CompareOp)
            → is_lower_bound o ≡ true
            → extract_predicates_grouped f64_to_le_bytes (comparison col o val)
              ≡ some (record {
                groups = record { column = col; ranges = (lo, []) ∷ [] } ∷ [];
                has_cross_column_or = false;
              })
        by_op gt h = ground arith
        by_op ge h = ground arith
        by_op o h = absurd (ground arith)

        skipped :
            (o : Option Bool)
            → may_overlap f32_lt f64_lt zm lo [] ≡ o
            → should_skip_segment_for_zone_map f32_lt f64_lt zone_map (
                some (record {
                  groups = record { column = col; ranges = (lo, []) ∷ [] } ∷ [];
                  has_cross_column_or = false;
                }))
              ≡ (elim o [ none ↦ none | some b ↦ some (not b) ])
        skipped none q = ground arith
        skipped (some true) q = ground arith
        skipped (some false) q = ground arith

    -- With a lower bound on a text column, a scan passes over every segment whose blocks have least
    -- values that are not empty, whatever rows it holds.
    pub should_skip-text :
        (s : Str)
        → zm.column_type ≡ utf8
        → (g : ZoneMapPredicateGroup) × (extract_predicates_grouped f64_to_le_bytes
              (comparison col op (ScalarVal.string s))
            ≡ some g)
          × (should_skip_segment_for_zone_map f32_lt f64_lt zone_map (some g) ≡ some true)
    unfolding scalar_to_bytes may_overlap
    should_skip-text s t =
        let (g, e, q) = skip-lower (ScalarVal.string s) (as_bytes s) refl in
        let r : may_overlap f32_lt f64_lt zm (as_bytes s) [] ≡ some false =
          subst
            (λ d. any_overlaps f32_lt f64_lt d (concat zm.granules) (as_bytes s) [] ≡ some false)
            (sym t) (any_overlaps-utf8 (concat zm.granules) (as_bytes s) mins) in
        (g, e, q ∙ rw r refl)

    -- With a lower bound on a column of `i64`, a scan panics at a segment that has a block which is not
    -- wholly below the bound.
    pub should_skip-int64 :
        (i : ℤ) (b : BlockStats)
        → zm.column_type ≡ int64
        → In b (concat zm.granules)
        → below f32_lt f64_lt b.max_bytes (i64_to_le_bytes i) int64 ≡ some false
        → (g : ZoneMapPredicateGroup) × (extract_predicates_grouped f64_to_le_bytes
              (comparison col op (ScalarVal.int64 i))
            ≡ some g)
          × (should_skip_segment_for_zone_map f32_lt f64_lt zone_map (some g) ≡ none)
    unfolding scalar_to_bytes may_overlap
    should_skip-int64 i b t j h =
        let (g, e, q) = skip-lower (ScalarVal.int64 i) (i64_to_le_bytes i) refl in
        let r : may_overlap f32_lt f64_lt zm (i64_to_le_bytes i) [] ≡ none =
          subst
            (λ d. any_overlaps f32_lt f64_lt d (concat zm.granules) (i64_to_le_bytes i) [] ≡ none)
            (sym t) (any_overlaps-int64 b (concat zm.granules) (i64_to_le_bytes i) j mins h) in
        (g, e, q ∙ rw r refl)
