-- ===== src/Read/Prune/Sound.antt =====
-- src/read/scan.rs: the segments that a scan passes over, for filters of equalities.
use mathlib.Core.Path.{subst}
use rockduck.Prelude.{
  ◌≡◌, ◌≢◌, inl, inr, refl, sym, Bool, true, false, Option, none, some, List, [], ◌∷◌, arith, Bytes,
  Str, In, concat,
}
use rockduck.Meta.ZoneMap.{DataType, BlockStats, GranuleZoneMapIndex}
use rockduck.Meta.ZoneMap.Order.{IsOrdered, InBlock, InRange, may_overlap-InRange}
use rockduck.Query.Expr.{CompareOp, eq, ne, lt, le, gt, ge, Expr}
use rockduck.Query.Predicates.{
  Ranges, ZoneMapOrGroup, ZoneMapPredicateGroup, range_of, extract_predicates_grouped,
}
use rockduck.Query.Predicates.Covers.{SomeRange}
use rockduck.Query.Predicates.Sound.{Holds, Matches, Only, extract-CoveredRow}
use rockduck.Query.Predicates.Check.{covered_group}
use rockduck.Read.Prune.{
  any_range_may_overlap, evaluate_or_group_for_segment, no_group_overlaps,
  should_skip_segment_for_zone_map,
}

abbrev pub is_equality : CompareOp → Bool
is_equality eq = true
is_equality _ = false

module _ (f32_lt f64_lt : Bytes → Bytes → Bool) where
  -- A value lies in a range, of which both bounds are taken as values.
  abbrev InBoth : DataType → Bytes → Bytes × Bytes → Type 0
  InBoth dtype x (lo, hi) = InRange f32_lt f64_lt dtype lo hi x

  range_of-InBoth :
      (dtype : DataType) (op : CompareOp) (x v : Bytes) (r : Bytes × Bytes)
      → is_equality op ≡ true
      → range_of op v ≡ some r
      → Holds f32_lt f64_lt dtype op x v
      → InBoth dtype x r
  range_of-InBoth dtype eq x v r a e h =
      subst (InBoth dtype x) (ground arith) (record { from_pred_min = h.0; to_pred_max = h.1 })
  range_of-InBoth dtype ne x v r a e h = absurd (ground arith)
  range_of-InBoth dtype lt x v r a e h = absurd (ground arith)
  range_of-InBoth dtype le x v r a e h = absurd (ground arith)
  range_of-InBoth dtype gt x v r a e h = absurd (ground arith)
  range_of-InBoth dtype ge x v r a e h = absurd (ground arith)

  -- The zone map of a column is of its type, and one of its blocks holds the value.
  pub record HoldsValue (dtype : DataType) (zm : GranuleZoneMapIndex) (x : Bytes) : Type 0 where
    pub of_type : zm.column_type ≡ dtype
    pub block : BlockStats
    pub is_block : In block (concat zm.granules)
    pub in_block : InBlock f32_lt f64_lt zm.column_type block x

  any_range-HoldsValue :
      (zm : GranuleZoneMapIndex) (x : Bytes) (ranges : Ranges) (block : BlockStats)
      → IsOrdered zm.column_type
      → In block (concat zm.granules)
      → InBlock f32_lt f64_lt zm.column_type block x
      → SomeRange (InBoth zm.column_type x) ranges
      → any_range_may_overlap f32_lt f64_lt zm ranges ≢ some false
  any_range-HoldsValue zm x [] block o i b s q = s
  any_range-HoldsValue zm x ((lo, hi) ∷ ranges) block o i b (inl s) q =
      ground (arith, may_overlap-InRange f32_lt f64_lt zm block lo hi x o i b s)
  any_range-HoldsValue zm x ((lo, hi) ∷ ranges) block o i b (inr s) q =
      ground (arith, any_range-HoldsValue zm x ranges block o i b s)

  module _ (zone_map : Str → Option GranuleZoneMapIndex) where
    no_group-kept :
        (g : ZoneMapOrGroup) (groups : List ZoneMapOrGroup)
        → In g groups
        → evaluate_or_group_for_segment f32_lt f64_lt zone_map g ≢ some false
        → no_group_overlaps f32_lt f64_lt zone_map groups ≢ some true
    no_group-kept g [] i h q = i
    no_group-kept g (x ∷ groups) (inl e) h q =
        let k : evaluate_or_group_for_segment f32_lt f64_lt zone_map x ≢ some false =
          subst (λ z. evaluate_or_group_for_segment f32_lt f64_lt zone_map z ≢ some false) e h in
        ground (arith, k)
    no_group-kept g (x ∷ groups) (inr i) h q = ground (arith, no_group-kept g groups i h)

    module _ {F : Type 0} (f64_to_le_bytes : F → Bytes) (schema : Str → DataType)
        (row : Str → Option Bytes) where
      -- A scan with a filter of equalities passes over no segment that holds a row of which the filter
      -- is true, when the zone maps are of the columns' types, which are ordered, and hold the row.
      pub should_skip-Matches :
          (e : Expr F) (g : ZoneMapPredicateGroup)
          → ((c : Str) → IsOrdered (schema c))
          → ((c : Str) (x : Bytes) (zm : GranuleZoneMapIndex)
              → row c ≡ some x
              → zone_map c ≡ some zm
              → HoldsValue (schema c) zm x)
          → Only f32_lt f64_lt f64_to_le_bytes schema row is_equality e
          → Matches f32_lt f64_lt f64_to_le_bytes schema row e
          → extract_predicates_grouped f64_to_le_bytes e ≡ some g
          → should_skip_segment_for_zone_map f32_lt f64_lt zone_map (some g) ≢ some true
      unfolding should_skip_segment_for_zone_map evaluate_or_group_for_segment
      should_skip-Matches e g ordered holds only h q s =
          let v =
            extract-CoveredRow f32_lt f64_lt f64_to_le_bytes schema row InBoth is_equality
              range_of-InBoth e g only h q in
          let (group, i, same, covers) =
            covered_group (InBoth (schema v.column) v.value) v.column g.groups v.covered.present
              v.covered.covering in
          ground (
            arith,
            no_group-kept group g.groups i (kept v.column v.value group v.is_value same covers),
          )
        where
          column_kept :
              (c : Str) (x : Bytes) (ranges : Ranges) (o : Option GranuleZoneMapIndex)
              → row c ≡ some x
              → zone_map c ≡ o
              → SomeRange (InBoth (schema c) x) ranges
              → (elim o [
                | none ↦ some true
                | some zm ↦ any_range_may_overlap f32_lt f64_lt zm ranges
              ])
                ≢ some false
          column_kept c x ranges none r z k l = absurd (ground arith)
          column_kept c x ranges (some zm) r z k l =
              let w = holds c x zm r z in
              any_range-HoldsValue zm x ranges w.block (subst IsOrdered (sym w.of_type) (ordered c))
                w.is_block w.in_block (subst (λ d. SomeRange (InBoth d x) ranges) (sym w.of_type) k)
                l

          kept :
              (c : Str) (x : Bytes) (group : ZoneMapOrGroup)
              → row c ≡ some x
              → group.column ≡ c
              → SomeRange (InBoth (schema c) x) group.ranges
              → evaluate_or_group_for_segment f32_lt f64_lt zone_map group ≢ some false
          kept c x group r same k =
              subst
                (λ d.
                  (elim (zone_map d) [
                    | none ↦ some true
                    | some zm ↦ any_range_may_overlap f32_lt f64_lt zm group.ranges
                  ])
                  ≢ some false)
                (sym same) (column_kept c x group.ranges (zone_map c) r refl k)
