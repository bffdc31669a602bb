-- ===== src/Read/Prune.antt =====
-- src/read/scan.rs: the test by which a scan passes over a segment. `zone_map` is what the segment
-- has for a column: nothing if the column is not of the segment or its file is missing or unreadable.
-- `none` is a panic.
pub mod Sound
pub mod Built
pub mod LowerBound
use rockduck.Prelude.{
  Bool, true, false, ◌||◌, Option, none, some, List, [], ◌∷◌, Bytes, Str, if◌then◌else◌,
}
use rockduck.Meta.ZoneMap.{GranuleZoneMapIndex, may_overlap}
use rockduck.Query.Predicates.{Ranges, ZoneMapOrGroup, ZoneMapPredicateGroup, is_nil}

module _ (f32_lt f64_lt : Bytes → Bytes → Bool) where
  -- The loop over the ranges of a group: the first that may overlap ends it.
  abbrev pub any_range_may_overlap : GranuleZoneMapIndex → Ranges → Option Bool
  any_range_may_overlap zm [] = some false
  any_range_may_overlap zm ((pred_min, pred_max) ∷ ranges) =
      elim (may_overlap f32_lt f64_lt zm pred_min pred_max) [
        | none ↦ none
        | some b ↦ elim b [ true ↦ some true | false ↦ any_range_may_overlap zm ranges ]
      ]

  module _ (zone_map : Str → Option GranuleZoneMapIndex) where
    unfoldable pub evaluate_or_group_for_segment : ZoneMapOrGroup → Option Bool
    evaluate_or_group_for_segment or_group = elim (zone_map or_group.column) [
      | none ↦ some true
      | some zm ↦ any_range_may_overlap zm or_group.ranges
    ]

    -- The loop over the groups: the first that may overlap keeps the segment.
    abbrev pub no_group_overlaps : List ZoneMapOrGroup → Option Bool
    no_group_overlaps [] = some true
    no_group_overlaps (g ∷ groups) = elim (evaluate_or_group_for_segment g) [
      | none ↦ none
      | some b ↦ elim b [ true ↦ some false | false ↦ no_group_overlaps groups ]
    ]

    unfoldable pub should_skip_segment_for_zone_map : Option ZoneMapPredicateGroup → Option Bool
    should_skip_segment_for_zone_map none = some false
    should_skip_segment_for_zone_map (some group) =
        if group.has_cross_column_or || is_nil group.groups
        then some false
        else no_group_overlaps group.groups
