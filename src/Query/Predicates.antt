-- ===== src/Query/Predicates.antt =====
-- src/query/filter_expr.rs: the ranges that a filter leaves for the zone maps. `f64_to_le_bytes` is that
-- of `f64`. The functions that only pass a call on, `to_zone_map_predicates` and
-- `to_zone_map_predicate_group`, are left out.
pub mod Covers
pub mod Sound
pub mod Check
use rockduck.Prelude.{
  nat_eq, list_eq, ℕ, Bool, true, false, not, ◌&&◌, ◌||◌, Option, none, some, List, [], ◌∷◌, ◌++◌,
  map, Bytes, Str, elem, any, if◌then◌else◌, ◌==◌,
}
use rockduck.Std.Int.{i64_to_le_bytes}
use rockduck.Std.Utf8.{as_bytes}
use rockduck.Std.HashMap
use rockduck.Std.HashMap.{HashMap}
use rockduck.Meta.ZoneMap.{DataType, bytes_lt, below, above}
use rockduck.Query.Expr.{
  CompareOp, eq, ne, lt, le, gt, ge, ScalarVal, null, bool, int64, float64, string, Expr,
  comparison, and_expr, or_expr, not_expr,
}

abbrev pub Ranges : Type 0
Ranges = List (Bytes × Bytes)

pub record ZoneMapPredicate : Type 0 where
  pub column : Str
  pub pred_min : Bytes
  pub pred_max : Bytes

pub record ZoneMapOrGroup : Type 0 where
  pub column : Str
  pub ranges : Ranges

pub record ZoneMapPredicateGroup : Type 0 where
  pub groups : List ZoneMapOrGroup
  pub has_cross_column_or : Bool

abbrev pub is_nil {ℓ} : {A : Type ℓ} → List A → Bool
is_nil [] = true
is_nil (x ∷ xs) = false

-- The bounds that an operator sets for a value; an empty one stands for no bound.
abbrev pub range_of : CompareOp → Bytes → Option (Bytes × Bytes)
range_of eq value = some (value, value)
range_of ge value = some (value, [])
range_of gt value = some (value, [])
range_of le value = some ([], value)
range_of lt value = some ([], value)
range_of ne value = none

-- The ranges of another group go to the first group of its column, or it goes to the end.
unfoldable pub absorb : List ZoneMapOrGroup → ZoneMapOrGroup → List ZoneMapOrGroup
absorb [] b = b ∷ []
absorb (g ∷ groups) b =
    let rest = absorb groups b in
    if g.column == b.column then record g { ranges = g.ranges ++ b.ranges } ∷ groups else g ∷ rest

unfoldable pub absorb_all : List ZoneMapOrGroup → List ZoneMapOrGroup → List ZoneMapOrGroup
absorb_all groups [] = groups
absorb_all groups (b ∷ bs) = absorb_all (absorb groups b) bs

abbrev pub by_column : List ZoneMapOrGroup → HashMap Str ZoneMapOrGroup
by_column groups = HashMap.extend [] (map (λ g. (g.column, g)) groups)

abbrev pub keys : HashMap Str ZoneMapOrGroup → List Str
keys = map (λ e. e.0)

abbrev pub ranges_of : Option ZoneMapOrGroup → Ranges
ranges_of none = []
ranges_of (some g) = g.ranges

abbrev pub push_group : Str → Ranges → Ranges → List ZoneMapOrGroup → List ZoneMapOrGroup
push_group col a_ranges b_ranges groups =
    if not (is_nil a_ranges) && not (is_nil b_ranges)
    then record { column = col; ranges = a_ranges ++ b_ranges } ∷ groups
    else if not (is_nil a_ranges)
    then record { column = col; ranges = a_ranges } ∷ groups
    else if not (is_nil b_ranges)
    then record { column = col; ranges = b_ranges } ∷ groups
    else groups

-- The loop over the columns of both sides.
unfoldable pub united :
    HashMap Str ZoneMapOrGroup → HashMap Str ZoneMapOrGroup → List Str → List ZoneMapOrGroup
united a_map b_map [] = []
united a_map b_map (col ∷ cols) =
    push_group col (ranges_of (HashMap.get a_map col)) (ranges_of (HashMap.get b_map col))
      (united a_map b_map cols)

abbrev pub is_cross_column : List ZoneMapOrGroup → List ZoneMapOrGroup → Bool
is_cross_column a b =
    not (any (λ g. elem g.column (map (λ h. h.column) b)) a) && not (is_nil a) && not (is_nil b)

module _ {F : Type 0} (f64_to_le_bytes : F → Bytes) where
  unfoldable pub scalar_to_bytes : ScalarVal F → Option Bytes
  scalar_to_bytes null = none
  scalar_to_bytes (bool b) = some ((if b then 1 else 0) ∷ [])
  scalar_to_bytes (int64 i) = some (i64_to_le_bytes i)
  scalar_to_bytes (float64 f) = some (f64_to_le_bytes f)
  scalar_to_bytes (string s) = some (as_bytes s)

  abbrev pub comparison_range : CompareOp → ScalarVal F → Option (Bytes × Bytes)
  comparison_range op val = elim (scalar_to_bytes val) [ none ↦ none | some v ↦ range_of op v ]

  abbrev pub predicate_of : Str → Option (Bytes × Bytes) → Option (List ZoneMapPredicate)
  predicate_of col none = none
  predicate_of col (some (lo, hi)) =
      some (record { column = col; pred_min = lo; pred_max = hi } ∷ [])

  abbrev pub both_predicates :
      Option (List ZoneMapPredicate)
      → Option (List ZoneMapPredicate)
      → Option (List ZoneMapPredicate)
  both_predicates (some a) (some b) = some (a ++ b)
  both_predicates _ _ = none

  unfoldable pub extract_predicates : Expr F → Option (List ZoneMapPredicate)
  extract_predicates (comparison col op val) = predicate_of col (comparison_range op val)
  extract_predicates (and_expr a b) = both_predicates (extract_predicates a) (extract_predicates b)
  extract_predicates (or_expr a b) = none
  extract_predicates (not_expr a) = none

  abbrev pub group_of : Str → Option (Bytes × Bytes) → Option ZoneMapPredicateGroup
  group_of col none = none
  group_of col (some range) = some (record {
    groups = record { column = col; ranges = range ∷ [] } ∷ [];
    has_cross_column_or = false;
  })

  abbrev pub and_groups :
      Option ZoneMapPredicateGroup → Option ZoneMapPredicateGroup → Option ZoneMapPredicateGroup
  and_groups none b = none
  and_groups (some a) none = none
  and_groups (some a) (some b) = some (record {
    groups = absorb_all a.groups b.groups;
    has_cross_column_or = a.has_cross_column_or || b.has_cross_column_or;
  })

  abbrev pub or_groups :
      Option ZoneMapPredicateGroup → Option ZoneMapPredicateGroup → Option ZoneMapPredicateGroup
  or_groups none b = none
  or_groups (some a) none = none
  or_groups (some a) (some b) =
      let a_map = by_column a.groups in
      let b_map = by_column b.groups in
      some (record {
        groups = united a_map b_map (keys a_map ++ keys b_map);
        has_cross_column_or =
            is_cross_column a.groups b.groups || a.has_cross_column_or || b.has_cross_column_or;
      })

  unfoldable pub extract_predicates_grouped : Expr F → Option ZoneMapPredicateGroup
  extract_predicates_grouped (comparison col op val) = group_of col (comparison_range op val)
  extract_predicates_grouped (and_expr a b) =
      and_groups (extract_predicates_grouped a) (extract_predicates_grouped b)
  extract_predicates_grouped (or_expr a b) =
      or_groups (extract_predicates_grouped a) (extract_predicates_grouped b)
  extract_predicates_grouped (not_expr a) = none

module _ (f32_lt f64_lt : Bytes → Bytes → Bool) where
  -- A test that an empty bound leaves out.
  abbrev pub bounded : Bytes → Option Bool → Option Bool
  bounded [] test = some false
  bounded (b ∷ bs) test = test

  abbrev pub range_overlaps : DataType → Option Bytes → Option Bytes → Bytes × Bytes → Option Bool
  range_overlaps dtype col_min col_max (pred_min, pred_max) =
      elim (bounded pred_min (below f32_lt f64_lt col_max pred_min dtype)) [
        | none ↦ none
        | some b ↦
            if b
            then some false
            else (elim (bounded pred_max (above f32_lt f64_lt col_min pred_max dtype)) [
              | none ↦ none
              | some a ↦ some (not a)
            ])
      ]

  abbrev pub any_range_overlaps : DataType → Option Bytes → Option Bytes → Ranges → Option Bool
  any_range_overlaps dtype col_min col_max [] = some false
  any_range_overlaps dtype col_min col_max (r ∷ ranges) =
      elim (range_overlaps dtype col_min col_max r) [
        | none ↦ none
        | some b ↦ elim b [
          | true ↦ some true
          | false ↦ any_range_overlaps dtype col_min col_max ranges
        ]
      ]

  unfoldable pub check_or_group_may_overlap :
      ZoneMapOrGroup → Option Bytes → Option Bytes → DataType → Option Bool
  check_or_group_may_overlap or_group col_min col_max dtype =
      any_range_overlaps dtype col_min col_max or_group.ranges
