-- ===== src/Query/Predicates/Check.antt =====
-- src/query/filter_expr.rs: `check_or_group_may_overlap` on the columns of a row that a filter is true of.
use mathlib.Core.Path.{subst}
use rockduck.Prelude.{
  nat_eq, list_eq, ℕ, ◌≡◌, ◌≢◌, ◌⊎◌, inl, inr, refl, sym, Bool, true, false, Option, some, List, [],
  ◌∷◌, arith, Bytes, Str, In, Bool-cases, ◌==◌,
}
use rockduck.Meta.ZoneMap.{DataType, bytes_lt, below, above}
use rockduck.Meta.ZoneMap.Order.{IsOrdered, not_below, not_above}
use rockduck.Query.Expr.{
  CompareOp, eq, ne, lt, le, gt, ge, Expr, comparison, and_expr, or_expr, not_expr,
}
use rockduck.Query.Predicates.{
  Ranges, ZoneMapOrGroup, ZoneMapPredicateGroup, range_of, extract_predicates_grouped, bounded,
  range_overlaps, any_range_overlaps, check_or_group_may_overlap,
}
use rockduck.Query.Predicates.Covers.{SomeRange, has_column, AllCover}
use rockduck.Query.Predicates.Sound.{Holds, RangeCovers, Matches, Only, extract-CoveredRow}

-- Of a column that is covered there is a group with such a range.
pub covered_group :
    (P : Bytes × Bytes → Type 0) (c : Str) (groups : List ZoneMapOrGroup)
    → has_column P c groups ≡ true
    → AllCover P c groups
    → (g : ZoneMapOrGroup) × In g groups × (g.column ≡ c) × SomeRange P g.ranges
covered_group P c [] h a = absurd (ground arith)
covered_group P c (g ∷ groups) h (a, as') = elim (Bool-cases (g.column == c)) [
  | inl e ↦ (g, inl refl, ((list_eq {A = ℕ}).equals_iff g.column c).0 e, a e)
  | inr e ↦ let (g', i, q, s) = covered_group P c groups (ground arith) as' in (g', inr i, q, s)
]

-- Every operator but `ne` leaves a range that holds the values it is true of.
range_of-RangeCovers :
    (f32_lt f64_lt : Bytes → Bytes → Bool) (dtype : DataType) (op : CompareOp) (x v : Bytes)
    (r : Bytes × Bytes)
    → range_of op v ≡ some r
    → Holds f32_lt f64_lt dtype op x v
    → RangeCovers f32_lt f64_lt dtype x r
range_of-RangeCovers f32_lt f64_lt dtype eq x v r e h =
    subst (RangeCovers f32_lt f64_lt dtype x) (ground arith) (inr h.0, inr h.1)
range_of-RangeCovers f32_lt f64_lt dtype ne x v r e h = absurd (ground arith)
range_of-RangeCovers f32_lt f64_lt dtype lt x v r e h =
    subst (RangeCovers f32_lt f64_lt dtype x) (ground arith) (inl refl, inr h.1)
range_of-RangeCovers f32_lt f64_lt dtype le x v r e h =
    subst (RangeCovers f32_lt f64_lt dtype x) (ground arith) (inl refl, inr h)
range_of-RangeCovers f32_lt f64_lt dtype gt x v r e h =
    subst (RangeCovers f32_lt f64_lt dtype x) (ground arith) (inr h.1, inl refl)
range_of-RangeCovers f32_lt f64_lt dtype ge x v r e h =
    subst (RangeCovers f32_lt f64_lt dtype x) (ground arith) (inr h, inl refl)

module _ (f32_lt f64_lt : Bytes → Bytes → Bool) where
  -- A value lies between the bounds of a column, where it has them.
  pub record Bounds (dtype : DataType) (col_min col_max : Option Bytes) (x : Bytes) : Type 0 where
    pub from_min : (m : Bytes) → col_min ≡ some m → bytes_lt f32_lt f64_lt x m dtype ≡ some false
    pub to_max : (m : Bytes) → col_max ≡ some m → bytes_lt f32_lt f64_lt m x dtype ≡ some false

  module _ (dtype : DataType) (ordered : IsOrdered dtype) (col_min col_max : Option Bytes)
      (x : Bytes) (bounds : Bounds dtype col_min col_max x) where
    bounded_below :
        (lo : Bytes)
        → (lo ≡ []) ⊎ (bytes_lt f32_lt f64_lt x lo dtype ≡ some false)
        → bounded f32_lt f64_lt lo (below f32_lt f64_lt col_max lo dtype) ≢ some true
    bounded_below [] h q = absurd (ground arith)
    bounded_below (b ∷ bs) (inl h) q = absurd (ground arith)
    bounded_below (b ∷ bs) (inr h) q =
        not_below f32_lt f64_lt dtype ordered (b ∷ bs) [] x col_max bounds.to_max h q

    bounded_above :
        (hi : Bytes)
        → (hi ≡ []) ⊎ (bytes_lt f32_lt f64_lt hi x dtype ≡ some false)
        → bounded f32_lt f64_lt hi (above f32_lt f64_lt col_min hi dtype) ≢ some true
    bounded_above [] h q = absurd (ground arith)
    bounded_above (b ∷ bs) (inl h) q = absurd (ground arith)
    bounded_above (b ∷ bs) (inr h) q =
        not_above f32_lt f64_lt dtype ordered [] (b ∷ bs) x col_min bounds.from_min h q

    range_overlaps-RangeCovers :
        (r : Bytes × Bytes)
        → RangeCovers f32_lt f64_lt dtype x r
        → range_overlaps f32_lt f64_lt dtype col_min col_max r ≢ some false
    range_overlaps-RangeCovers (lo, hi) (h, k) q =
        ground (arith, bounded_below lo h, bounded_above hi k)

    any_range_overlaps-SomeRange :
        (ranges : Ranges)
        → SomeRange (RangeCovers f32_lt f64_lt dtype x) ranges
        → any_range_overlaps f32_lt f64_lt dtype col_min col_max ranges ≢ some false
    any_range_overlaps-SomeRange [] h q = h
    any_range_overlaps-SomeRange (r ∷ ranges) (inl h) q =
        ground (arith, range_overlaps-RangeCovers r h)
    any_range_overlaps-SomeRange (r ∷ ranges) (inr h) q =
        ground (arith, any_range_overlaps-SomeRange ranges h)

  module _ {F : Type 0} (f64_to_le_bytes : F → Bytes) (schema : Str → DataType)
      (row : Str → Option Bytes) where
    Only-any : (e : Expr F) → Only f32_lt f64_lt f64_to_le_bytes schema row (λ op. true) e
    Only-any (comparison col op val) = refl
    Only-any (and_expr a b) = (Only-any a, Only-any b)
    Only-any (or_expr a b) = (Only-any a, Only-any b)
    Only-any (not_expr a) = Only-any a

    -- Of a row that the filter is true of, in a segment whose bounds hold the row, the groups of the
    -- filter have one that is not ruled out.
    pub check_or_group_may_overlap-Matches :
        (e : Expr F) (g : ZoneMapPredicateGroup) (mins maxs : Str → Option Bytes)
        → ((c : Str) → IsOrdered (schema c))
        → ((c : Str) (x : Bytes) → row c ≡ some x → Bounds (schema c) (mins c) (maxs c) x)
        → Matches f32_lt f64_lt f64_to_le_bytes schema row e
        → extract_predicates_grouped f64_to_le_bytes e ≡ some g
        → (or_group : ZoneMapOrGroup) × In or_group g.groups
          × (check_or_group_may_overlap f32_lt f64_lt or_group
                (mins or_group.column)
                (maxs or_group.column)
                (schema or_group.column)
              ≢ some false)
    unfolding check_or_group_may_overlap
    check_or_group_may_overlap-Matches e g mins maxs ordered bounds h q =
        let v =
          extract-CoveredRow f32_lt f64_lt f64_to_le_bytes schema row (RangeCovers f32_lt f64_lt)
            (λ op. true)
            (λ dtype op x w r a k l. range_of-RangeCovers f32_lt f64_lt dtype op x w r k l) e g
            (Only-any e) h q in
        let (group, i, same, s) =
          covered_group (RangeCovers f32_lt f64_lt (schema v.column) v.value) v.column g.groups
            v.covered.present v.covered.covering in
        let open_check : any_range_overlaps f32_lt f64_lt (schema v.column) (mins v.column)
              (maxs v.column) group.ranges
            ≢ some false =
          any_range_overlaps-SomeRange (schema v.column) (ordered v.column) (mins v.column)
            (maxs v.column) v.value (bounds v.column v.value v.is_value) group.ranges s in
        (
          group,
          i,
          subst
              (λ c.
                any_range_overlaps f32_lt f64_lt (schema c) (mins c) (maxs c) group.ranges
                ≢ some false)
              (sym same) open_check,
        )
