-- ===== src/Query/Predicates/Sound.antt =====
-- src/query/filter_expr.rs: the rows that a filter is true of, and the ranges that it leaves for the
-- zone maps.
use mathlib.Core.Path.{subst}
use rockduck.Prelude.{
  nat_eq, list_eq, ℕ, ◌≡◌, ◌⊎◌, inl, inr, refl, Bool, true, false, Option, none, some, List, [],
  ◌∷◌, ◌++◌, arith, Bytes, Str,
}
use rockduck.Meta.ZoneMap.{DataType, bytes_lt}
use rockduck.Query.Expr.{
  CompareOp, eq, ne, lt, le, gt, ge, Expr, comparison, and_expr, or_expr, not_expr,
}
use rockduck.Query.Predicates.{
  ZoneMapOrGroup, ZoneMapPredicateGroup, absorb_all, united, keys, by_column, scalar_to_bytes,
  range_of, and_groups, or_groups, group_of, extract_predicates_grouped,
}
use rockduck.Query.Predicates.Covers.{
  Covered, absorb_all-Covered, by_column-Covered, united-Covered,
}

module _ (f32_lt f64_lt : Bytes → Bytes → Bool) where
  -- A comparison of a value with a literal, by the order of the type in both directions.
  abbrev pub Holds : DataType → CompareOp → Bytes → Bytes → Type 0
  Holds dtype eq x v =
      (bytes_lt f32_lt f64_lt x v dtype ≡ some false)
      × (bytes_lt f32_lt f64_lt v x dtype ≡ some false)
  Holds dtype ne x v =
      (bytes_lt f32_lt f64_lt x v dtype ≡ some true)
      ⊎ (bytes_lt f32_lt f64_lt v x dtype ≡ some true)
  Holds dtype lt x v =
      (bytes_lt f32_lt f64_lt x v dtype ≡ some true)
      × (bytes_lt f32_lt f64_lt v x dtype ≡ some false)
  Holds dtype le x v = bytes_lt f32_lt f64_lt v x dtype ≡ some false
  Holds dtype gt x v =
      (bytes_lt f32_lt f64_lt v x dtype ≡ some true)
      × (bytes_lt f32_lt f64_lt x v dtype ≡ some false)
  Holds dtype ge x v = bytes_lt f32_lt f64_lt x v dtype ≡ some false

  -- A literal without bytes, which is null, leaves no range, and nothing is asked of it.
  abbrev pub HoldsFor : DataType → CompareOp → Bytes → Option Bytes → Type 0
  HoldsFor dtype op x none = Unit
  HoldsFor dtype op x (some v) = Holds dtype op x v

  -- A value lies in a range, in which an empty bound is none.
  abbrev pub RangeCovers : DataType → Bytes → Bytes × Bytes → Type 0
  RangeCovers dtype x (lo, hi) =
      ((lo ≡ []) ⊎ (bytes_lt f32_lt f64_lt x lo dtype ≡ some false))
      × ((hi ≡ []) ⊎ (bytes_lt f32_lt f64_lt hi x dtype ≡ some false))

  module _ {F : Type 0} (f64_to_le_bytes : F → Bytes) (schema : Str → DataType)
      (row : Str → Option Bytes) where
    -- The filter is true of the row, whose values are the bytes of its columns.
    abbrev pub Matches : Expr F → Type 0
    Matches (comparison col op val) =
        (x : Bytes) × (row col ≡ some x)
        × HoldsFor (schema col) op x (scalar_to_bytes f64_to_le_bytes val)
    Matches (and_expr a b) = Matches a × Matches b
    Matches (or_expr a b) = Matches a ⊎ Matches b
    Matches (not_expr a) = ¬ Matches a

    -- The operators of the filter are among those that are allowed.
    abbrev pub Only : (CompareOp → Bool) → Expr F → Type 0
    Only allowed (comparison col op val) = allowed op ≡ true
    Only allowed (and_expr a b) = Only allowed a × Only allowed b
    Only allowed (or_expr a b) = Only allowed a × Only allowed b
    Only allowed (not_expr a) = Only allowed a

    -- A column of the row whose groups all have a range with the property.
    pub record CoveredRow (P : DataType → Bytes → Bytes × Bytes → Type 0)
        (groups : List ZoneMapOrGroup) : Type 0 where
      pub column : Str
      pub value : Bytes
      pub is_value : row column ≡ some value
      pub covered : Covered (P (schema column) value) column groups

    module _ (P : DataType → Bytes → Bytes × Bytes → Type 0) (allowed : CompareOp → Bool)
        (base : (dtype : DataType) (op : CompareOp) (x v : Bytes) (r : Bytes × Bytes)
          → allowed op ≡ true
          → range_of op v ≡ some r
          → Holds dtype op x v
          → P dtype x r) where
      comparison-CoveredRow :
          (col : Str) (op : CompareOp) (x : Bytes) (o : Option Bytes) (g : ZoneMapPredicateGroup)
          → allowed op ≡ true
          → row col ≡ some x
          → HoldsFor (schema col) op x o
          → group_of f64_to_le_bytes col (elim o [ none ↦ none | some v ↦ range_of op v ]) ≡ some g
          → CoveredRow P g.groups
      comparison-CoveredRow col op x none g a q h e = absurd (ground arith)
      comparison-CoveredRow col op x (some v) g a q h e = go (range_of op v) refl e
        where
          go :
              (r : Option (Bytes × Bytes))
              → range_of op v ≡ r
              → group_of f64_to_le_bytes col r ≡ some g
              → CoveredRow P g.groups
          go none k e' = absurd (ground arith)
          go (some r) k e' =
              let same : (record { column = col; ranges = r ∷ [] } ∷ []) ≡ g.groups =
                ground arith in
              subst (CoveredRow P) same (record {
                column = col;
                value = x;
                is_value = q;
                covered = record {
                  present = ground (arith, (list_eq {A = ℕ}).equals_iff col col);
                  covering = (λ i. inl (base (schema col) op x v r a k h), tt);
                };
              })

      and-CoveredRow :
          (a b : Option ZoneMapPredicateGroup) (g : ZoneMapPredicateGroup)
          → ((g' : ZoneMapPredicateGroup) → a ≡ some g' → CoveredRow P g'.groups)
          → and_groups f64_to_le_bytes a b ≡ some g
          → CoveredRow P g.groups
      and-CoveredRow none b g h e = absurd (ground arith)
      and-CoveredRow (some a) none g h e = absurd (ground arith)
      and-CoveredRow (some a) (some b) g h e =
          let v = h a refl in
          let same : absorb_all a.groups b.groups ≡ g.groups = ground arith in
          subst (CoveredRow P) same (record {
            column = v.column;
            value = v.value;
            is_value = v.is_value;
            covered =
                absorb_all-Covered (P (schema v.column) v.value) v.column a.groups b.groups
                  v.covered;
          })

      or-CoveredRow :
          (a b : Option ZoneMapPredicateGroup) (g : ZoneMapPredicateGroup)
          → ((g' : ZoneMapPredicateGroup) → a ≡ some g' → CoveredRow P g'.groups)
            ⊎ ((g' : ZoneMapPredicateGroup) → b ≡ some g' → CoveredRow P g'.groups)
          → or_groups f64_to_le_bytes a b ≡ some g
          → CoveredRow P g.groups
      or-CoveredRow none b g h e = absurd (ground arith)
      or-CoveredRow (some a) none g h e = absurd (ground arith)
      or-CoveredRow (some a) (some b) g h e =
          let same : united (by_column a.groups) (by_column b.groups)
                (keys (by_column a.groups) ++ keys (by_column b.groups))
              ≡ g.groups =
            ground arith in
          subst (CoveredRow P) same (side h)
        where
          side :
              ((g' : ZoneMapPredicateGroup) → some a ≡ some g' → CoveredRow P g'.groups)
                ⊎ ((g' : ZoneMapPredicateGroup) → some b ≡ some g' → CoveredRow P g'.groups)
              → CoveredRow P (
                  united
                    (by_column a.groups)
                    (by_column b.groups)
                    (keys (by_column a.groups) ++ keys (by_column b.groups)))
          side (inl k) =
              let v = k a refl in
              record {
                column = v.column;
                value = v.value;
                is_value = v.is_value;
                covered =
                    united-Covered (P (schema v.column) v.value) v.column (by_column a.groups)
                      (by_column b.groups)
                      (inl (
                        by_column-Covered (P (schema v.column) v.value) v.column a.groups
                          v.covered));
              }
          side (inr k) =
              let v = k b refl in
              record {
                column = v.column;
                value = v.value;
                is_value = v.is_value;
                covered =
                    united-Covered (P (schema v.column) v.value) v.column (by_column a.groups)
                      (by_column b.groups)
                      (inr (
                        by_column-Covered (P (schema v.column) v.value) v.column b.groups
                          v.covered));
              }

      -- A row that the filter is true of is covered by the groups of the filter.
      pub extract-CoveredRow :
          (e : Expr F) (g : ZoneMapPredicateGroup)
          → Only allowed e
          → Matches e
          → extract_predicates_grouped f64_to_le_bytes e ≡ some g
          → CoveredRow P g.groups
      unfolding extract_predicates_grouped
      extract-CoveredRow (comparison col op val) g a (x, q, h) e =
          comparison-CoveredRow col op x (scalar_to_bytes f64_to_le_bytes val) g a q h e
      extract-CoveredRow (and_expr a b) g (o, p) (h, k) e =
          and-CoveredRow (extract_predicates_grouped f64_to_le_bytes a)
            (extract_predicates_grouped f64_to_le_bytes b) g (λ g'. extract-CoveredRow a g' o h) e
      extract-CoveredRow (or_expr a b) g (o, p) (inl h) e =
          or-CoveredRow (extract_predicates_grouped f64_to_le_bytes a)
            (extract_predicates_grouped f64_to_le_bytes b) g
            (inl (λ g'. extract-CoveredRow a g' o h)) e
      extract-CoveredRow (or_expr a b) g (o, p) (inr h) e =
          or-CoveredRow (extract_predicates_grouped f64_to_le_bytes a)
            (extract_predicates_grouped f64_to_le_bytes b) g
            (inr (λ g'. extract-CoveredRow b g' p h)) e
      extract-CoveredRow (not_expr a) g o h e = absurd (ground arith)
