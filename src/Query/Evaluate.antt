-- ===== src/Query/Evaluate.antt =====
-- src/query/filter_expr.rs: `evaluate` over a batch. A `BooleanArray` is the list of its entries, `none`
-- for a null. The columns of the batch and the comparison kernels of Arrow are parameters.
pub mod Connectives
use rockduck.Prelude.{
  Bool, true, false, not, Option, none, some, List, [], ◌∷◌, map, Str, if◌then◌else◌,
}
use rockduck.Error.{RockDuckError, query, Result, ok, err, ◌>>=◌}
use rockduck.Query.Expr.{
  CompareOp, eq, ne, lt, le, gt, ge, ScalarVal, null, bool, Expr, comparison, and_expr, or_expr,
  not_expr,
}

abbrev pub BooleanArray : Type 0
BooleanArray = List (Option Bool)

-- `Option::and`
abbrev pub option_and : Option Bool → Option Bool → Option Bool
option_and none r = none
option_and (some l) r = r

-- `Option::or`
abbrev pub option_or : Option Bool → Option Bool → Option Bool
option_or none r = r
option_or (some l) r = some l

-- `zip` and `map`
abbrev pub zip_with :
    (Option Bool → Option Bool → Option Bool) → BooleanArray → BooleanArray → BooleanArray
zip_with f [] ys = []
zip_with f (x ∷ xs) [] = []
zip_with f (x ∷ xs) (y ∷ ys) = f x y ∷ zip_with f xs ys

abbrev pub negate : Option Bool → Option Bool
negate none = none
negate (some b) = some (not b)

abbrev pub is_equation : CompareOp → Bool
is_equation eq = true
is_equation ne = true
is_equation _ = false

module _ {F : Type 0} where
  -- The comparisons that `evaluate_comparison` has an arm for.
  unfoldable pub is_supported : CompareOp → ScalarVal F → Bool
  is_supported op null = is_equation op
  is_supported op (bool b) = is_equation op
  is_supported op v = true

  module _ {Column : Type 0} (column_by_name : Str → Option Column)
      (kernel : CompareOp → ScalarVal F → Column → Result BooleanArray) where
    unfoldable pub evaluate_comparison : Str → CompareOp → ScalarVal F → Result BooleanArray
    evaluate_comparison col op val = elim (column_by_name col) [
      | none ↦ err query
      | some array ↦ if is_supported op val then kernel op val array else err query
    ]

    unfoldable pub evaluate : Expr F → Result BooleanArray
    evaluate (comparison col op val) = evaluate_comparison col op val
    evaluate (and_expr a b) = do
      left ← evaluate a
      right ← evaluate b
      ok (zip_with option_and left right)
    evaluate (or_expr a b) = do
      left ← evaluate a
      right ← evaluate b
      ok (zip_with option_or left right)
    evaluate (not_expr a) = do inner ← evaluate a; ok (map negate inner)
