-- ===== src/Query/Evaluate/Connectives.antt =====
-- src/query/filter_expr.rs: what `evaluate` makes of `AND` and `OR`.
use rockduck.Prelude.{◌≡◌, refl, ap, Bool, Option, none, some, [], ◌∷◌, Str, length, All, arith}
use rockduck.Error.{Result, ok}
use rockduck.Query.Expr.{CompareOp, ScalarVal, Expr, and_expr, or_expr}
use rockduck.Query.Evaluate.{BooleanArray, option_and, option_or, zip_with, evaluate}

-- The entry is not null.
abbrev pub IsValue : Option Bool → Type 0
IsValue none = ⊥
IsValue (some b) = Unit

zip_with-option_and :
    (xs ys : BooleanArray) → All IsValue xs → length xs ≡ length ys → zip_with option_and xs ys ≡ ys
zip_with-option_and [] [] v h = refl
zip_with-option_and [] (y ∷ ys) v h = absurd (omega arith)
zip_with-option_and (x ∷ xs) [] v h = absurd (omega arith)
zip_with-option_and (none ∷ xs) (y ∷ ys) (v, vs) h = absurd v
zip_with-option_and (some b ∷ xs) (y ∷ ys) (v, vs) h =
    ap (◌∷◌ y) (zip_with-option_and xs ys vs (omega arith))

zip_with-option_or :
    (xs ys : BooleanArray) → All IsValue xs → length xs ≡ length ys → zip_with option_or xs ys ≡ xs
zip_with-option_or [] ys v h = refl
zip_with-option_or (x ∷ xs) [] v h = absurd (omega arith)
zip_with-option_or (none ∷ xs) (y ∷ ys) (v, vs) h = absurd v
zip_with-option_or (some b ∷ xs) (y ∷ ys) (v, vs) h =
    ap (◌∷◌ (some b)) (zip_with-option_or xs ys vs (omega arith))

module _ {F Column : Type 0} (column_by_name : Str → Option Column)
    (kernel : CompareOp → ScalarVal F → Column → Result BooleanArray) where
  -- Where the left operand has no nulls and the operands have one length, `AND` has the value of the
  -- right operand alone, and `OR` that of the left operand alone.
  pub evaluate-one_operand :
      (a b : Expr F) (xs ys : BooleanArray)
      → evaluate column_by_name kernel a ≡ ok xs
      → evaluate column_by_name kernel b ≡ ok ys
      → All IsValue xs
      → length xs ≡ length ys
      → (evaluate column_by_name kernel (and_expr a b) ≡ evaluate column_by_name kernel b)
        × (evaluate column_by_name kernel (or_expr a b) ≡ evaluate column_by_name kernel a)
  unfolding evaluate
  evaluate-one_operand a b xs ys p q v h = (
    ground (arith, p, q, zip_with-option_and xs ys v h),
    ground (arith, p, q, zip_with-option_or xs ys v h),
  )
