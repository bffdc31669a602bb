-- ===== src/Query/Parser/Reads.antt =====
-- src/query/filter_expr.rs: what the parts of the parser return, by the grammar: the predicate, the
-- tokens that are tested for, values and comparisons.
use mathlib.Core.List.{append_assoc}
use mathlib.Core.Path.{subst}
use rockduck.Prelude.{
  nat_eq, list_eq, ◌≡◌, refl, sym, ap, ◌∙◌, true, false, Option, some, List, [], ◌∷◌, ◌++◌, Str,
  any, arith, ◌==◌, Bool-cases, Option-cases, inl, inr,
}
use rockduck.Std.Int.{parse_i64}
use rockduck.Query.Expr.{CompareOp, ScalarVal, int64, float64, comparison, Token, minus}
use rockduck.Query.Tokenizer.{done, fail, out_of_fuel}
use rockduck.Query.Parser.{
  Parsed, current, advance, and_then, is_or, is_and, is_not, column_of, operator_of, negated,
  number_value, parse_value, parse_comparison,
}
use rockduck.Query.Parser.Grammar.{
  Value, word, whole, decimal, text, minus_int, minus_float, Primary, compared,
}

-- A value that is returned was read from the tokens in front of what is left, as `P` has it.
abbrev pub Reads : {A : Type 0} → (A → List Token → Type 0) → List Token → Parsed A → Type 0
Reads P ts (done a rest) = (us : List Token) × (ts ≡ us ++ rest) × P a us
Reads P ts (fail e) = Unit
Reads P ts out_of_fuel = Unit

pub and_then-Reads :
    {A B : Type 0} (P : A → List Token → Type 0) (Q : B → List Token → Type 0) (ts : List Token)
    (ts' : List Token) (m : Parsed A) (f : A → List Token → Parsed B)
    → Reads P ts m
    → ((a : A) (rest us : List Token) → ts ≡ us ++ rest → P a us → Reads Q ts' (f a rest))
    → Reads Q ts' (and_then m f)
and_then-Reads P Q ts ts' (done a rest) f (us, e, p) h = h a rest us e p
and_then-Reads P Q ts ts' (fail x) f r h = tt
and_then-Reads P Q ts ts' out_of_fuel f r h = tt

-- A token that is tested for stands there.
pub or_there : (ts : List Token) → is_or (current ts) ≡ true → ts ≡ current ts ∷ advance ts
or_there [] h = absurd (ground arith)
or_there (t ∷ ts) h = refl

pub and_there : (ts : List Token) → is_and (current ts) ≡ true → ts ≡ current ts ∷ advance ts
and_there [] h = absurd (ground arith)
and_there (t ∷ ts) h = refl

pub not_there : (ts : List Token) → is_not (current ts) ≡ true → ts ≡ current ts ∷ advance ts
not_there [] h = absurd (ground arith)
not_there (t ∷ ts) h = refl

column_there :
    (ts : List Token) (col : Str) → column_of (current ts) ≡ some col → ts ≡ current ts ∷ advance ts
column_there [] col h = absurd (ground arith)
column_there (t ∷ ts) col h = refl

operator_there :
    (ts : List Token) (o : CompareOp)
    → operator_of (current ts) ≡ some o
    → ts ≡ current ts ∷ advance ts
unfolding operator_of
operator_there [] o h = absurd (ground arith)
operator_there (t ∷ ts) o h = refl

-- The tokens of an operand behind those before it and its operator.
pub joined :
    (ts0 us ts rest vs : List Token) (t : Token)
    → ts0 ≡ us ++ ts
    → ts ≡ t ∷ advance ts
    → advance ts ≡ vs ++ rest
    → ts0 ≡ (us ++ (t ∷ vs)) ++ rest
joined ts0 us ts rest vs t p q r =
    p ∙ ap (λ l. us ++ l) (q ∙ ap (◌∷◌ t) r) ∙ sym (append_assoc us (t ∷ vs) rest)

module _ {F : Type 0} (parse_f64 : Str → Option F) (neg_f64 : F → F) where
  negated-Reads :
      (v : ScalarVal F) (us rest : List Token)
      → Value parse_f64 neg_f64 v us
      → Reads (Value parse_f64 neg_f64) (minus ∷ (us ++ rest)) (negated parse_f64 neg_f64 v rest)
  negated-Reads (int64 i) us rest d = (minus ∷ us, refl, minus_int i us d)
  negated-Reads (float64 f) us rest d = (minus ∷ us, refl, minus_float f us d)
  negated-Reads v us rest d = tt

  number-Reads :
      (n : Str) (ts : List Token)
      → Reads (Value parse_f64 neg_f64) (Token.number n ∷ ts) (number_value parse_f64 neg_f64 n ts)
  number-Reads n ts = elim (Bool-cases (any (λ c. c == b'.') n)) [
    | inl d ↦ elim (Option-cases (parse_f64 n)) [
      | inl e ↦ rw (d, number_value) (rw (e, Reads) tt)
      | inr (f, e) ↦
          rw (d, number_value) (rw (e, Reads) (Token.number n ∷ [], refl, decimal n f d e))
    ]
    | inr d ↦ elim (Option-cases (parse_i64 n)) [
      | inl e ↦ rw (d, number_value) (rw (e, Reads) tt)
      | inr (i, e) ↦ rw (d, number_value) (rw (e, Reads) (Token.number n ∷ [], refl, whole n i d e))
    ]
  ]

  parse_value-Reads :
      (ts : List Token) → Reads (Value parse_f64 neg_f64) ts (parse_value parse_f64 neg_f64 ts)
  unfolding parse_value
  parse_value-Reads [] = tt
  parse_value-Reads (Token.ident s ∷ ts) = (Token.ident s ∷ [], refl, word s)
  parse_value-Reads (Token.number n ∷ ts) = number-Reads n ts
  parse_value-Reads (minus ∷ ts) =
      and_then-Reads (Value parse_f64 neg_f64) (Value parse_f64 neg_f64) ts (minus ∷ ts)
        (parse_value parse_f64 neg_f64 ts) (negated parse_f64 neg_f64) (parse_value-Reads ts)
        (λ v rest us e d.
          subst
            (λ l. Reads (Value parse_f64 neg_f64) (minus ∷ l) (negated parse_f64 neg_f64 v rest))
            (sym e) (negated-Reads v us rest d))
  parse_value-Reads (Token.string s ∷ ts) = (Token.string s ∷ [], refl, text s)
  parse_value-Reads (t ∷ ts) = tt

  pub parse_comparison-Reads :
      (ts : List Token)
      → is_not (current ts) ≡ false
      → Reads (Primary parse_f64 neg_f64) ts (parse_comparison parse_f64 neg_f64 ts)
  unfolding parse_comparison
  parse_comparison-Reads ts h = elim (Option-cases (column_of (current ts))) [
    | inl e ↦ rw (e, parse_comparison) tt
    | inr (col, e) ↦ elim (Option-cases (operator_of (current (advance ts)))) [
      | inl e' ↦ rw (e, parse_comparison) (rw (e', Reads) tt)
      | inr (o, e') ↦
          rw (e, parse_comparison)
            (rw (e', Reads)
              (and_then-Reads (Value parse_f64 neg_f64) (Primary parse_f64 neg_f64)
                (advance (advance ts)) ts (parse_value parse_f64 neg_f64 (advance (advance ts)))
                (λ v rest. done (comparison col o v) rest)
                (parse_value-Reads (advance (advance ts)))
                (λ v rest us q d. (
                  current ts ∷ (current (advance ts) ∷ us),
                  column_there ts col e
                      ∙ ap (◌∷◌ (current ts))
                          (operator_there (advance ts) o e' ∙ ap (◌∷◌ (current (advance ts))) q),
                  compared (current ts) (current (advance ts)) col o v us h e e' d,
                ))))
    ]
  ]
