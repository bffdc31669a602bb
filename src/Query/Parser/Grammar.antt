-- ===== src/Query/Parser/Grammar.antt =====
-- src/query/filter_expr.rs: the grammar of filter expressions, in the order of precedence that the
-- comments of `Parser` give, and the parser on what it derives.
use rockduck.Prelude.{
  nat_eq, list_eq, ◌≡◌, true, false, Option, some, List, [], ◌∷◌, ◌++◌, Str, any, ◌==◌,
}
use rockduck.Std.Int.{ℤ, neg, parse_i64}
use rockduck.Query.Expr.{
  CompareOp, ScalarVal, int64, float64, Expr, comparison, or_expr, and_expr, not_expr, Token, minus,
  lparen, rparen,
}
use rockduck.Query.Parser.{is_or, is_and, is_not, column_of, operator_of, word_value}

module _ {F : Type 0} (parse_f64 : Str → Option F) (neg_f64 : F → F) where
  -- The tokens of a value: a word, a number with or without a dot, a string, or the negative of one.
  pub data Value : ScalarVal F → List Token → Type 0 where
    word : (s : Str) → Value (word_value parse_f64 neg_f64 s) (Token.ident s ∷ [])
    whole :
        (n : Str) (i : ℤ)
        → any (λ c. c == b'.') n ≡ false
        → parse_i64 n ≡ some i
        → Value (int64 i) (Token.number n ∷ [])
    decimal :
        (n : Str) (f : F)
        → any (λ c. c == b'.') n ≡ true
        → parse_f64 n ≡ some f
        → Value (float64 f) (Token.number n ∷ [])
    text : (s : Str) → Value (ScalarVal.string s) (Token.string s ∷ [])
    minus_int : (i : ℤ) (ts : List Token) → Value (int64 i) ts → Value (int64 (neg i)) (minus ∷ ts)
    minus_float :
        (f : F) (ts : List Token) → Value (float64 f) ts → Value (float64 (neg_f64 f)) (minus ∷ ts)

  -- Disjunctions of conjunctions of negations of comparisons, to the left, and parentheses.
  mutual
    pub data Primary : Expr F → List Token → Type 0 where
      compared :
          (c o : Token) (col : Str) (cmp : CompareOp) (v : ScalarVal F) (ts : List Token)
          → is_not c ≡ false
          → column_of c ≡ some col
          → operator_of o ≡ some cmp
          → Value v ts
          → Primary (comparison col cmp v) (c ∷ o ∷ ts)
      grouped :
          (e : Expr F) (ts : List Token)
          → Disjunction e ts
          → Primary e (lparen ∷ (ts ++ (rparen ∷ [])))

    pub data Negation : Expr F → List Token → Type 0 where
      plain : (e : Expr F) (ts : List Token) → Primary e ts → Negation e ts
      negation :
          (t : Token) (e : Expr F) (ts : List Token)
          → is_not t ≡ true
          → Negation e ts
          → Negation (not_expr e) (t ∷ ts)

    pub data Conjunction : Expr F → List Token → Type 0 where
      one_negation : (e : Expr F) (ts : List Token) → Negation e ts → Conjunction e ts
      conjunction :
          (t : Token) (a b : Expr F) (ts us : List Token)
          → Conjunction a ts
          → is_and t ≡ true
          → Negation b us
          → Conjunction (and_expr a b) (ts ++ (t ∷ us))

    pub data Disjunction : Expr F → List Token → Type 0 where
      one_conjunction : (e : Expr F) (ts : List Token) → Conjunction e ts → Disjunction e ts
      disjunction :
          (t : Token) (a b : Expr F) (ts us : List Token)
          → Disjunction a ts
          → is_or t ≡ true
          → Conjunction b us
          → Disjunction (or_expr a b) (ts ++ (t ∷ us))
