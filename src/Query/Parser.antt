-- ===== src/Query/Parser.antt =====
-- src/query/filter_expr.rs: `Parser`. Its state is the tokens from `pos` on; a position behind the
-- last token reads as the end, and `advance` stays there. The functions that call one another run on
-- fuel, of which each call takes one. `parse_f64` and `neg_f64` are those of `f64`.
pub mod Total
pub mod Grammar
pub mod Accepts
pub mod Reads
pub mod Derives
use rockduck.Prelude.{
  nat_eq, list_eq, ℕ, zero, suc, ◌+◌, ◌*◌, Bool, true, false, ◌||◌, Option, none, some, List, [],
  ◌∷◌, Str, length, any, if◌then◌else◌, ◌==◌,
}
use rockduck.Std.Int.{ℤ, neg, parse_i64}
use rockduck.Query.Expr.{
  CompareOp, eq, ne, lt, le, gt, ge, ScalarVal, null, bool, int64, float64, string, Expr,
  comparison, and_expr, or_expr, not_expr, Token, and_token, or_token, not_token, minus, lparen,
  rparen, eof, ParseError, unexpected_token, expected_rparen, unexpected_in_primary,
  expected_column, expected_operator, expected_value, not_an_i64, not_an_f64, minus_applied,
}
use rockduck.Query.Tokenizer.{Outcome, done, fail, out_of_fuel, to_lowercase, tokenize}

abbrev pub Parsed : Type 0 → Type 0
Parsed = Outcome (List Token)

abbrev pub current : List Token → Token
current [] = eof
current (t ∷ ts) = t

abbrev pub advance : List Token → List Token
advance [] = []
advance (t ∷ ts) = ts

-- `?`
abbrev pub and_then : {A B : Type 0} → Parsed A → (A → List Token → Parsed B) → Parsed B
and_then (done a ts) f = f a ts
and_then (fail e) f = fail e
and_then out_of_fuel f = out_of_fuel

-- An identifier is the given word, whatever its case.
abbrev pub is_word : Str → Token → Bool
is_word word (Token.ident s) = to_lowercase s == word
is_word word _ = false

abbrev pub is_or : Token → Bool
is_or or_token = true
is_or t = is_word (b'o' ∷ b'r' ∷ []) t

abbrev pub is_and : Token → Bool
is_and and_token = true
is_and t = is_word (b'a' ∷ b'n' ∷ b'd' ∷ []) t

abbrev pub is_not : Token → Bool
is_not not_token = true
is_not t = is_word (b'n' ∷ b'o' ∷ b't' ∷ []) t

abbrev operator_word : Str → Option CompareOp
operator_word s =
    if s == (b'e' ∷ b'q' ∷ [])
    then some eq
    else if s == (b'n' ∷ b'e' ∷ []) || s == (b'n' ∷ b'e' ∷ b'q' ∷ [])
    then some ne
    else if s == (b'l' ∷ b't' ∷ [])
    then some lt
    else if s == (b'l' ∷ b'e' ∷ []) || s == (b'l' ∷ b't' ∷ b'e' ∷ [])
    then some le
    else if s == (b'g' ∷ b't' ∷ [])
    then some gt
    else if s == (b'g' ∷ b'e' ∷ []) || s == (b'g' ∷ b't' ∷ b'e' ∷ [])
    then some ge
    else none

unfoldable pub operator_of : Token → Option CompareOp
operator_of (Token.op o) = some o
operator_of (Token.ident s) = operator_word (to_lowercase s)
operator_of _ = none

abbrev pub column_of : Token → Option Str
column_of (Token.ident s) = some s
column_of (Token.number n) = some n
column_of _ = none

module _ {F : Type 0} (parse_f64 : Str → Option F) (neg_f64 : F → F) where
  -- The value that a word stands for.
  unfoldable pub word_value : Str → ScalarVal F
  word_value s =
      let w = to_lowercase s in
      if w == (b'n' ∷ b'u' ∷ b'l' ∷ b'l' ∷ [])
      then null
      else if w == (b't' ∷ b'r' ∷ b'u' ∷ b'e' ∷ [])
      then bool true
      else if w == (b'f' ∷ b'a' ∷ b'l' ∷ b's' ∷ b'e' ∷ [])
      then bool false
      else (elim (parse_i64 w) [
        | some i ↦ int64 i
        | none ↦ elim (parse_f64 w) [ some f ↦ float64 f | none ↦ ScalarVal.string s ]
      ])

  abbrev pub number_value : Str → List Token → Parsed (ScalarVal F)
  number_value n ts =
      if any (λ c. c == b'.') n
      then (elim (parse_f64 n) [ some f ↦ done (float64 f) ts | none ↦ fail (not_an_f64 n) ])
      else (elim (parse_i64 n) [ some i ↦ done (int64 i) ts | none ↦ fail (not_an_i64 n) ])

  abbrev pub negated : ScalarVal F → List Token → Parsed (ScalarVal F)
  negated (int64 i) ts = done (int64 (neg i)) ts
  negated (float64 f) ts = done (float64 (neg_f64 f)) ts
  negated _ ts = fail minus_applied

  unfoldable pub parse_value : List Token → Parsed (ScalarVal F)
  parse_value [] = fail (expected_value eof)
  parse_value (Token.ident s ∷ ts) = done (word_value s) ts
  parse_value (Token.number n ∷ ts) = number_value n ts
  parse_value (minus ∷ ts) = and_then (parse_value ts) negated
  parse_value (Token.string s ∷ ts) = done (ScalarVal.string s) ts
  parse_value (t ∷ ts) = fail (expected_value t)

  unfoldable pub parse_comparison : List Token → Parsed (Expr F)
  parse_comparison ts = elim (column_of (current ts)) [
    | none ↦ fail (expected_column (current ts))
    | some col ↦ elim (operator_of (current (advance ts))) [
      | none ↦ fail (expected_operator (current (advance ts)))
      | some o ↦
          and_then (parse_value (advance (advance ts))) (λ v rest. done (comparison col o v) rest)
    ]
  ]

  abbrev pub close : Expr F → List Token → Parsed (Expr F)
  close e (rparen ∷ ts) = done e ts
  close e ts = fail (expected_rparen (current ts))

  unfoldable mutual
    pub parse_or : ℕ → List Token → Parsed (Expr F)
    parse_or zero ts = out_of_fuel
    parse_or (suc n) ts = and_then (parse_and n ts) (or_loop n)

    -- The loops over the operands, with the expression read so far.
    pub or_loop : ℕ → Expr F → List Token → Parsed (Expr F)
    or_loop zero left ts = out_of_fuel
    or_loop (suc n) left ts = elim (is_or (current ts)) [
      | true ↦ and_then (parse_and n (advance ts)) (λ right. or_loop n (or_expr left right))
      | false ↦ done left ts
    ]

    pub parse_and : ℕ → List Token → Parsed (Expr F)
    parse_and zero ts = out_of_fuel
    parse_and (suc n) ts = and_then (parse_not n ts) (and_loop n)

    pub and_loop : ℕ → Expr F → List Token → Parsed (Expr F)
    and_loop zero left ts = out_of_fuel
    and_loop (suc n) left ts = elim (is_and (current ts)) [
      | true ↦ and_then (parse_not n (advance ts)) (λ right. and_loop n (and_expr left right))
      | false ↦ done left ts
    ]

    pub parse_not : ℕ → List Token → Parsed (Expr F)
    parse_not zero ts = out_of_fuel
    parse_not (suc n) ts = elim (is_not (current ts)) [
      | true ↦ and_then (parse_not n (advance ts)) (λ e rest. done (not_expr e) rest)
      | false ↦ parse_primary n ts
    ]

    pub parse_primary : ℕ → List Token → Parsed (Expr F)
    parse_primary zero ts = out_of_fuel
    parse_primary (suc n) ts = elim (current ts) [
      | lparen ↦ and_then (parse_or n (advance ts)) close
      | Token.ident s ↦ parse_comparison ts
      | Token.number s ↦ parse_comparison ts
      | Token.string s ↦ parse_comparison ts
      | t ↦ fail (unexpected_in_primary t)
    ]

  abbrev pub at_end : Expr F → List Token → Parsed (Expr F)
  at_end e ts = elim (current ts) [ eof ↦ done e ts | t ↦ fail (unexpected_token t) ]

  -- `Parser::parse`. Five calls for each token and four besides are enough.
  unfoldable pub parse_tokens : List Token → Parsed (Expr F)
  parse_tokens ts = and_then (parse_or (5 * length ts + 4) ts) at_end

  -- `parse`
  unfoldable pub parse : List ℕ → Parsed (Expr F)
  parse s = elim (tokenize s) [
    | done ts rest ↦ parse_tokens ts
    | fail e ↦ fail e
    | out_of_fuel ↦ out_of_fuel
  ]
