-- ===== src/Query/Tests.antt =====
-- A filter over two columns, read, pruned and evaluated.
use rockduck.Prelude.{
  ℕ, ◌≡◌, ◌≢◌, ◌⊎◌, inr, refl, Bool, true, false, Option, none, some, List, [], ◌∷◌, ◌++◌, Bytes,
  Str, In, nat_eq, ap₂, ◌∙◌, list_eqb, if◌then◌else◌,
}
use rockduck.Error.{Result, ok}
use rockduck.Std.Int.{ℤ, pos, negsuc}
use rockduck.Meta.ZoneMap.{DataType, int64, bytes_lt}
use rockduck.Query.Expr.{
  CompareOp, eq, lt, ge, ScalarVal, Expr, comparison, and_expr, or_expr, not_expr, Token, ident,
  number, op, and_token, or_token, not_token, minus, lparen, rparen, eof, ParseError,
}
use rockduck.Query.Tokenizer.{Outcome, done, fail, tokenize}
use rockduck.Query.Parser.{current, parse, parse_tokens}
use rockduck.Query.Parser.Total.{parse-total}
use rockduck.Query.Parser.Grammar.{
  whole, text, minus_int, compared, grouped, Negation, plain, negation, Conjunction, one_negation,
  conjunction, Disjunction, one_conjunction, disjunction,
}
use rockduck.Query.Parser.Accepts.{parse_tokens-Disjunction}
use rockduck.Query.Parser.Derives.{parse_tokens-derives}
use rockduck.Query.Predicates.{
  ZoneMapOrGroup, ZoneMapPredicateGroup, check_or_group_may_overlap, extract_predicates_grouped,
}
use rockduck.Query.Predicates.Sound.{Matches}
use rockduck.Query.Predicates.Check.{Bounds, check_or_group_may_overlap-Matches}
use rockduck.Query.Evaluate.{BooleanArray, evaluate}
use rockduck.Query.Evaluate.Connectives.{evaluate-one_operand}

-- A text without floating-point numbers needs no type of them.
abbrev no_f64 : Str → Option ℕ
no_f64 s = none

abbrev same_f64 : ℕ → ℕ
same_f64 f = f

abbrev col_a : Str
col_a = b'a' ∷ []

abbrev col_b : Str
col_b = b'b' ∷ []

-- not (a = 1 or b < -2) and a >= "x"
abbrev filter_text : List ℕ
filter_text =
    b'n' ∷ b'o' ∷ b't' ∷ b' ' ∷ b'(' ∷ b'a' ∷ b' ' ∷ b'=' ∷ b' ' ∷ b'1' ∷ b' ' ∷ b'o' ∷ b'r' ∷ b' '
    ∷ b'b' ∷ b' ' ∷ b'<' ∷ b' ' ∷ b'-' ∷ b'2' ∷ b')' ∷ b' ' ∷ b'&' ∷ b'&' ∷ b' ' ∷ b'A' ∷ b' '
    ∷ b'>' ∷ b'=' ∷ b' ' ∷ b'"' ∷ b'x' ∷ b'"' ∷ []

abbrev filter_tokens : List Token
filter_tokens =
    not_token
      ∷ (lparen
          ∷ ((ident col_a
                ∷ op eq
                ∷ number (b'1' ∷ [])
                ∷ or_token
                ∷ ident col_b
                ∷ op lt
                ∷ minus
                ∷ number (b'2' ∷ [])
                ∷ [])
              ++ (rparen ∷ [])))
    ++ (and_token ∷ ident col_a ∷ op ge ∷ Token.string (b'x' ∷ []) ∷ [])

abbrev filter_expr : Expr ℕ
filter_expr =
    and_expr
      (not_expr (
        or_expr (comparison col_a eq (ScalarVal.int64 (pos 1)))
          (comparison col_b lt (ScalarVal.int64 (negsuc 1)))))
      (comparison col_a ge (ScalarVal.string (b'x' ∷ [])))

tokenized : tokenize filter_text ≡ done (filter_tokens ++ (eof ∷ [])) []
unfolding tokenize rockduck.Query.Tokenizer.tokenize_loop rockduck.Query.Tokenizer.next_token
    rockduck.Query.Tokenizer.read_string rockduck.Query.Tokenizer.read_ident
    rockduck.Query.Tokenizer.read_number rockduck.Query.Tokenizer.to_lowercase
tokenized = refl

parsed : parse_tokens no_f64 same_f64 (filter_tokens ++ (eof ∷ [])) ≡ done filter_expr (eof ∷ [])
unfolding parse_tokens rockduck.Query.Parser.parse_or rockduck.Query.Parser.parse_comparison
    rockduck.Query.Parser.parse_value rockduck.Query.Parser.operator_of
    rockduck.Query.Tokenizer.to_lowercase rockduck.Std.Int.parse_i64 rockduck.Std.Int.digits_value
parsed = refl

parse-total_example :
    ((e : Expr ℕ) × (ts : List Token) × (parse no_f64 same_f64 filter_text ≡ done e ts)
      × (current ts ≡ eof))
    ⊎ ((e : ParseError) × (parse no_f64 same_f64 filter_text ≡ fail e))
parse-total_example = parse-total no_f64 same_f64 filter_text

-- The derivation of the filter.
derived : Disjunction no_f64 same_f64 filter_expr filter_tokens
unfolding rockduck.Query.Parser.operator_of rockduck.Query.Tokenizer.to_lowercase
    rockduck.Std.Int.parse_i64 rockduck.Std.Int.digits_value
derived =
    let a : Disjunction no_f64 same_f64 (comparison col_a eq (ScalarVal.int64 (pos 1)))
        (ident col_a ∷ op eq ∷ number (b'1' ∷ []) ∷ []) =
      one_conjunction _ _ (
        one_negation _ _ (
          plain _ _ (
            compared (ident col_a) (op eq) col_a eq _ _ refl refl refl
              (whole (b'1' ∷ []) (pos 1) refl refl)))) in
    let b : Conjunction no_f64 same_f64 (comparison col_b lt (ScalarVal.int64 (negsuc 1)))
        (ident col_b ∷ op lt ∷ minus ∷ number (b'2' ∷ []) ∷ []) =
      one_negation _ _ (
        plain _ _ (
          compared (ident col_b) (op lt) col_b lt _ _ refl refl refl
            (minus_int (pos 2) _ (whole (b'2' ∷ []) (pos 2) refl refl)))) in
    let c : Negation no_f64 same_f64 (comparison col_a ge (ScalarVal.string (b'x' ∷ [])))
        (ident col_a ∷ op ge ∷ Token.string (b'x' ∷ []) ∷ []) =
      plain _ _ (compared (ident col_a) (op ge) col_a ge _ _ refl refl refl (text (b'x' ∷ []))) in
    one_conjunction _ _ (
      conjunction and_token _ _ _ _
        (one_negation _ _ (
          negation not_token _ _ refl
            (plain _ _ (grouped _ _ (disjunction or_token _ _ _ _ a refl b)))))
        refl c)

parse_tokens-Disjunction_example :
    parse_tokens no_f64 same_f64 (filter_tokens ++ (eof ∷ [])) ≡ done filter_expr (eof ∷ [])
parse_tokens-Disjunction_example =
    parse_tokens-Disjunction no_f64 same_f64 filter_expr filter_tokens derived

parse_tokens-derives_example :
    (us : List Token) × (filter_tokens ++ (eof ∷ []) ≡ us ++ (eof ∷ []))
    × (current (eof ∷ []) ≡ eof)
    × Disjunction no_f64 same_f64 filter_expr us
parse_tokens-derives_example =
    parse_tokens-derives no_f64 same_f64 (filter_tokens ++ (eof ∷ [])) filter_expr (eof ∷ []) parsed

-- Comparisons of floating-point values that no test needs.
abbrev no_lt : Bytes → Bytes → Bool
no_lt l r = false

abbrev f64_bytes : ℕ → Bytes
f64_bytes f = []

abbrev bytes_of : ℕ → Bytes
bytes_of n = n ∷ 0 ∷ 0 ∷ 0 ∷ 0 ∷ 0 ∷ 0 ∷ 0 ∷ []

-- A row of which every column is 2, in a segment of values from 1 to 4.
abbrev twos : Str → Option Bytes
twos c = some (bytes_of 2)

abbrev integers : Str → DataType
integers c = int64

-- a = 1 or (a = 2 and b >= 2)
abbrev nested : Expr ℕ
nested = or_expr (comparison col_a eq (ScalarVal.int64 (pos 1))) (
    and_expr (comparison col_a eq (ScalarVal.int64 (pos 2)))
      (comparison col_b ge (ScalarVal.int64 (pos 2))))

-- Both columns have a group, and the first has two, since it stands on both sides.
abbrev nested_groups : ZoneMapPredicateGroup
nested_groups = record {
  groups =
      record { column = col_a; ranges = (bytes_of 1, bytes_of 1) ∷ (bytes_of 2, bytes_of 2) ∷ [] }
      ∷ record { column = col_a; ranges = (bytes_of 1, bytes_of 1) ∷ (bytes_of 2, bytes_of 2) ∷ [] }
      ∷ record { column = col_b; ranges = (bytes_of 2, []) ∷ [] }
      ∷ [];
  has_cross_column_or = false;
}

grouped_ranges : extract_predicates_grouped f64_bytes nested ≡ some nested_groups
unfolding extract_predicates_grouped rockduck.Query.Predicates.scalar_to_bytes
    rockduck.Query.Predicates.united rockduck.Query.Predicates.absorb
    rockduck.Query.Predicates.absorb_all
grouped_ranges = refl

nested-Matches : Matches no_lt no_lt f64_bytes integers twos nested
unfolding rockduck.Query.Predicates.scalar_to_bytes bytes_lt rockduck.Meta.ZoneMap.read_bytes
nested-Matches = inr ((bytes_of 2, refl, (refl, refl)), (bytes_of 2, refl, refl))

not_below_one : bytes_lt no_lt no_lt (bytes_of 2) (bytes_of 1) int64 ≡ some false
unfolding bytes_lt rockduck.Meta.ZoneMap.read_bytes
not_below_one = refl

not_above_four : bytes_lt no_lt no_lt (bytes_of 4) (bytes_of 2) int64 ≡ some false
unfolding bytes_lt rockduck.Meta.ZoneMap.read_bytes
not_above_four = refl

some_injective : (x y : Bytes) → some x ≡ some y → y ≡ x
some_injective x y h = cc

twos-Bounds :
    (c : Str) (x : Bytes)
    → twos c ≡ some x
    → Bounds no_lt no_lt (integers c) (some (bytes_of 1)) (some (bytes_of 4)) x
twos-Bounds c x h = record {
  from_min = λ m e.
      ap₂ (λ y n. bytes_lt no_lt no_lt y n int64) (some_injective (bytes_of 2) x h)
        (some_injective (bytes_of 1) m e)
      ∙ not_below_one;
  to_max = λ m e.
      ap₂ (λ n y. bytes_lt no_lt no_lt n y int64) (some_injective (bytes_of 4) m e)
        (some_injective (bytes_of 2) x h)
      ∙ not_above_four;
}

check_or_group_may_overlap-Matches_example :
    (or_group : ZoneMapOrGroup) × In or_group nested_groups.groups
    × (check_or_group_may_overlap no_lt no_lt or_group (some (bytes_of 1)) (some (bytes_of 4)) int64
        ≢ some false)
check_or_group_may_overlap-Matches_example =
    check_or_group_may_overlap-Matches no_lt no_lt f64_bytes integers twos nested nested_groups
      (λ c. some (bytes_of 1)) (λ c. some (bytes_of 4)) (λ c. tt) twos-Bounds nested-Matches
      grouped_ranges

-- Two columns of truth values by rows, on which every comparison is an equality with the literal.
abbrev columns : Str → Option BooleanArray
columns c =
    if list_eqb c col_a
    then some (some true ∷ some false ∷ [])
    else some (some true ∷ some true ∷ [])

abbrev as_is : CompareOp → ScalarVal ℕ → BooleanArray → Result BooleanArray
as_is o v array = ok array

abbrev is_true : Str → Expr ℕ
is_true c = comparison c eq (ScalarVal.bool true)

evaluated_a : evaluate columns as_is (is_true col_a) ≡ ok (some true ∷ some false ∷ [])
unfolding evaluate rockduck.Query.Evaluate.evaluate_comparison rockduck.Query.Evaluate.is_supported
evaluated_a = refl

evaluated_b : evaluate columns as_is (is_true col_b) ≡ ok (some true ∷ some true ∷ [])
unfolding evaluate rockduck.Query.Evaluate.evaluate_comparison rockduck.Query.Evaluate.is_supported
evaluated_b = refl

-- The second row is in the result of the AND, and not in that of its left operand.
evaluate-one_operand_example :
    (evaluate columns as_is (and_expr (is_true col_a) (is_true col_b))
      ≡ evaluate columns as_is (is_true col_b))
    × (evaluate columns as_is (or_expr (is_true col_a) (is_true col_b))
        ≡ evaluate columns as_is (is_true col_a))
evaluate-one_operand_example =
    evaluate-one_operand columns as_is (is_true col_a) (is_true col_b) (some true ∷ some false ∷ [])
      (some true ∷ some true ∷ []) evaluated_a evaluated_b (tt, (tt, tt)) refl
