-- ===== src/Query/Expr.antt =====
-- src/query/filter_expr.rs: the filter expressions and the tokens. A string is the list of its code
-- points. `F` stands for `f64`.
use rockduck.Prelude.{ℕ, Bool, Str}
use rockduck.Std.Int.{ℤ}

pub data CompareOp : Type 0 where
  eq ne lt le gt ge : CompareOp

pub data ScalarVal (F : Type 0) : Type 0 where
  null : ScalarVal F
  bool : Bool → ScalarVal F
  int64 : ℤ → ScalarVal F
  float64 : F → ScalarVal F
  string : Str → ScalarVal F

pub data Expr (F : Type 0) : Type 0 where
  comparison : Str → CompareOp → ScalarVal F → Expr F
  and_expr or_expr : Expr F → Expr F → Expr F
  not_expr : Expr F → Expr F

pub data Token : Type 0 where
  ident string number : Str → Token
  op : CompareOp → Token
  and_token or_token not_token minus lparen rparen eof : Token

-- The messages of the tokenizer and of the parser, by what they name.
pub data ParseError : Type 0 where
  unterminated_string single_ampersand single_bar : ParseError
  unexpected_character : ℕ → ParseError
  unexpected_token expected_rparen unexpected_in_primary : Token → ParseError
  expected_column expected_operator expected_value : Token → ParseError
  not_an_i64 not_an_f64 : Str → ParseError
  minus_applied : ParseError
