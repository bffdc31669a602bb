-- ===== src/Query/Tokenizer.antt =====
-- src/query/filter_expr.rs: `tokenize`. The inner loops return what they read with what is left; the
-- outer loop runs on fuel, of which it takes one for each token or blank.
pub mod Total
use rockduck.Prelude.{
  ℕ, zero, suc, ◌+◌, ◌≡◌, refl, Bool, true, false, not, ◌&&◌, ◌||◌, Option, none, some, List, [],
  ◌∷◌, ◌++◌, map, nat_eq, Str, length, leb, list_eq, if◌then◌else◌, ◌==◌,
}
use rockduck.Query.Expr.{
  CompareOp, eq, ne, lt, le, gt, ge, Token, ident, string, number, op, and_token, or_token,
  not_token, minus, lparen, rparen, eof, ParseError, unterminated_string, single_ampersand,
  single_bar, unexpected_character,
}

-- What a parsing function gives: a value with the input behind it, an error, or that its fuel ran
-- out, which stands for a loop that does not end.
pub data Outcome (I A : Type 0) : Type 0 where
  done : A → I → Outcome I A
  fail : ParseError → Outcome I A
  out_of_fuel : Outcome I A

abbrev pub is_ascii_digit : ℕ → Bool
is_ascii_digit c = leb b'0' c && leb c b'9'

abbrev pub is_ascii_upper : ℕ → Bool
is_ascii_upper c = leb b'A' c && leb c b'Z'

abbrev pub is_ascii_alphabetic : ℕ → Bool
is_ascii_alphabetic c = is_ascii_upper c || (leb b'a' c && leb c b'z')

abbrev pub is_ident_start : ℕ → Bool
is_ident_start c = is_ascii_alphabetic c || c == b'_'

abbrev pub is_ident_char : ℕ → Bool
is_ident_char c = is_ascii_alphabetic c || is_ascii_digit c || c == b'_'

abbrev pub is_blank : ℕ → Bool
is_blank c = c == b' ' || c == b'\t' || c == b'\n' || c == b'\r'

-- `str::to_lowercase` on identifiers, which are ASCII.
unfoldable pub to_lowercase : Str → Str
to_lowercase = map (λ c. if is_ascii_upper c then c + 32 else c)

-- The character that follows a backslash.
abbrev pub unescape : ℕ → ℕ
unescape c =
    if c == b'n' then b'\n' else if c == b't' then b'\t' else if c == b'r' then b'\r' else c

abbrev pub prepend : ℕ → Option (Str × List ℕ) → Option (Str × List ℕ)
prepend c none = none
prepend c (some (s, rest)) = some (c ∷ s, rest)

-- A string behind its opening quote; a backslash at the very end is dropped, and then the end is met.
unfoldable pub read_string : List ℕ → Option (Str × List ℕ)
read_string [] = none
read_string (c ∷ []) = if c == b'"' then some ([], []) else none
read_string (c ∷ e ∷ cs) =
    let escaped = prepend (unescape e) (read_string cs) in
    let plain = prepend c (read_string (e ∷ cs)) in
    if c == b'"' then some ([], e ∷ cs) else if c == b'\\' then escaped else plain

-- The characters of an identifier, and what is behind them.
unfoldable pub read_ident : List ℕ → Str × List ℕ
read_ident [] = ([], [])
read_ident (c ∷ cs) =
    let (s, rest) = read_ident cs in if is_ident_char c then (c ∷ s, rest) else ([], c ∷ cs)

-- The digits of a number with at most one dot.
unfoldable pub read_number : Bool → List ℕ → Str × List ℕ
read_number has_dot [] = ([], [])
read_number has_dot (c ∷ cs) =
    let (s, rest) = read_number (has_dot || c == b'.') cs in
    if is_ascii_digit c || (c == b'.' && not has_dot) then (c ∷ s, rest) else ([], c ∷ cs)

abbrev keyword : Str → Token
keyword s =
    if s == (b'a' ∷ b'n' ∷ b'd' ∷ [])
    then and_token
    else if s == (b'o' ∷ b'r' ∷ [])
    then or_token
    else if s == (b'n' ∷ b'o' ∷ b't' ∷ [])
    then not_token
    else ident s

-- A token of one or two characters: the second is taken if it is `=`.
abbrev with_equals : Token → Token → List ℕ → Outcome (List ℕ) (Option Token)
with_equals alone both [] = done (some alone) []
with_equals alone both (c ∷ cs) =
    if c == b'=' then done (some both) cs else done (some alone) (c ∷ cs)

abbrev doubled : ℕ → Token → ParseError → List ℕ → Outcome (List ℕ) (Option Token)
doubled d token e [] = fail e
doubled d token e (c ∷ cs) = if c == d then done (some token) cs else fail e

-- One round of the outer loop at the character `c`: a token, or nothing for a blank.
unfoldable pub next_token : ℕ → List ℕ → Outcome (List ℕ) (Option Token)
next_token c cs =
    if is_blank c
    then done none cs
    else if c == b'"'
    then (elim (read_string cs) [
      | some (s, rest) ↦ done (some (string s)) rest
      | none ↦ fail unterminated_string
    ])
    else if c == b'('
    then done (some lparen) cs
    else if c == b')'
    then done (some rparen) cs
    else if c == b'!'
    then with_equals not_token (op ne) cs
    else if c == b'='
    then with_equals (op eq) (op eq) cs
    else if c == b'<'
    then with_equals (op lt) (op le) cs
    else if c == b'>'
    then with_equals (op gt) (op ge) cs
    else if c == b'&'
    then doubled b'&' and_token single_ampersand cs
    else if c == b'|'
    then doubled b'|' or_token single_bar cs
    else if is_ident_start c
    then (let (s, rest) = read_ident cs in done (some (keyword (to_lowercase (c ∷ s)))) rest)
    else if c == b'-'
    then done (some minus) cs
    else if is_ascii_digit c
    then (let (s, rest) = read_number false cs in done (some (number (c ∷ s))) rest)
    else fail (unexpected_character c)

abbrev pub pushed : List Token → Option Token → List Token
pushed tokens none = tokens
pushed tokens (some t) = tokens ++ (t ∷ [])

unfoldable pub tokenize_loop : ℕ → List Token → List ℕ → Outcome (List ℕ) (List Token)
tokenize_loop zero tokens cs = out_of_fuel
tokenize_loop (suc fuel) tokens [] = done (tokens ++ (eof ∷ [])) []
tokenize_loop (suc fuel) tokens (c ∷ cs) = elim (next_token c cs) [
  | done t rest ↦ tokenize_loop fuel (pushed tokens t) rest
  | fail e ↦ fail e
  | out_of_fuel ↦ out_of_fuel
]

unfoldable pub tokenize : List ℕ → Outcome (List ℕ) (List Token)
tokenize s = tokenize_loop (suc (length s)) [] s
