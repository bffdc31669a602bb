-- ===== src/Query/Tokenizer/Total.antt =====
-- src/query/filter_expr.rs: the loops of `tokenize` end.
use rockduck.Prelude.{
  ℕ, zero, suc, ◌≤◌, ◌<◌, Bool, false, ◌||◌, Option, none, some, List, [], ◌∷◌, nat_eq, Str, length,
  arith, ◌==◌, Bool-cases, inl, inr,
}
use rockduck.Query.Expr.{Token}
use rockduck.Query.Tokenizer.{
  Outcome, done, fail, out_of_fuel, unescape, prepend, read_string, read_ident, read_number,
  next_token, pushed, tokenize_loop, tokenize,
}

-- What is left behind a string is shorter than `n`.
abbrev Behind : ℕ → Option (Str × List ℕ) → Type 0
Behind n none = Unit
Behind n (some (s, rest)) = length rest < n

prepend-Behind :
    (c n m : ℕ) (o : Option (Str × List ℕ)) → Behind n o → n ≤ m → Behind m (prepend c o)
prepend-Behind c n m none b h = tt
prepend-Behind c n m (some (s, rest)) b h = omega arith

read_string-Behind : (cs : List ℕ) → Behind (length cs) (read_string cs)
unfolding read_string
read_string-Behind [] = tt
read_string-Behind (c ∷ []) = ground arith
read_string-Behind (c ∷ e ∷ cs) = elim (Bool-cases (c == b'"')) [
  | inl q ↦ rw q (omega arith)
  | inr q ↦ elim (Bool-cases (c == b'\\')) [
    | inl b ↦ rw q (
        rw b (
          prepend-Behind (unescape e) (length cs) _ (read_string cs) (read_string-Behind cs)
            (omega arith)))
    | inr b ↦ rw q (
        rw b (
          prepend-Behind c (length (e ∷ cs)) _ (read_string (e ∷ cs)) (read_string-Behind (e ∷ cs))
            (omega arith)))
  ]
]

length-read_ident : (cs : List ℕ) → length (read_ident cs).1 ≤ length cs
unfolding read_ident
length-read_ident [] = omega arith
length-read_ident (c ∷ cs) = ground (arith, length-read_ident cs)

length-read_number : (has_dot : Bool) (cs : List ℕ) → length (read_number has_dot cs).1 ≤ length cs
unfolding read_number
length-read_number d [] = omega arith
length-read_number d (c ∷ cs) = ground (arith, length-read_number (d || c == b'.') cs)

-- What is left behind a value has at most `n` elements, and the fuel has not run out.
abbrev pub Within : {I A : Type 0} → ℕ → Outcome (List I) A → Type 0
Within n (done a rest) = length rest ≤ n
Within n (fail e) = Unit
Within n out_of_fuel = ⊥

next_token-Within : (c : ℕ) (cs : List ℕ) → Within (length cs) (next_token c cs)
unfolding next_token
next_token-Within c cs =
    ground (arith, read_string-Behind cs, length-read_ident cs, length-read_number false cs)

tokenize_loop-Within :
    (fuel : ℕ) (tokens : List Token) (cs : List ℕ)
    → length cs < fuel
    → Within 0 (tokenize_loop fuel tokens cs)
unfolding tokenize_loop
tokenize_loop-Within zero tokens cs h = absurd (omega arith)
tokenize_loop-Within (suc fuel) tokens [] h = omega arith
tokenize_loop-Within (suc fuel) tokens (c ∷ cs) h =
    go (next_token c cs) (next_token-Within c cs) (tokenize_loop-Within fuel)
  where
    go :
        (o : Outcome (List ℕ) (Option Token))
        → Within (length cs) o
        → ((ts : List Token) (r : List ℕ) → length r < fuel → Within 0 (tokenize_loop fuel ts r))
        → Within 0 (elim o [
          | done t rest ↦ tokenize_loop fuel (pushed tokens t) rest
          | fail e ↦ fail e
          | out_of_fuel ↦ out_of_fuel
        ])
    go (done t rest) w ih = ih (pushed tokens t) rest (omega arith)
    go (fail e) w ih = tt
    go out_of_fuel w ih = w

-- On every text the tokenizer ends: it returns the tokens of the whole text, or an error.
pub tokenize-Within : (s : List ℕ) → Within 0 (tokenize s)
unfolding tokenize
tokenize-Within s = tokenize_loop-Within (suc (length s)) [] s (omega arith)
