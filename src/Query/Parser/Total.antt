-- ===== src/Query/Parser/Total.antt =====
-- src/query/filter_expr.rs: the functions of `Parser` end.
use rockduck.Prelude.{
  ℕ, zero, suc, ◌+◌, ◌*◌, ◌≤◌, ◌≡◌, refl, true, Option, List, [], ◌∷◌, Str, length, arith,
  Bool-cases, Option-cases, inl, inr, ◌⊎◌,
}
use rockduck.Query.Expr.{
  ScalarVal, Expr, comparison, or_expr, and_expr, not_expr, Token, minus, eof, ParseError,
  unexpected_token,
}
use rockduck.Query.Tokenizer.{Outcome, done, fail, out_of_fuel, tokenize}
use rockduck.Query.Tokenizer.Total.{Within, tokenize-Within}
use rockduck.Query.Parser.{
  Parsed, current, advance, and_then, is_or, is_and, is_not, column_of, operator_of, negated,
  parse_value, parse_comparison, close, parse_or, or_loop, parse_and, and_loop, parse_not,
  parse_primary, at_end, parse_tokens, parse,
}

Outcome-cases :
    {I A : Type 0} (o : Outcome I A)
    → ((a : A) × (i : I) × (o ≡ done a i)) ⊎ ((e : ParseError) × (o ≡ fail e)) ⊎ (o ≡ out_of_fuel)
Outcome-cases (done a i) = inl (a, i, refl)
Outcome-cases (fail e) = inr (inl (e, refl))
Outcome-cases out_of_fuel = inr (inr refl)

-- What follows a part that ends, on an input that is no longer, ends too.
and_then-Within :
    {A B : Type 0} (k n : ℕ) (m : Parsed A) (f : A → List Token → Parsed B)
    → Within k m
    → ((a : A) (ts : List Token) → length ts ≤ k → Within n (f a ts))
    → Within n (and_then m f)
and_then-Within k n (done a ts) f w h = h a ts w
and_then-Within k n (fail e) f w h = tt
and_then-Within k n out_of_fuel f w h = w

Within-le : {A : Type 0} (k n : ℕ) (m : Parsed A) → Within k m → k ≤ n → Within n m
Within-le k n (done a ts) w h = omega arith
Within-le k n (fail e) w h = tt
Within-le k n out_of_fuel w h = w

length-advance : (ts : List Token) → length (advance ts) ≤ length ts
length-advance [] = omega arith
length-advance (t ∷ ts) = omega arith

-- A token that is tested for stands there.
advance-or : (ts : List Token) → is_or (current ts) ≡ true → suc (length (advance ts)) ≤ length ts
advance-or [] h = ground arith
advance-or (t ∷ ts) h = omega arith

advance-and : (ts : List Token) → is_and (current ts) ≡ true → suc (length (advance ts)) ≤ length ts
advance-and [] h = ground arith
advance-and (t ∷ ts) h = omega arith

advance-not : (ts : List Token) → is_not (current ts) ≡ true → suc (length (advance ts)) ≤ length ts
advance-not [] h = ground arith
advance-not (t ∷ ts) h = omega arith

module _ {F : Type 0} (parse_f64 : Str → Option F) (neg_f64 : F → F) where
  negated-Within :
      (n : ℕ) (v : ScalarVal F) (ts : List Token)
      → length ts ≤ n
      → Within n (negated parse_f64 neg_f64 v ts)
  negated-Within n v ts h = ground arith

  parse_value-Within : (ts : List Token) → Within (length ts) (parse_value parse_f64 neg_f64 ts)
  unfolding parse_value
  parse_value-Within [] = tt
  parse_value-Within (Token.ident s ∷ ts) = omega arith
  parse_value-Within (Token.number n ∷ ts) = ground arith
  parse_value-Within (minus ∷ ts) =
      and_then-Within (length ts) (suc (length ts)) (parse_value parse_f64 neg_f64 ts)
        (negated parse_f64 neg_f64) (parse_value-Within ts)
        (λ v r h. negated-Within (suc (length ts)) v r (omega arith))
  parse_value-Within (Token.string s ∷ ts) = omega arith
  parse_value-Within (t ∷ ts) = tt

  parse_comparison-Within :
      (ts : List Token) → Within (length ts) (parse_comparison parse_f64 neg_f64 ts)
  unfolding parse_comparison
  parse_comparison-Within ts = elim (Option-cases (column_of (current ts))) [
    | inl e ↦ rw (e, parse_comparison) tt
    | inr (col, e) ↦ elim (Option-cases (operator_of (current (advance ts)))) [
      | inl e' ↦ rw (e, parse_comparison) (rw (e', Within) tt)
      | inr (o, e') ↦
          rw (e, parse_comparison)
            (rw (e', Within)
              (and_then-Within (length (advance (advance ts))) (length ts)
                (parse_value parse_f64 neg_f64 (advance (advance ts)))
                (λ v rest. done (comparison col o v) rest)
                (parse_value-Within (advance (advance ts)))
                (λ v rest h. omega (arith, length-advance ts, length-advance (advance ts)))))
    ]
  ]

  close-Within :
      (e : Expr F) (ts : List Token) (n : ℕ)
      → length ts ≤ n
      → Within n (close parse_f64 neg_f64 e ts)
  close-Within e ts n h = ground arith

  mutual
    unfolding parse_or

    parse_or-Within :
        (n : ℕ) (ts : List Token)
        → 5 * length ts + 4 ≤ n
        → Within (length ts) (parse_or parse_f64 neg_f64 n ts)
    parse_or-Within zero ts h = absurd (omega arith)
    parse_or-Within (suc n) ts h =
        and_then-Within (length ts) (length ts) (parse_and parse_f64 neg_f64 n ts)
          (or_loop parse_f64 neg_f64 n) (parse_and-Within n ts (omega arith))
          (λ e rest k.
            Within-le (length rest) (length ts) (or_loop parse_f64 neg_f64 n e rest)
              (or_loop-Within n e rest (omega arith)) k)

    or_loop-Within :
        (n : ℕ) (e : Expr F) (ts : List Token)
        → 5 * length ts + 1 ≤ n
        → Within (length ts) (or_loop parse_f64 neg_f64 n e ts)
    or_loop-Within zero e ts h = absurd (omega arith)
    or_loop-Within (suc n) e ts h = elim (Bool-cases (is_or (current ts))) [
      | inl q ↦
          let shorter = advance-or ts q in
          rw (q, or_loop)
            (and_then-Within (length (advance ts)) (length ts)
              (parse_and parse_f64 neg_f64 n (advance ts))
              (λ r. or_loop parse_f64 neg_f64 n (or_expr e r))
              (parse_and-Within n (advance ts) (omega (arith, shorter)))
              (λ r rest k.
                Within-le (length rest) (length ts) (or_loop parse_f64 neg_f64 n (or_expr e r) rest)
                  (or_loop-Within n (or_expr e r) rest (omega (arith, shorter)))
                  (omega (arith, shorter))))
      | inr q ↦ rw (q, or_loop) (omega arith)
    ]

    parse_and-Within :
        (n : ℕ) (ts : List Token)
        → 5 * length ts + 3 ≤ n
        → Within (length ts) (parse_and parse_f64 neg_f64 n ts)
    parse_and-Within zero ts h = absurd (omega arith)
    parse_and-Within (suc n) ts h =
        and_then-Within (length ts) (length ts) (parse_not parse_f64 neg_f64 n ts)
          (and_loop parse_f64 neg_f64 n) (parse_not-Within n ts (omega arith))
          (λ e rest k.
            Within-le (length rest) (length ts) (and_loop parse_f64 neg_f64 n e rest)
              (and_loop-Within n e rest (omega arith)) k)

    and_loop-Within :
        (n : ℕ) (e : Expr F) (ts : List Token)
        → 5 * length ts + 1 ≤ n
        → Within (length ts) (and_loop parse_f64 neg_f64 n e ts)
    and_loop-Within zero e ts h = absurd (omega arith)
    and_loop-Within (suc n) e ts h = elim (Bool-cases (is_and (current ts))) [
      | inl q ↦
          let shorter = advance-and ts q in
          rw (q, and_loop)
            (and_then-Within (length (advance ts)) (length ts)
              (parse_not parse_f64 neg_f64 n (advance ts))
              (λ r. and_loop parse_f64 neg_f64 n (and_expr e r))
              (parse_not-Within n (advance ts) (omega (arith, shorter)))
              (λ r rest k.
                Within-le (length rest) (length ts)
                  (and_loop parse_f64 neg_f64 n (and_expr e r) rest)
                  (and_loop-Within n (and_expr e r) rest (omega (arith, shorter)))
                  (omega (arith, shorter))))
      | inr q ↦ rw (q, and_loop) (omega arith)
    ]

    parse_not-Within :
        (n : ℕ) (ts : List Token)
        → 5 * length ts + 2 ≤ n
        → Within (length ts) (parse_not parse_f64 neg_f64 n ts)
    parse_not-Within zero ts h = absurd (omega arith)
    parse_not-Within (suc n) ts h = elim (Bool-cases (is_not (current ts))) [
      | inl q ↦
          let shorter = advance-not ts q in
          rw (q, parse_not)
            (and_then-Within (length (advance ts)) (length ts)
              (parse_not parse_f64 neg_f64 n (advance ts)) (λ e rest. done (not_expr e) rest)
              (parse_not-Within n (advance ts) (omega (arith, shorter)))
              (λ e rest k. omega (arith, shorter)))
      | inr q ↦ rw (q, parse_not) (parse_primary-Within n ts (omega arith))
    ]

    parse_primary-Within :
        (n : ℕ) (ts : List Token)
        → 5 * length ts + 1 ≤ n
        → Within (length ts) (parse_primary parse_f64 neg_f64 n ts)
    parse_primary-Within zero ts h = absurd (omega arith)
    parse_primary-Within (suc n) [] h = tt
    parse_primary-Within (suc n) (Token.lparen ∷ ts) h =
        and_then-Within (length ts) (suc (length ts)) (parse_or parse_f64 neg_f64 n ts)
          (close parse_f64 neg_f64) (parse_or-Within n ts (omega arith))
          (λ e rest k. close-Within e rest (suc (length ts)) (omega arith))
    parse_primary-Within (suc n) (Token.ident s ∷ ts) h =
        parse_comparison-Within (Token.ident s ∷ ts)
    parse_primary-Within (suc n) (Token.number s ∷ ts) h =
        parse_comparison-Within (Token.number s ∷ ts)
    parse_primary-Within (suc n) (Token.string s ∷ ts) h =
        parse_comparison-Within (Token.string s ∷ ts)
    parse_primary-Within (suc n) (t ∷ ts) h = tt

  -- On every text the parser ends: it returns an expression with nothing behind it but the end, or
  -- it returns an error.
  pub parse-total :
      (s : List ℕ)
      → ((e : Expr F) × (ts : List Token) × (parse parse_f64 neg_f64 s ≡ done e ts)
          × (current ts ≡ eof))
        ⊎ ((e : ParseError) × (parse parse_f64 neg_f64 s ≡ fail e))
  unfolding parse parse_tokens
  parse-total s = elim (Outcome-cases (tokenize s)) [
    | inl (ts, rest, q) ↦
        rw (q, parse)
          (elim (Outcome-cases (parse_or parse_f64 neg_f64 (5 * length ts + 4) ts)) [
            | inl (e, ts', r) ↦ rw r (end_cases e ts' (current ts') refl)
            | inr (inl (e, r)) ↦ inr (e, rw r refl)
            | inr (inr r) ↦
                absurd (rw (r, Within) at (parse_or-Within (5 * length ts + 4) ts (omega arith)))
          ])
    | inr (inl (e, q)) ↦ inr (e, rw (q, parse) refl)
    | inr (inr q) ↦ absurd (rw (q, Within) at (tokenize-Within s))
  ]
    where
      end_cases :
          (e : Expr F) (ts : List Token) (t : Token)
          → current ts ≡ t
          → ((e' : Expr F) × (ts' : List Token) × (at_end parse_f64 neg_f64 e ts ≡ done e' ts')
              × (current ts' ≡ eof))
            ⊎ ((x : ParseError) × (at_end parse_f64 neg_f64 e ts ≡ fail x))
      end_cases e [] t q = inl (e, [], refl, refl)
      end_cases e (Token.eof ∷ ts) t q = inl (e, eof ∷ ts, refl, refl)
      end_cases e (t' ∷ ts) t q = inr (unexpected_token t', ground arith)
