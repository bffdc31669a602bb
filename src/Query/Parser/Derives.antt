-- ===== src/Query/Parser/Derives.antt =====
-- src/query/filter_expr.rs: what the parser returns, by the grammar.
use mathlib.Core.List.{append_assoc}
use mathlib.Core.Path.{subst}
use rockduck.Prelude.{
  nat_eq, list_eq, ℕ, zero, suc, ◌+◌, ◌*◌, ◌≡◌, refl, sym, ap, ◌∙◌, false, Option, List, [], ◌∷◌,
  ◌++◌, Str, length, arith, Bool-cases, inl, inr,
}
use rockduck.Query.Expr.{Expr, or_expr, and_expr, not_expr, Token, lparen, rparen, eof}
use rockduck.Query.Tokenizer.{done, fail, out_of_fuel}
use rockduck.Query.Parser.{
  Parsed, current, advance, and_then, is_or, is_and, is_not, close, parse_or, or_loop, parse_and,
  and_loop, parse_not, parse_primary, at_end, parse_tokens,
}
use rockduck.Query.Parser.Grammar.{
  Primary, grouped, Negation, plain, negation, Conjunction, one_negation, conjunction, Disjunction,
  one_conjunction, disjunction,
}
use rockduck.Query.Parser.Reads.{
  Reads, and_then-Reads, or_there, and_there, not_there, joined, parse_comparison-Reads,
}

module _ {F : Type 0} (parse_f64 : Str → Option F) (neg_f64 : F → F) where
  close-Reads :
      (e : Expr F) (us rest : List Token)
      → Disjunction parse_f64 neg_f64 e us
      → Reads (Primary parse_f64 neg_f64) (lparen ∷ (us ++ rest)) (close parse_f64 neg_f64 e rest)
  close-Reads e us [] d = tt
  close-Reads e us (Token.rparen ∷ rest) d = (
    lparen ∷ (us ++ (rparen ∷ [])),
    ap (◌∷◌ lparen) (sym (append_assoc us (rparen ∷ []) rest)),
    grouped e us d,
  )
  close-Reads e us (t ∷ rest) d = tt

  plain_Reads :
      (ts : List Token) (o : Parsed (Expr F))
      → Reads (Primary parse_f64 neg_f64) ts o
      → Reads (Negation parse_f64 neg_f64) ts o
  plain_Reads ts (done e rest) (us, q, d) = (us, q, plain e us d)
  plain_Reads ts (fail e) r = tt
  plain_Reads ts out_of_fuel r = tt

  mutual
    unfolding parse_or

    parse_or-Reads :
        (n : ℕ) (ts : List Token)
        → Reads (Disjunction parse_f64 neg_f64) ts (parse_or parse_f64 neg_f64 n ts)
    parse_or-Reads zero ts = tt
    parse_or-Reads (suc n) ts =
        and_then-Reads (Conjunction parse_f64 neg_f64) (Disjunction parse_f64 neg_f64) ts ts
          (parse_and parse_f64 neg_f64 n ts) (or_loop parse_f64 neg_f64 n) (parse_and-Reads n ts)
          (λ e rest us q d. or_loop-Reads n e ts us rest q (one_conjunction e us d))

    or_loop-Reads :
        (n : ℕ) (e : Expr F) (ts0 us ts : List Token)
        → ts0 ≡ us ++ ts
        → Disjunction parse_f64 neg_f64 e us
        → Reads (Disjunction parse_f64 neg_f64) ts0 (or_loop parse_f64 neg_f64 n e ts)
    or_loop-Reads zero e ts0 us ts q d = tt
    or_loop-Reads (suc n) e ts0 us ts q d = elim (Bool-cases (is_or (current ts))) [
      | inl t ↦
          rw (t, or_loop)
            (and_then-Reads (Conjunction parse_f64 neg_f64) (Disjunction parse_f64 neg_f64)
              (advance ts) ts0 (parse_and parse_f64 neg_f64 n (advance ts))
              (λ r. or_loop parse_f64 neg_f64 n (or_expr e r)) (parse_and-Reads n (advance ts))
              (λ r rest vs p c.
                or_loop-Reads n (or_expr e r) ts0 (us ++ (current ts ∷ vs)) rest
                  (joined ts0 us ts rest vs (current ts) q (or_there ts t) p)
                  (disjunction (current ts) e r us vs d t c)))
      | inr t ↦ rw (t, or_loop) (us, q, d)
    ]

    parse_and-Reads :
        (n : ℕ) (ts : List Token)
        → Reads (Conjunction parse_f64 neg_f64) ts (parse_and parse_f64 neg_f64 n ts)
    parse_and-Reads zero ts = tt
    parse_and-Reads (suc n) ts =
        and_then-Reads (Negation parse_f64 neg_f64) (Conjunction parse_f64 neg_f64) ts ts
          (parse_not parse_f64 neg_f64 n ts) (and_loop parse_f64 neg_f64 n) (parse_not-Reads n ts)
          (λ e rest us q d. and_loop-Reads n e ts us rest q (one_negation e us d))

    and_loop-Reads :
        (n : ℕ) (e : Expr F) (ts0 us ts : List Token)
        → ts0 ≡ us ++ ts
        → Conjunction parse_f64 neg_f64 e us
        → Reads (Conjunction parse_f64 neg_f64) ts0 (and_loop parse_f64 neg_f64 n e ts)
    and_loop-Reads zero e ts0 us ts q d = tt
    and_loop-Reads (suc n) e ts0 us ts q d = elim (Bool-cases (is_and (current ts))) [
      | inl t ↦
          rw (t, and_loop)
            (and_then-Reads (Negation parse_f64 neg_f64) (Conjunction parse_f64 neg_f64)
              (advance ts) ts0 (parse_not parse_f64 neg_f64 n (advance ts))
              (λ r. and_loop parse_f64 neg_f64 n (and_expr e r)) (parse_not-Reads n (advance ts))
              (λ r rest vs p c.
                and_loop-Reads n (and_expr e r) ts0 (us ++ (current ts ∷ vs)) rest
                  (joined ts0 us ts rest vs (current ts) q (and_there ts t) p)
                  (conjunction (current ts) e r us vs d t c)))
      | inr t ↦ rw (t, and_loop) (us, q, d)
    ]

    parse_not-Reads :
        (n : ℕ) (ts : List Token)
        → Reads (Negation parse_f64 neg_f64) ts (parse_not parse_f64 neg_f64 n ts)
    parse_not-Reads zero ts = tt
    parse_not-Reads (suc n) ts = elim (Bool-cases (is_not (current ts))) [
      | inl t ↦
          rw (t, parse_not)
            (and_then-Reads (Negation parse_f64 neg_f64) (Negation parse_f64 neg_f64) (advance ts)
              ts (parse_not parse_f64 neg_f64 n (advance ts)) (λ e rest. done (not_expr e) rest)
              (parse_not-Reads n (advance ts))
              (λ e rest us p d. (
                current ts ∷ us,
                not_there ts t ∙ ap (◌∷◌ (current ts)) p,
                negation (current ts) e us t d,
              )))
      | inr t ↦
          rw (t, parse_not)
            (plain_Reads ts (parse_primary parse_f64 neg_f64 n ts) (parse_primary-Reads n ts t))
    ]

    parse_primary-Reads :
        (n : ℕ) (ts : List Token)
        → is_not (current ts) ≡ false
        → Reads (Primary parse_f64 neg_f64) ts (parse_primary parse_f64 neg_f64 n ts)
    parse_primary-Reads zero ts h = tt
    parse_primary-Reads (suc n) [] h = tt
    parse_primary-Reads (suc n) (Token.lparen ∷ ts) h =
        and_then-Reads (Disjunction parse_f64 neg_f64) (Primary parse_f64 neg_f64) ts (lparen ∷ ts)
          (parse_or parse_f64 neg_f64 n ts) (close parse_f64 neg_f64) (parse_or-Reads n ts)
          (λ e rest us q d.
            subst
              (λ l. Reads (Primary parse_f64 neg_f64) (lparen ∷ l) (close parse_f64 neg_f64 e rest))
              (sym q) (close-Reads e us rest d))
    parse_primary-Reads (suc n) (Token.ident s ∷ ts) h =
        parse_comparison-Reads parse_f64 neg_f64 (Token.ident s ∷ ts) h
    parse_primary-Reads (suc n) (Token.number s ∷ ts) h =
        parse_comparison-Reads parse_f64 neg_f64 (Token.number s ∷ ts) h
    parse_primary-Reads (suc n) (Token.string s ∷ ts) h =
        parse_comparison-Reads parse_f64 neg_f64 (Token.string s ∷ ts) h
    parse_primary-Reads (suc n) (t ∷ ts) h = tt

  -- An expression that the parser returns is derived by the grammar from all tokens before the end.
  pub parse_tokens-derives :
      (ts : List Token) (e : Expr F) (rest : List Token)
      → parse_tokens parse_f64 neg_f64 ts ≡ done e rest
      → (us : List Token) × (ts ≡ us ++ rest)
        × (current rest ≡ eof)
        × Disjunction parse_f64 neg_f64 e us
  unfolding parse_tokens
  parse_tokens-derives ts e rest h =
      go (parse_or parse_f64 neg_f64 (5 * length ts + 4) ts) (parse_or-Reads (5 * length ts + 4) ts)
        h
    where
      ended :
          (a : Expr F) (us rest' : List Token)
          → ts ≡ us ++ rest'
          → Disjunction parse_f64 neg_f64 a us
          → current rest' ≡ eof
          → (a ≡ e) × (rest' ≡ rest)
          → (vs : List Token) × (ts ≡ vs ++ rest)
            × (current rest ≡ eof)
            × Disjunction parse_f64 neg_f64 e vs
      ended a us rest' q d c (p, r) = (
        us,
        q ∙ ap (λ l. us ++ l) r,
        ap current (sym r) ∙ c,
        subst (λ x. Disjunction parse_f64 neg_f64 x us) p d,
      )

      go :
          (o : Parsed (Expr F))
          → Reads (Disjunction parse_f64 neg_f64) ts o
          → and_then o (at_end parse_f64 neg_f64) ≡ done e rest
          → (us : List Token) × (ts ≡ us ++ rest)
            × (current rest ≡ eof)
            × Disjunction parse_f64 neg_f64 e us
      go (done a []) (us, q, d) k = ended a us [] q d refl (ground arith)
      go (done a (Token.eof ∷ r)) (us, q, d) k = ended a us (eof ∷ r) q d refl (ground arith)
      go (done a (t ∷ r)) (us, q, d) k = absurd (ground arith)
      go (fail x) r k = absurd (ground arith)
      go out_of_fuel r k = absurd (ground arith)
