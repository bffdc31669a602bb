-- ===== src/Query/Parser/Accepts.antt =====
-- src/query/filter_expr.rs: the parser on what the grammar derives.
use mathlib.Core.List.{append_assoc}
use rockduck.Prelude.{
  nat_eq, list_eq, ℕ, zero, suc, ◌+◌, ◌*◌, ◌≤◌, ◌≡◌, refl, ap, ◌∙◌, true, false, Option, some, List,
  [], ◌∷◌, ◌++◌, Str, length, length-append, arith,
}
use rockduck.Query.Expr.{
  CompareOp, ScalarVal, int64, float64, Expr, comparison, or_expr, and_expr, Token, or_token,
  rparen, eof,
}
use rockduck.Query.Tokenizer.{done, to_lowercase}
use rockduck.Query.Parser.{
  current, is_or, is_and, is_not, column_of, operator_of, parse_value, parse_comparison, parse_or,
  or_loop, parse_and, and_loop, parse_not, parse_primary, parse_tokens,
}
use rockduck.Query.Parser.Grammar.{
  Value, word, whole, decimal, text, minus_int, minus_float, Primary, compared, grouped, Negation,
  plain, negation, Conjunction, one_negation, conjunction, Disjunction, one_conjunction,
  disjunction,
}

is_or→is_and : (t : Token) → is_or t ≡ true → is_and t ≡ false
is_or→is_and or_token h = refl
is_or→is_and (Token.ident s) h =
    let q : to_lowercase s ≡ b'o' ∷ b'r' ∷ [] =
      ((list_eq {A = ℕ}).equals_iff (to_lowercase s) (b'o' ∷ b'r' ∷ [])).0 h in
    rw q refl
is_or→is_and t h = ground arith

module _ {F : Type 0} (parse_f64 : Str → Option F) (neg_f64 : F → F) where
  parse_value-Value :
      (v : ScalarVal F) (ts rest : List Token)
      → Value parse_f64 neg_f64 v ts
      → parse_value parse_f64 neg_f64 (ts ++ rest) ≡ done v rest
  unfolding parse_value
  parse_value-Value v ts rest (word s) = refl
  parse_value-Value v ts rest (whole n i d q) = ground arith
  parse_value-Value v ts rest (decimal n f d q) = ground arith
  parse_value-Value v ts rest (text s) = refl
  parse_value-Value v ts rest (minus_int i us d) = rw (parse_value-Value (int64 i) us rest d) refl
  parse_value-Value v ts rest (minus_float f us d) =
      rw (parse_value-Value (float64 f) us rest d) refl

  parse_comparison-compared :
      (c o : Token) (col : Str) (cmp : CompareOp) (v : ScalarVal F) (ts rest : List Token)
      → column_of c ≡ some col
      → operator_of o ≡ some cmp
      → Value parse_f64 neg_f64 v ts
      → parse_comparison parse_f64 neg_f64 (c ∷ o ∷ (ts ++ rest)) ≡ done (comparison col cmp v) rest
  unfolding parse_comparison
  parse_comparison-compared c o col cmp v ts rest p q d =
      rw (p, parse_comparison) (rw q (rw (parse_value-Value v ts rest d) refl))

  -- A column is read by `parse_comparison`.
  parse_primary-column :
      (n : ℕ) (c : Token) (col : Str) (ts : List Token)
      → column_of c ≡ some col
      → parse_primary parse_f64 neg_f64 (suc n) (c ∷ ts)
        ≡ parse_comparison parse_f64 neg_f64 (c ∷ ts)
  unfolding parse_primary
  parse_primary-column n (Token.ident s) col ts h = refl
  parse_primary-column n (Token.number s) col ts h = refl
  parse_primary-column n c col ts h = absurd (ground arith)

  starts_plain :
      (e : Expr F) (ts rest : List Token)
      → Primary parse_f64 neg_f64 e ts
      → is_not (current (ts ++ rest)) ≡ false
  starts_plain e ts rest (compared c o col cmp v us h p q d) = h
  starts_plain e ts rest (grouped a us d) = refl

  and_loop-stops :
      (e : Expr F) (rest : List Token)
      → is_and (current rest) ≡ false
      → (m : ℕ) → 5 * length rest + 1 ≤ m
      → and_loop parse_f64 neg_f64 m e rest ≡ done e rest
  unfolding and_loop
  and_loop-stops e rest s zero h = absurd (omega arith)
  and_loop-stops e rest s (suc m) h = rw (s, and_loop) refl

  or_loop-stops :
      (e : Expr F) (rest : List Token)
      → is_or (current rest) ≡ false
      → (m : ℕ) → 5 * length rest + 1 ≤ m
      → or_loop parse_f64 neg_f64 m e rest ≡ done e rest
  unfolding or_loop
  or_loop-stops e rest s zero h = absurd (omega arith)
  or_loop-stops e rest s (suc m) h = rw (s, or_loop) refl

  and_loop-step :
      (t : Token) (a b x : Expr F) (us rest out : List Token)
      → is_and t ≡ true
      → ((n : ℕ)
          → 5 * length (us ++ rest) + 2 ≤ n
          → parse_not parse_f64 neg_f64 n (us ++ rest) ≡ done b rest)
      → ((m : ℕ)
          → 5 * length rest + 1 ≤ m
          → and_loop parse_f64 neg_f64 m (and_expr a b) rest ≡ done x out)
      → (m : ℕ) → 5 * length (t ∷ (us ++ rest)) + 1 ≤ m
      → and_loop parse_f64 neg_f64 m a (t ∷ (us ++ rest)) ≡ done x out
  unfolding and_loop
  and_loop-step t a b x us rest out q d k zero h = absurd (omega arith)
  and_loop-step t a b x us rest out q d k (suc m) h =
      rw (q, and_loop) (rw (d m (omega arith)) (k m (omega (arith, length-append us rest))))

  or_loop-step :
      (t : Token) (a b x : Expr F) (us rest out : List Token)
      → is_or t ≡ true
      → ((n : ℕ)
          → 5 * length (us ++ rest) + 3 ≤ n
          → parse_and parse_f64 neg_f64 n (us ++ rest) ≡ done b rest)
      → ((m : ℕ)
          → 5 * length rest + 1 ≤ m
          → or_loop parse_f64 neg_f64 m (or_expr a b) rest ≡ done x out)
      → (m : ℕ) → 5 * length (t ∷ (us ++ rest)) + 1 ≤ m
      → or_loop parse_f64 neg_f64 m a (t ∷ (us ++ rest)) ≡ done x out
  unfolding or_loop
  or_loop-step t a b x us rest out q d k zero h = absurd (omega arith)
  or_loop-step t a b x us rest out q d k (suc m) h =
      rw (q, or_loop) (rw (d m (omega arith)) (k m (omega (arith, length-append us rest))))

  mutual
    unfolding parse_or

    parse_primary-Primary :
        (e : Expr F) (ts rest : List Token) (n : ℕ)
        → Primary parse_f64 neg_f64 e ts
        → 5 * length (ts ++ rest) + 1 ≤ n
        → parse_primary parse_f64 neg_f64 n (ts ++ rest) ≡ done e rest
    parse_primary-Primary e ts rest zero d h = absurd (omega arith)
    parse_primary-Primary e ts rest (suc n) (compared c o col cmp v us i p q d) h =
        parse_primary-column n c col (o ∷ (us ++ rest)) p
        ∙ parse_comparison-compared c o col cmp v us rest p q d
    parse_primary-Primary e ts rest (suc n) (grouped a us d) h =
        let q : (us ++ (rparen ∷ [])) ++ rest ≡ us ++ (rparen ∷ rest) =
          append_assoc us (rparen ∷ []) rest in
        let b : 5 * length (us ++ (rparen ∷ rest)) + 4 ≤ n = omega (arith, ap length q) in
        let r : parse_or parse_f64 neg_f64 n (us ++ (rparen ∷ rest)) ≡ done a (rparen ∷ rest) =
          parse_or-Disjunction a a us (rparen ∷ rest) (rparen ∷ rest) n d refl
            (or_loop-stops a (rparen ∷ rest) refl) b in
        rw q (rw r refl)

    parse_not-Negation :
        (e : Expr F) (ts rest : List Token) (n : ℕ)
        → Negation parse_f64 neg_f64 e ts
        → 5 * length (ts ++ rest) + 2 ≤ n
        → parse_not parse_f64 neg_f64 n (ts ++ rest) ≡ done e rest
    parse_not-Negation e ts rest zero d h = absurd (omega arith)
    parse_not-Negation e ts rest (suc n) (plain a us d) h =
        rw (starts_plain a us rest d, parse_not) (parse_primary-Primary a us rest n d (omega arith))
    parse_not-Negation e ts rest (suc n) (negation t a us q d) h =
        rw (q, parse_not) (rw (parse_not-Negation a us rest n d (omega arith)) refl)

    parse_and-Conjunction :
        (e x : Expr F) (ts rest out : List Token) (n : ℕ)
        → Conjunction parse_f64 neg_f64 e ts
        → ((m : ℕ) → 5 * length rest + 1 ≤ m → and_loop parse_f64 neg_f64 m e rest ≡ done x out)
        → 5 * length (ts ++ rest) + 3 ≤ n
        → parse_and parse_f64 neg_f64 n (ts ++ rest) ≡ done x out
    parse_and-Conjunction e x ts rest out zero d k h = absurd (omega arith)
    parse_and-Conjunction e x ts rest out (suc n) (one_negation a us d) k h =
        rw (parse_not-Negation a us rest n d (omega arith))
          (k n (omega (arith, length-append us rest)))
    parse_and-Conjunction e x ts rest out (suc n) (conjunction t a b us vs da q db) k h =
        let p : (us ++ (t ∷ vs)) ++ rest ≡ us ++ (t ∷ (vs ++ rest)) =
          append_assoc us (t ∷ vs) rest in
        rw p (
          parse_and-Conjunction a x us (t ∷ (vs ++ rest)) out (suc n) da
            (and_loop-step t a b x vs rest out q (λ m. parse_not-Negation b vs rest m db) k)
            (omega (arith, ap length p)))

    parse_or-Disjunction :
        (e x : Expr F) (ts rest out : List Token) (n : ℕ)
        → Disjunction parse_f64 neg_f64 e ts
        → is_and (current rest) ≡ false
        → ((m : ℕ) → 5 * length rest + 1 ≤ m → or_loop parse_f64 neg_f64 m e rest ≡ done x out)
        → 5 * length (ts ++ rest) + 4 ≤ n
        → parse_or parse_f64 neg_f64 n (ts ++ rest) ≡ done x out
    parse_or-Disjunction e x ts rest out zero d s k h = absurd (omega arith)
    parse_or-Disjunction e x ts rest out (suc n) (one_conjunction a us d) s k h =
        rw (parse_and-Conjunction a a us rest rest n d (and_loop-stops a rest s) (omega arith))
          (k n (omega (arith, length-append us rest)))
    parse_or-Disjunction e x ts rest out (suc n) (disjunction t a b us vs da q db) s k h =
        let p : (us ++ (t ∷ vs)) ++ rest ≡ us ++ (t ∷ (vs ++ rest)) =
          append_assoc us (t ∷ vs) rest in
        rw p (
          parse_or-Disjunction a x us (t ∷ (vs ++ rest)) out (suc n) da (is_or→is_and t q)
            (or_loop-step t a b x vs rest out q
              (λ m. parse_and-Conjunction b b vs rest rest m db (and_loop-stops b rest s)) k)
            (omega (arith, ap length p)))

  -- The parser accepts what the grammar derives, and reads it as derived.
  pub parse_tokens-Disjunction :
      (e : Expr F) (ts : List Token)
      → Disjunction parse_f64 neg_f64 e ts
      → parse_tokens parse_f64 neg_f64 (ts ++ (eof ∷ [])) ≡ done e (eof ∷ [])
  unfolding parse_tokens
  parse_tokens-Disjunction e ts d =
      rw
        (parse_or-Disjunction e e ts (eof ∷ []) (eof ∷ []) (5 * length (ts ++ (eof ∷ [])) + 4) d
          refl (or_loop-stops e (eof ∷ []) refl) (omega arith))
        refl
