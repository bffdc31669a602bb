-- ===== src/Cdc/Log/Bound.antt =====
-- src/cdc/log.rs: the buffer after a sequence of pushes.
use rockduck.Prelude.{
  ℕ, zero, suc, ◌+◌, ◌-◌, ◌≤◌, ◌≡◌, refl, sym, ap, ◌∙◌, true, false, List, [], ◌∷◌, ◌++◌, arith,
  length, take, leb, length-append, leb→le, Bool-cases, inl, inr,
}
use rockduck.Cdc.Log.{CdcLogEntry, CdcLogBuffer, push}

unfoldable pub push_all : CdcLogBuffer → List CdcLogEntry → CdcLogBuffer
push_all b [] = b
push_all b (e ∷ es) = push_all (push b e).1 es

take-all : (n : ℕ) (xs : List CdcLogEntry) → length xs ≤ n → take n xs ≡ xs
take-all zero [] h = refl
take-all zero (x ∷ xs) h = absurd (omega arith)
take-all (suc n) [] h = refl
take-all (suc n) (x ∷ xs) h = ap (◌∷◌ x) (take-all n xs (omega arith))

take-append-le : (n : ℕ) (xs ys : List CdcLogEntry) → n ≤ length xs → take n (xs ++ ys) ≡ take n xs
take-append-le zero xs ys h = refl
take-append-le (suc n) [] ys h = absurd (omega arith)
take-append-le (suc n) (x ∷ xs) ys h = ap (◌∷◌ x) (take-append-le n xs ys (omega arith))

append_assoc : (a b c : List CdcLogEntry) → (a ++ b) ++ c ≡ a ++ (b ++ c)
append_assoc [] b c = refl
append_assoc (x ∷ a) b c = ap (◌∷◌ x) (append_assoc a b c)

append_nil : (l : List CdcLogEntry) → l ++ [] ≡ l
append_nil [] = refl
append_nil (x ∷ l) = ap (◌∷◌ x) (append_nil l)

push-full :
    (b : CdcLogBuffer) (e : CdcLogEntry)
    → leb b.max_size (length b.entries) ≡ true
    → (push b e).1 ≡ record b { dropped_count = b.dropped_count + 1 }
unfolding push
push-full b e h = rw h refl

push-room :
    (b : CdcLogBuffer) (e : CdcLogEntry)
    → leb b.max_size (length b.entries) ≡ false
    → (push b e).1 ≡ record b { entries = b.entries ++ (e ∷ []) }
unfolding push
push-room b e h = rw h refl

-- A buffer within its bound keeps the first entries up to the bound, in order, and counts the others
-- as dropped.
pub push_all-eq-take :
    (es : List CdcLogEntry) (b : CdcLogBuffer)
    → length b.entries ≤ b.max_size
    → ((push_all b es).entries ≡ take b.max_size (b.entries ++ es))
      × ((push_all b es).dropped_count
          ≡ b.dropped_count + (length b.entries + length es - b.max_size))
unfolding push_all
push_all-eq-take [] b h = (
  sym (ap (take b.max_size) (append_nil b.entries) ∙ take-all b.max_size b.entries h),
  omega arith,
)
push_all-eq-take (e ∷ es) b h = elim (Bool-cases (leb b.max_size (length b.entries))) [
  | inl f ↦
      let (p, q) = push_all-eq-take es (record b { dropped_count = b.dropped_count + 1 }) h in
      let r = push-full b e f in
      let l = leb→le b.max_size (length b.entries) f in
      (
        ap (λ x. (push_all x es).entries) r
            ∙ p
            ∙ take-append-le b.max_size b.entries es l
            ∙ sym (take-append-le b.max_size b.entries (e ∷ es) l),
        ap (λ x. (push_all x es).dropped_count) r ∙ q ∙ omega arith,
      )
  | inr f ↦
      let l : length (b.entries ++ (e ∷ [])) ≤ b.max_size =
        ground (arith, length-append b.entries (e ∷ [])) in
      let (p, q) = push_all-eq-take es (record b { entries = b.entries ++ (e ∷ []) }) l in
      let r = push-room b e f in
      (
        ap (λ x. (push_all x es).entries) r
            ∙ p
            ∙ ap (take b.max_size) (append_assoc b.entries (e ∷ []) es),
        ap (λ x. (push_all x es).dropped_count) r
            ∙ q
            ∙ omega (arith, length-append b.entries (e ∷ [])),
      )
]
