-- ===== src/Meta/ZoneMap/Order.antt =====
-- src/metadata/block_zone_map.rs: the comparison as an order, and what a block that is passed over
-- cannot hold.
use mathlib.Core.Path.{subst}
use rockduck.Prelude.{
  nat_ord, list_ord, ℕ, ◌≡◌, ◌≢◌, refl, Bool, true, false, Option, none, some, List, [], ◌∷◌, Bytes,
  arith, ltb, list_cmp_iff, list_cmp_reverse, list_cmp_trans, In, inl, inr, concat, Option-cases,
}
use rockduck.Std.Int.{ℤ, pos, negsuc, from_le_bytes}
use rockduck.Meta.ZoneMap.{
  DataType, int8, int16, int32, int64, uint8, uint16, uint32, uint64, float32, float64, utf8,
  large_utf8, binary, large_binary, binary_view, utf8_view, boolean, decimal32, decimal64,
  decimal128, decimal256, date32, date64, timestamp, time32, time64, interval, duration,
  fixed_size_binary, read_bytes, signed, ltb_int, compared_at, signed_lt, unsigned_lt, lexical_lt,
  boolean_lt, bytes_lt, BlockStats, GranuleZoneMapIndex, below, above, block_overlaps, any_overlaps,
  may_overlap,
}

-- A comparison by which a value that is not above `m` is below all that `m` is below, and likewise
-- upwards.
abbrev Steps : (Bytes → Bytes → Option Bool) → Type 0
Steps lt =
    (x m p : Bytes)
    → (lt m x ≡ some false → lt m p ≡ some true → lt x p ≢ some false)
      × (lt x m ≡ some false → lt p m ≡ some true → lt p x ≢ some false)

-- Bare comparisons that step.
abbrev BareSteps : (Bytes → Bytes → Bool) → Type 0
BareSteps lt =
    (x m p : Bytes)
    → (lt m x ≡ false → lt m p ≡ true → lt x p ≡ true)
      × (lt x m ≡ false → lt p m ≡ true → lt p x ≡ true)

int-steps :
    (x m p : ℤ)
    → (ltb_int m x ≡ false → ltb_int m p ≡ true → ltb_int x p ≡ true)
      × (ltb_int x m ≡ false → ltb_int p m ≡ true → ltb_int p x ≡ true)
int-steps (pos x) (pos m) (pos p) = (λ h k. ground arith, λ h k. ground arith)
int-steps (pos x) (pos m) (negsuc p) = (λ h k. ground arith, λ h k. ground arith)
int-steps (pos x) (negsuc m) (pos p) = (λ h k. ground arith, λ h k. ground arith)
int-steps (pos x) (negsuc m) (negsuc p) = (λ h k. ground arith, λ h k. ground arith)
int-steps (negsuc x) (pos m) (pos p) = (λ h k. ground arith, λ h k. ground arith)
int-steps (negsuc x) (pos m) (negsuc p) = (λ h k. ground arith, λ h k. ground arith)
int-steps (negsuc x) (negsuc m) (pos p) = (λ h k. ground arith, λ h k. ground arith)
int-steps (negsuc x) (negsuc m) (negsuc p) = (λ h k. ground arith, λ h k. ground arith)

signed-BareSteps : (n : ℕ) → BareSteps (λ l r. ltb_int (signed n l) (signed n r))
signed-BareSteps n x m p = int-steps (signed n x) (signed n m) (signed n p)

unsigned-BareSteps : BareSteps (λ l r. ltb (from_le_bytes l) (from_le_bytes r))
unsigned-BareSteps x m p = (λ h k. ground arith, λ h k. ground arith)

lexical-BareSteps : BareSteps lexical_lt
lexical-BareSteps x m p = (
  λ h k. ground (arith, list_cmp_iff m x, list_cmp_reverse m x, list_cmp_trans x m p),
  λ h k. ground (arith, list_cmp_iff x m, list_cmp_reverse x m, list_cmp_trans p m x),
)

boolean-BareSteps : BareSteps boolean_lt
boolean-BareSteps [] [] [] = (λ h k. ground arith, λ h k. ground arith)
boolean-BareSteps [] [] (p ∷ ps) = (λ h k. ground arith, λ h k. ground arith)
boolean-BareSteps [] (m ∷ ms) [] = (λ h k. ground arith, λ h k. ground arith)
boolean-BareSteps [] (m ∷ ms) (p ∷ ps) = (λ h k. ground arith, λ h k. ground arith)
boolean-BareSteps (x ∷ xs) [] [] = (λ h k. ground arith, λ h k. ground arith)
boolean-BareSteps (x ∷ xs) [] (p ∷ ps) = (λ h k. ground arith, λ h k. ground arith)
boolean-BareSteps (x ∷ xs) (m ∷ ms) [] = (λ h k. ground arith, λ h k. ground arith)
boolean-BareSteps (x ∷ xs) (m ∷ ms) (p ∷ ps) = (λ h k. ground arith, λ h k. ground arith)

bare-Steps : (lt : Bytes → Bytes → Bool) → BareSteps lt → Steps (λ l r. some (lt l r))
bare-Steps lt s x m p = (λ h k q. ground (arith, (s x m p).0), λ h k q. ground (arith, (s x m p).1))

module _ (n : ℕ) (lt : Bytes → Bytes → Bool) (s : BareSteps lt) where
  compared-eq :
      (l r : Bytes) (b : Bool)
      → compared_at n lt l r ≡ some b
      → (a : Bytes) × (c : Bytes) × (read_bytes n l ≡ some a)
        × (read_bytes n r ≡ some c)
        × (lt a c ≡ b)
  compared-eq l r b h = elim (Option-cases (read_bytes n l)) [
    | inl e ↦ absurd (ground arith)
    | inr (a, e) ↦ elim (Option-cases (read_bytes n r)) [
      | inl f ↦ absurd (ground arith)
      | inr (c, f) ↦ (a, c, e, f, ground arith)
    ]
  ]

  compared-Steps : Steps (compared_at n lt)
  compared-Steps x m p = (
    λ h k q.
        let (m', x', a, b, c) = compared-eq m x false h in
        let (m2, p', d, e, f) = compared-eq m p true k in
        let (x2, p2, i, j, l) = compared-eq x p false q in ground (arith, (s x' m' p').0),
    λ h k q.
        let (x', m', a, b, c) = compared-eq x m false h in
        let (p', m2, d, e, f) = compared-eq p m true k in
        let (p2, x2, i, j, l) = compared-eq p x false q in ground (arith, (s x' m' p').1),
  )

-- The types that are compared by an order of all byte strings: not the floating-point ones, which are
-- partial, nor the fixed-size ones, of which the common part is compared.
abbrev pub IsOrdered : DataType → Type 0
IsOrdered float32 = ⊥
IsOrdered float64 = ⊥
IsOrdered (fixed_size_binary n) = ⊥
IsOrdered _ = Unit

module _ (f32_lt f64_lt : Bytes → Bytes → Bool) where
  signed_lt-Steps : (n : ℕ) → Steps (signed_lt n)
  signed_lt-Steps n =
      compared-Steps n (λ l r. ltb_int (signed n l) (signed n r)) (signed-BareSteps n)

  unsigned_lt-Steps : (n : ℕ) → Steps (unsigned_lt n)
  unsigned_lt-Steps n =
      compared-Steps n (λ l r. ltb (from_le_bytes l) (from_le_bytes r)) unsigned-BareSteps

  lexical_lt-Steps : Steps (λ l r. some (lexical_lt l r))
  lexical_lt-Steps = bare-Steps lexical_lt lexical-BareSteps

  -- Of an ordered type, a value that is not above `m` is below what `m` is below, and upwards.
  bytes_lt-Steps :
      (dtype : DataType) → IsOrdered dtype → Steps (λ l r. bytes_lt f32_lt f64_lt l r dtype)
  unfolding bytes_lt
  bytes_lt-Steps int8 h = signed_lt-Steps 1
  bytes_lt-Steps int16 h = signed_lt-Steps 2
  bytes_lt-Steps int32 h = signed_lt-Steps 4
  bytes_lt-Steps decimal32 h = signed_lt-Steps 4
  bytes_lt-Steps date32 h = signed_lt-Steps 4
  bytes_lt-Steps int64 h = signed_lt-Steps 8
  bytes_lt-Steps decimal64 h = signed_lt-Steps 8
  bytes_lt-Steps date64 h = signed_lt-Steps 8
  bytes_lt-Steps timestamp h = signed_lt-Steps 8
  bytes_lt-Steps decimal128 h = signed_lt-Steps 16
  bytes_lt-Steps uint8 h = unsigned_lt-Steps 1
  bytes_lt-Steps uint16 h = unsigned_lt-Steps 2
  bytes_lt-Steps uint32 h = unsigned_lt-Steps 4
  bytes_lt-Steps time32 h = unsigned_lt-Steps 4
  bytes_lt-Steps uint64 h = unsigned_lt-Steps 8
  bytes_lt-Steps time64 h = unsigned_lt-Steps 8
  bytes_lt-Steps utf8 h = lexical_lt-Steps
  bytes_lt-Steps large_utf8 h = lexical_lt-Steps
  bytes_lt-Steps binary h = lexical_lt-Steps
  bytes_lt-Steps large_binary h = lexical_lt-Steps
  bytes_lt-Steps binary_view h = lexical_lt-Steps
  bytes_lt-Steps utf8_view h = lexical_lt-Steps
  bytes_lt-Steps decimal256 h = lexical_lt-Steps
  bytes_lt-Steps interval h = lexical_lt-Steps
  bytes_lt-Steps duration h = lexical_lt-Steps
  bytes_lt-Steps boolean h = bare-Steps boolean_lt boolean-BareSteps
  bytes_lt-Steps float32 h = absurd h
  bytes_lt-Steps float64 h = absurd h
  bytes_lt-Steps (fixed_size_binary n) h = absurd h
  bytes_lt-Steps _ h = λ x m p. (λ a b. absurd (ground arith), λ a b. absurd (ground arith))

  -- A value lies between the least and the greatest value of the block.
  pub record InBlock (dtype : DataType) (block : BlockStats) (x : Bytes) : Type 0 where
    pub from_min :
        (m : Bytes) → block.min_bytes ≡ some m → bytes_lt f32_lt f64_lt x m dtype ≡ some false
    pub to_max :
        (m : Bytes) → block.max_bytes ≡ some m → bytes_lt f32_lt f64_lt m x dtype ≡ some false

  -- A value lies in the range.
  pub record InRange (dtype : DataType) (pred_min pred_max x : Bytes) : Type 0 where
    pub from_pred_min : bytes_lt f32_lt f64_lt x pred_min dtype ≡ some false
    pub to_pred_max : bytes_lt f32_lt f64_lt pred_max x dtype ≡ some false

  module _ (dtype : DataType) (ordered : IsOrdered dtype) (pred_min pred_max x : Bytes) where
    pub not_below :
        (o : Option Bytes)
        → ((m : Bytes) → o ≡ some m → bytes_lt f32_lt f64_lt m x dtype ≡ some false)
        → bytes_lt f32_lt f64_lt x pred_min dtype ≡ some false
        → below f32_lt f64_lt o pred_min dtype ≢ some true
    not_below none h r q = absurd (ground arith)
    not_below (some m) h r q = (bytes_lt-Steps dtype ordered x m pred_min).0 (h m refl) q r

    pub not_above :
        (o : Option Bytes)
        → ((m : Bytes) → o ≡ some m → bytes_lt f32_lt f64_lt x m dtype ≡ some false)
        → bytes_lt f32_lt f64_lt pred_max x dtype ≡ some false
        → above f32_lt f64_lt o pred_max dtype ≢ some true
    not_above none h r q = absurd (ground arith)
    not_above (some m) h r q = (bytes_lt-Steps dtype ordered x m pred_max).1 (h m refl) q r

    block_overlaps-InRange :
        (block : BlockStats)
        → InBlock dtype block x
        → InRange dtype pred_min pred_max x
        → block_overlaps f32_lt f64_lt dtype block pred_min pred_max ≢ some false
    unfolding block_overlaps
    block_overlaps-InRange block b r q = ground (
      arith,
      not_below block.max_bytes b.to_max r.from_pred_min,
      not_above block.min_bytes b.from_min r.to_pred_max,
    )

    any_overlaps-InRange :
        (block : BlockStats) (blocks : List BlockStats)
        → In block blocks
        → InBlock dtype block x
        → InRange dtype pred_min pred_max x
        → any_overlaps f32_lt f64_lt dtype blocks pred_min pred_max ≢ some false
    any_overlaps-InRange block [] i b r q = i
    any_overlaps-InRange block (c ∷ blocks) (inl e) b r q =
        let h : block_overlaps f32_lt f64_lt dtype c pred_min pred_max ≢ some false =
          subst (λ z. block_overlaps f32_lt f64_lt dtype z pred_min pred_max ≢ some false) e
            (block_overlaps-InRange block b r) in
        ground (arith, h)
    any_overlaps-InRange block (c ∷ blocks) (inr i) b r q =
        ground (arith, any_overlaps-InRange block blocks i b r)

  -- A column of which a block holds a value of the range is not ruled out.
  pub may_overlap-InRange :
      (zm : GranuleZoneMapIndex) (block : BlockStats) (pred_min pred_max x : Bytes)
      → IsOrdered zm.column_type
      → In block (concat zm.granules)
      → InBlock zm.column_type block x
      → InRange zm.column_type pred_min pred_max x
      → may_overlap f32_lt f64_lt zm pred_min pred_max ≢ some false
  unfolding may_overlap
  may_overlap-InRange zm block pred_min pred_max x o i b r =
      any_overlaps-InRange zm.column_type o pred_min pred_max x block (concat zm.granules) i b r
