-- ===== src/Meta/BlockStats/Present.antt =====
-- src/metadata/block_stats.rs: a part of integers or texts that has a value has a least and a greatest
-- one.

use rockduck.Prelude.{
  nat_ord, nat_eq, ℕ, zero, suc, ◌+◌, ◌-◌, ◌≤◌, ◌<◌, ◌≡◌, inl, inr, refl, ap, Bool, true, false,
  Option, none, some, List, [], ◌∷◌, Bytes, arith, length, leb, ◌||◌, ◌==◌, In, slice,
  slice-eq-take, take, drop,
}
use rockduck.Meta.ZoneMap.{
  DataType, int8, int16, int32, int64, uint8, uint16, uint32, uint64, utf8, large_utf8, lexical_lt,
}
use rockduck.Meta.BlockStats.{
  Array, BlockColumnStats, count_nulls, extremes, extremes_stats, from_first, int_stats_from,
  signed_value_lt, unsigned_value_lt, typed_stats, compute_block_stats,
}
use rockduck.Meta.BlockStats.AllNull.{is_integer}

abbrev pub is_text : DataType → Bool
is_text utf8 = true
is_text large_utf8 = true
is_text _ = false

-- There are both bounds.
abbrev pub HasBounds : Option Bytes → Option Bytes → Type 0
HasBounds lo hi = (mn : Bytes) × (mx : Bytes) × (lo ≡ some mn) × (hi ≡ some mx)

abbrev HasStats : BlockColumnStats → Type 0
HasStats s = HasBounds s.min_bytes s.max_bytes

extremes_stats-HasStats : (nulls : ℕ) (e : Bytes × Bytes) → HasStats (extremes_stats nulls e)
extremes_stats-HasStats nulls (mn, mx) = (mn, mx, refl, refl)

count_nulls-le : (vs : List (Option Bytes)) → count_nulls vs ≤ length vs
count_nulls-le [] = omega arith
count_nulls-le (none ∷ vs) = omega (arith, count_nulls-le vs)
count_nulls-le (some v ∷ vs) = omega (arith, count_nulls-le vs)

count_nulls-lt :
    (x : Bytes) (vs : List (Option Bytes)) → In (some x) vs → count_nulls vs < length vs
count_nulls-lt x [] i = absurd i
count_nulls-lt x (none ∷ vs) (inl e) = absurd (ground arith)
count_nulls-lt x (none ∷ vs) (inr i) = omega (arith, count_nulls-lt x vs i)
count_nulls-lt x (some v ∷ vs) i = omega (arith, count_nulls-le vs)

length-take_le : (n : ℕ) (vs : List (Option Bytes)) → length (take n vs) ≤ n
length-take_le zero vs = omega arith
length-take_le (suc n) [] = omega arith
length-take_le (suc n) (v ∷ vs) = omega (arith, length-take_le n vs)

module _ (lt : Bytes → Bytes → Bool) where
  from_first-HasStats :
      (x : Bytes) (none_nulls nulls : ℕ) (vs : List (Option Bytes))
      → In (some x) vs
      → HasStats (from_first lt none_nulls nulls vs)
  from_first-HasStats x none_nulls nulls [] i = absurd i
  from_first-HasStats x none_nulls nulls (none ∷ vs) (inl e) = absurd (ground arith)
  from_first-HasStats x none_nulls nulls (none ∷ vs) (inr i) =
      from_first-HasStats x none_nulls nulls vs i
  from_first-HasStats x none_nulls nulls (some v ∷ vs) i =
      extremes_stats-HasStats nulls (extremes lt v v vs)

  int_stats-HasStats :
      (x : Bytes) (len : ℕ) (vs : List (Option Bytes))
      → length vs ≤ len
      → In (some x) vs
      → HasStats (int_stats_from lt (count_nulls vs) (len - count_nulls vs) vs)
  unfolding int_stats_from
  int_stats-HasStats x len vs l i =
      let n = count_nulls-lt x vs i in
      let e : (leb (length vs) 0 || (len - count_nulls vs) == 0) ≡ false = ground arith in
      rw e (from_first-HasStats x 0 (count_nulls vs) vs i)

module _ (f32_lt f64_lt : Bytes → Bytes → Bool) (f32_is_nan f64_is_nan : Bytes → Bool) where
  typed_stats-HasStats :
      (dtype : DataType) (int32_keys : Bool) (x : Bytes) (len : ℕ) (vs : List (Option Bytes))
      → (is_integer dtype || is_text dtype) ≡ true
      → length vs ≤ len
      → In (some x) vs
      → HasStats (typed_stats f32_lt f64_lt f32_is_nan f64_is_nan dtype int32_keys len vs)
  unfolding typed_stats
  typed_stats-HasStats int8 keys x len vs p l i =
      int_stats-HasStats (signed_value_lt 1) x len vs l i
  typed_stats-HasStats int16 keys x len vs p l i =
      int_stats-HasStats (signed_value_lt 2) x len vs l i
  typed_stats-HasStats int32 keys x len vs p l i =
      int_stats-HasStats (signed_value_lt 4) x len vs l i
  typed_stats-HasStats int64 keys x len vs p l i =
      int_stats-HasStats (signed_value_lt 8) x len vs l i
  typed_stats-HasStats uint8 keys x len vs p l i = int_stats-HasStats unsigned_value_lt x len vs l i
  typed_stats-HasStats uint16 keys x len vs p l i =
      int_stats-HasStats unsigned_value_lt x len vs l i
  typed_stats-HasStats uint32 keys x len vs p l i =
      int_stats-HasStats unsigned_value_lt x len vs l i
  typed_stats-HasStats uint64 keys x len vs p l i =
      int_stats-HasStats unsigned_value_lt x len vs l i
  typed_stats-HasStats utf8 keys x len vs p l i =
      from_first-HasStats lexical_lt x (count_nulls vs) (count_nulls vs) vs i
  typed_stats-HasStats large_utf8 keys x len vs p l i =
      from_first-HasStats lexical_lt x (count_nulls vs) (count_nulls vs) vs i
  typed_stats-HasStats _ keys x len vs p l i = absurd (ground arith)

  -- A part of a column of integers or texts that has a value has both bounds.
  pub compute_block_stats-HasBounds :
      (arr : Array) (offset len : ℕ) (x : Bytes)
      → (is_integer arr.data_type || is_text arr.data_type) ≡ true
      → 0 < len
      → In (some x) (slice arr.values offset (offset + len))
      → HasBounds
          (compute_block_stats f32_lt f64_lt f32_is_nan f64_is_nan arr offset len).min_bytes
          (compute_block_stats f32_lt f64_lt f32_is_nan f64_is_nan arr offset len).max_bytes
  unfolding compute_block_stats
  compute_block_stats-HasBounds arr offset len x p l i =
      let vs : List (Option Bytes) = slice arr.values offset (offset + len) in
      let e : leb len 0 ≡ false = ground arith in
      let s : length vs ≡ length (take len (drop offset arr.values)) =
        ap length (slice-eq-take arr.values offset len) in
      rw e (
        typed_stats-HasStats arr.data_type arr.int32_keys x len vs p
          (omega (arith, s, length-take_le len (drop offset arr.values))) i)
