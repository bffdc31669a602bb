-- ===== src/Meta/BlockStats/AllNull.antt =====
-- src/metadata/block_stats.rs: the count of nulls of a part that has nothing else.
use rockduck.Prelude.{
  nat_ord, nat_eq, ℕ, ◌+◌, ◌-◌, ◌≡◌, inl, inr, refl, Bool, true, false, Option, none, some, List,
  [], ◌∷◌, Bytes, arith, length, leb, ◌||◌, ◌==◌, Bool-cases, slice, slice-eq-take, take, drop, ap,
  ◌∙◌,
}
use rockduck.Meta.ZoneMap.{
  lexical_lt, DataType, int8, int16, int32, int64, uint8, uint16, uint32, uint64, utf8,
}
use rockduck.Meta.BlockStats.{
  Array, BlockColumnStats, no_values, count_nulls, from_first, int_stats_from, signed_value_lt,
  unsigned_value_lt, typed_stats, compute_block_stats,
}

abbrev pub is_integer : DataType → Bool
is_integer int8 = true
is_integer int16 = true
is_integer int32 = true
is_integer int64 = true
is_integer uint8 = true
is_integer uint16 = true
is_integer uint32 = true
is_integer uint64 = true
is_integer _ = false

abbrev pub all_null : List (Option Bytes) → Bool
all_null [] = true
all_null (none ∷ vs) = all_null vs
all_null (some v ∷ vs) = false

no_rows :
    (vs : List (Option Bytes)) (offset len : ℕ)
    → len ≡ 0
    → length (slice vs offset (offset + len)) ≡ 0
no_rows vs offset len e =
    ap length (slice-eq-take vs offset len ∙ ap (λ n. take n (drop offset vs)) e)

module _ (lt : Bytes → Bytes → Bool) where
  from_first-null :
      (none_nulls nulls : ℕ) (vs : List (Option Bytes))
      → all_null vs ≡ true
      → from_first lt none_nulls nulls vs ≡ no_values none_nulls
  from_first-null none_nulls nulls [] h = refl
  from_first-null none_nulls nulls (none ∷ vs) h = from_first-null none_nulls nulls vs h
  from_first-null none_nulls nulls (some v ∷ vs) h = absurd (ground arith)

  int_stats-null :
      (nulls non_null : ℕ) (vs : List (Option Bytes))
      → all_null vs ≡ true
      → int_stats_from lt nulls non_null vs ≡ no_values 0
  unfolding int_stats_from
  int_stats-null nulls non_null vs h = elim (Bool-cases (leb (length vs) 0 || non_null == 0)) [
    | inl e ↦ rw e refl
    | inr e ↦ rw e (from_first-null 0 nulls vs h)
  ]

count_nulls-null : (vs : List (Option Bytes)) → all_null vs ≡ true → count_nulls vs ≡ length vs
count_nulls-null [] h = refl
count_nulls-null (none ∷ vs) h = omega (arith, count_nulls-null vs h)
count_nulls-null (some v ∷ vs) h = absurd (ground arith)

module _ (f32_lt f64_lt : Bytes → Bytes → Bool) (f32_is_nan f64_is_nan : Bytes → Bool) where
  -- Of an integer type.
  typed_stats-null :
      (dtype : DataType) (int32_keys : Bool) (len : ℕ) (vs : List (Option Bytes))
      → is_integer dtype ≡ true
      → all_null vs ≡ true
      → typed_stats f32_lt f64_lt f32_is_nan f64_is_nan dtype int32_keys len vs ≡ no_values 0
  unfolding typed_stats
  typed_stats-null int8 keys len vs i h =
      int_stats-null (signed_value_lt 1) (count_nulls vs) (len - count_nulls vs) vs h
  typed_stats-null int16 keys len vs i h =
      int_stats-null (signed_value_lt 2) (count_nulls vs) (len - count_nulls vs) vs h
  typed_stats-null int32 keys len vs i h =
      int_stats-null (signed_value_lt 4) (count_nulls vs) (len - count_nulls vs) vs h
  typed_stats-null int64 keys len vs i h =
      int_stats-null (signed_value_lt 8) (count_nulls vs) (len - count_nulls vs) vs h
  typed_stats-null uint8 keys len vs i h =
      int_stats-null unsigned_value_lt (count_nulls vs) (len - count_nulls vs) vs h
  typed_stats-null uint16 keys len vs i h =
      int_stats-null unsigned_value_lt (count_nulls vs) (len - count_nulls vs) vs h
  typed_stats-null uint32 keys len vs i h =
      int_stats-null unsigned_value_lt (count_nulls vs) (len - count_nulls vs) vs h
  typed_stats-null uint64 keys len vs i h =
      int_stats-null unsigned_value_lt (count_nulls vs) (len - count_nulls vs) vs h
  typed_stats-null _ keys len vs i h = absurd (ground arith)

  -- The count of nulls of a part of which all rows are null is 0 in a column of integers, and the number
  -- of its rows in a column of texts.
  pub compute_block_stats-all_null :
      (arr : Array) (offset len : ℕ)
      → all_null (slice arr.values offset (offset + len)) ≡ true
      → (is_integer arr.data_type ≡ true
          → (compute_block_stats f32_lt f64_lt f32_is_nan f64_is_nan arr offset len).null_count ≡ 0)
        × (arr.data_type ≡ utf8
            → (compute_block_stats f32_lt f64_lt f32_is_nan f64_is_nan arr offset len).null_count
              ≡ length (slice arr.values offset (offset + len)))
  unfolding compute_block_stats typed_stats
  compute_block_stats-all_null arr offset len h =
      let vs : List (Option Bytes) = slice arr.values offset (offset + len) in
      elim (Bool-cases (leb len 0)) [
        | inl e ↦
            let k : len ≡ 0 = ground arith in
            let n = no_rows arr.values offset len k in rw e (λ i. refl, λ t. omega (arith, n))
        | inr e ↦ rw e (
          λ i.
              ap BlockColumnStats.null_count
                (typed_stats-null arr.data_type arr.int32_keys len vs i h),
          λ t.
              ap
                (λ d.
                  (typed_stats f32_lt f64_lt f32_is_nan f64_is_nan d arr.int32_keys len
                    vs).null_count)
                t
              ∙ ap BlockColumnStats.null_count
                  (from_first-null lexical_lt (count_nulls vs) (count_nulls vs) vs h)
              ∙ count_nulls-null vs h,
        )
      ]
