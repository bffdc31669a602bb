-- ===== src/Meta/BlockStats/Among.antt =====
-- src/metadata/block_stats.rs: the least and the greatest value are values of the part.
use mathlib.Core.Path.{subst}
use rockduck.Prelude.{
  nat_ord, nat_eq, ℕ, ◌+◌, ◌-◌, ◌≡◌, inl, inr, refl, sym, ap, Bool, true, false, Option, none, some,
  List, [], ◌∷◌, Bytes, arith, length, leb, ◌||◌, ◌==◌, Bool-cases, In, slice, if◌then◌else◌,
}
use rockduck.Std.Int.{from_le_bytes}
use rockduck.Meta.ZoneMap.{
  DataType, int8, int16, int32, int64, uint8, uint16, uint32, uint64, float32, float64, utf8,
  large_utf8, boolean, dictionary, signed, ltb_int, lexical_lt,
}
use rockduck.Meta.ZoneMap.Order.{IsOrdered}
use rockduck.Meta.BlockStats.{
  Array, BlockColumnStats, no_values, count_nulls, extremes, extremes_stats, from_first,
  int_stats_from, dictionary_stats, has_bool, boolean_stats, signed_value_lt, unsigned_value_lt,
  typed_stats, compute_block_stats,
}
use rockduck.Meta.BlockStats.Within.{IsValue, IsColumn, part-In, only_if}

-- What the statistics hold are values of the part.
pub record Among (vs : List (Option Bytes)) (s : BlockColumnStats) : Type 0 where
  pub min_in : (m : Bytes) → s.min_bytes ≡ some m → In (some m) vs
  pub max_in : (m : Bytes) → s.max_bytes ≡ some m → In (some m) vs

no_values-Among : (vs : List (Option Bytes)) (nulls : ℕ) → Among vs (no_values nulls)
no_values-Among vs nulls = record {
  min_in = λ m e. absurd (ground arith);
  max_in = λ m e. absurd (ground arith);
}

Among-cons :
    (v : Option Bytes) (vs : List (Option Bytes)) (s : BlockColumnStats)
    → Among vs s
    → Among (v ∷ vs) s
Among-cons v vs s a = record {
  min_in = λ m e. inr (a.min_in m e);
  max_in = λ m e. inr (a.max_in m e);
}

module _ (lt : Bytes → Bytes → Bool) where
  chosen-In :
      (b : Bool) (v m : Bytes) (all : List (Option Bytes))
      → In (some v) all
      → In (some m) all
      → In (some (if b then v else m)) all
  chosen-In true v m all i j = i
  chosen-In false v m all i j = j

  extremes-Among :
      (nulls : ℕ) (mn mx : Bytes) (vs all : List (Option Bytes))
      → In (some mn) all
      → In (some mx) all
      → ((y : Bytes) → In (some y) vs → In (some y) all)
      → Among all (extremes_stats nulls (extremes lt mn mx vs))
  extremes-Among nulls mn mx [] all i j h = record {
    min_in = λ m e. let d : mn ≡ m = ground arith in subst (λ y. In (some y) all) d i;
    max_in = λ m e. let d : mx ≡ m = ground arith in subst (λ y. In (some y) all) d j;
  }
  extremes-Among nulls mn mx (none ∷ vs) all i j h =
      extremes-Among nulls mn mx vs all i j (λ y k. h y (inr k))
  extremes-Among nulls mn mx (some v ∷ vs) all i j h =
      extremes-Among nulls (if lt v mn then v else mn) (if lt mx v then v else mx) vs all
        (chosen-In (lt v mn) v mn all (h v (inl refl)) i)
        (chosen-In (lt mx v) v mx all (h v (inl refl)) j) (λ y k. h y (inr k))

  from_first-Among :
      (none_nulls nulls : ℕ) (vs : List (Option Bytes))
      → Among vs (from_first lt none_nulls nulls vs)
  from_first-Among none_nulls nulls [] = no_values-Among [] none_nulls
  from_first-Among none_nulls nulls (none ∷ vs) =
      Among-cons none vs (from_first lt none_nulls nulls vs) (from_first-Among none_nulls nulls vs)
  from_first-Among none_nulls nulls (some v ∷ vs) =
      extremes-Among nulls v v vs (some v ∷ vs) (inl refl) (inl refl) (λ y k. inr k)

  int_stats-Among :
      (nulls non_null : ℕ) (vs : List (Option Bytes))
      → Among vs (int_stats_from lt nulls non_null vs)
  unfolding int_stats_from
  int_stats-Among nulls non_null vs = elim (Bool-cases (leb (length vs) 0 || non_null == 0)) [
    | inl e ↦ rw e (no_values-Among vs 0)
    | inr e ↦ rw e (from_first-Among 0 nulls vs)
  ]

dictionary-Among : (nulls : ℕ) (vs : List (Option Bytes)) → Among vs (dictionary_stats nulls vs)
dictionary-Among nulls [] = no_values-Among [] nulls
dictionary-Among nulls (none ∷ vs) = no_values-Among (none ∷ vs) nulls
dictionary-Among nulls (some v ∷ vs) =
    extremes-Among (λ l r. ltb_int (signed 4 l) (signed 4 r)) nulls v v vs (some v ∷ vs) (inl refl)
      (inl refl) (λ y k. inr k)

false-In :
    (vs : List (Option Bytes))
    → ((y : Bytes) → In (some y) vs → IsValue boolean y)
    → has_bool false vs ≡ true
    → In (some (0 ∷ [])) vs
false-In [] a h = absurd (ground arith)
false-In (none ∷ vs) a h = inr (false-In vs (λ y i. a y (inr i)) h)
false-In (some v ∷ vs) a h = elim (a v (inl refl)) [
  | inl e ↦ inl (ap some (sym e))
  | inr e ↦
      let k : (from_le_bytes v == 0) ≡ false = rw e refl in
      inr (false-In vs (λ y i. a y (inr i)) (ground arith))
]

true-In :
    (vs : List (Option Bytes))
    → ((y : Bytes) → In (some y) vs → IsValue boolean y)
    → has_bool true vs ≡ true
    → In (some (1 ∷ [])) vs
true-In [] a h = absurd (ground arith)
true-In (none ∷ vs) a h = inr (true-In vs (λ y i. a y (inr i)) h)
true-In (some v ∷ vs) a h = elim (a v (inl refl)) [
  | inl e ↦
      let k : (from_le_bytes v == 1) ≡ false = rw e refl in
      inr (true-In vs (λ y i. a y (inr i)) (ground arith))
  | inr e ↦ inl (ap some (sym e))
]

if_some : (b : Bool) (v m : Bytes) → (if b then some v else none) ≡ some m → b ≡ true
if_some true v m e = refl
if_some false v m e = absurd (ground arith)

boolean-Among :
    (nulls : ℕ) (vs : List (Option Bytes))
    → ((y : Bytes) → In (some y) vs → IsValue boolean y)
    → Among vs (boolean_stats nulls vs)
boolean-Among nulls vs a = record {
  min_in = λ m e.
      subst (λ y. In (some y) vs) (only_if (has_bool false vs) (0 ∷ []) m e)
        (false-In vs a (if_some (has_bool false vs) (0 ∷ []) m e));
  max_in = λ m e.
      subst (λ y. In (some y) vs) (only_if (has_bool true vs) (1 ∷ []) m e)
        (true-In vs a (if_some (has_bool true vs) (1 ∷ []) m e));
}

module _ (f32_lt f64_lt : Bytes → Bytes → Bool) (f32_is_nan f64_is_nan : Bytes → Bool) where
  typed_stats-Among :
      (dtype : DataType) (int32_keys : Bool) (len : ℕ) (vs : List (Option Bytes))
      → IsOrdered dtype
      → ((y : Bytes) → In (some y) vs → IsValue dtype y)
      → Among vs (typed_stats f32_lt f64_lt f32_is_nan f64_is_nan dtype int32_keys len vs)
  unfolding typed_stats
  typed_stats-Among int8 keys len vs o a =
      int_stats-Among (signed_value_lt 1) (count_nulls vs) (len - count_nulls vs) vs
  typed_stats-Among int16 keys len vs o a =
      int_stats-Among (signed_value_lt 2) (count_nulls vs) (len - count_nulls vs) vs
  typed_stats-Among int32 keys len vs o a =
      int_stats-Among (signed_value_lt 4) (count_nulls vs) (len - count_nulls vs) vs
  typed_stats-Among int64 keys len vs o a =
      int_stats-Among (signed_value_lt 8) (count_nulls vs) (len - count_nulls vs) vs
  typed_stats-Among uint8 keys len vs o a =
      int_stats-Among unsigned_value_lt (count_nulls vs) (len - count_nulls vs) vs
  typed_stats-Among uint16 keys len vs o a =
      int_stats-Among unsigned_value_lt (count_nulls vs) (len - count_nulls vs) vs
  typed_stats-Among uint32 keys len vs o a =
      int_stats-Among unsigned_value_lt (count_nulls vs) (len - count_nulls vs) vs
  typed_stats-Among uint64 keys len vs o a =
      int_stats-Among unsigned_value_lt (count_nulls vs) (len - count_nulls vs) vs
  typed_stats-Among utf8 keys len vs o a =
      from_first-Among lexical_lt (count_nulls vs) (count_nulls vs) vs
  typed_stats-Among large_utf8 keys len vs o a =
      from_first-Among lexical_lt (count_nulls vs) (count_nulls vs) vs
  typed_stats-Among dictionary true len vs o a = dictionary-Among (count_nulls vs) vs
  typed_stats-Among dictionary false len vs o a = no_values-Among vs (count_nulls vs)
  typed_stats-Among float32 keys len vs o a = absurd o
  typed_stats-Among float64 keys len vs o a = absurd o
  typed_stats-Among boolean keys len vs o a = boolean-Among (count_nulls vs) vs a
  typed_stats-Among dtype keys len vs o a = no_values-Among vs (count_nulls vs)

  -- Of a column of an ordered type, the statistics of a part hold values of the part.
  pub compute_block_stats-Among :
      (dtype : DataType) (arr : Array) (offset len : ℕ)
      → IsOrdered dtype
      → IsColumn f32_lt f64_lt f32_is_nan f64_is_nan dtype arr
      → Among
          (slice arr.values offset (offset + len))
          (compute_block_stats f32_lt f64_lt f32_is_nan f64_is_nan arr offset len)
  unfolding compute_block_stats
  compute_block_stats-Among dtype arr offset len o c =
      let vs : List (Option Bytes) = slice arr.values offset (offset + len) in
      elim (Bool-cases (leb len 0)) [
        | inl e ↦ rw e (no_values-Among vs 0)
        | inr e ↦ rw e (
            subst
              (λ t.
                Among vs (typed_stats f32_lt f64_lt f32_is_nan f64_is_nan t arr.int32_keys len vs))
              (sym c.of_type)
              (typed_stats-Among dtype arr.int32_keys len vs o
                (part-In f32_lt f64_lt f32_is_nan f64_is_nan dtype arr offset len c)))
      ]
