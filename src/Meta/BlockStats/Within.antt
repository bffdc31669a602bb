-- ===== src/Meta/BlockStats/Within.antt =====
-- src/metadata/block_stats.rs: the values of a part lie within its statistics, by the comparison that
-- the zone map makes.
use mathlib.Core.Path.{subst}
use rockduck.Prelude.{
  nat_ord, nat_eq, list_ord, ℕ, zero, suc, drop, get_elem?, slice-eq-take, ◌+◌, ◌-◌, ◌≤◌, ◌<◌, ◌≡◌,
  ◌⊎◌, inl, inr, refl, sym, ap, ◌∙◌, Bool, true, false, Option, none, some, List, [], ◌∷◌, Bytes,
  arith, length, take, leb, In, slice, if◌then◌else◌,
}
use rockduck.Meta.ZoneMap.{
  DataType, int8, int16, int32, int64, uint8, uint16, uint32, uint64, float32, float64, utf8,
  large_utf8, boolean, dictionary, read_bytes, compared_at, lexical_lt, boolean_lt, bytes_lt,
}
use rockduck.Meta.ZoneMap.Order.{IsOrdered}
use rockduck.Meta.BlockStats.{
  Array, BlockColumnStats, no_values, count_nulls, from_first, int_stats_from, has_bool,
  boolean_stats, signed_value_lt, unsigned_value_lt, typed_stats, compute_block_stats,
}
use rockduck.Meta.BlockStats.Least.{
  IsStrict, signed-IsStrict, unsigned-IsStrict, lexical-IsStrict, from_first-Bounded,
  int_stats-Bounded,
}

-- The bytes of a value: as many as the type has, and 0 or 1 of a Boolean.
abbrev pub IsValue : DataType → Bytes → Type 0
IsValue int8 x = length x ≡ 1
IsValue int16 x = length x ≡ 2
IsValue int32 x = length x ≡ 4
IsValue int64 x = length x ≡ 8
IsValue uint8 x = length x ≡ 1
IsValue uint16 x = length x ≡ 2
IsValue uint32 x = length x ≡ 4
IsValue uint64 x = length x ≡ 8
IsValue boolean x = (x ≡ 0 ∷ []) ⊎ (x ≡ 1 ∷ [])
IsValue _ x = Unit

take-all : (xs : Bytes) → take (length xs) xs ≡ xs
take-all [] = refl
take-all (x ∷ xs) = ap (◌∷◌ x) (take-all xs)

read_bytes-all : (n : ℕ) (x : Bytes) → length x ≡ n → read_bytes n x ≡ some x
unfolding read_bytes
read_bytes-all n x h =
    let e : leb n (length x) ≡ true = ground arith in
    rw e (ap some (ap (λ k. take k x) (sym h) ∙ take-all x))

compared_at-all :
    (n : ℕ) (lt : Bytes → Bytes → Bool) (l r : Bytes) (b : Bool)
    → length l ≡ n
    → length r ≡ n
    → lt l r ≡ b
    → compared_at n lt l r ≡ some b
compared_at-all n lt l r b h k e =
    rw (compared_at, read_bytes-all n l h, read_bytes-all n r k) (ap some e)

-- The rows of a part.
head-In :
    (n i : ℕ) (a : Option Bytes) (xs : List (Option Bytes))
    → get_elem? xs i ≡ some a
    → i < n
    → In a (take n xs)
head-In n i a [] h l = absurd (ground arith)
head-In zero i a (x ∷ xs) h l = absurd (ground arith)
head-In (suc n) zero a (x ∷ xs) h l = inl (ground arith)
head-In (suc n) (suc i) a (x ∷ xs) h l = inr (head-In n i a xs h (omega arith))

window-In :
    (xs : List (Option Bytes)) (offset n i : ℕ) (a : Option Bytes)
    → get_elem? xs i ≡ some a
    → offset ≤ i
    → i < offset + n
    → In a (take n (drop offset xs))
window-In xs zero n i a h l r = head-In n i a xs h (omega arith)
window-In [] (suc offset) n i a h l r = absurd (ground arith)
window-In (x ∷ xs) (suc offset) n zero a h l r = absurd (ground arith)
window-In (x ∷ xs) (suc offset) n (suc i) a h l r =
    window-In xs offset n i a h (omega arith) (omega arith)

take-Out : (n : ℕ) (a : Option Bytes) (xs : List (Option Bytes)) → In a (take n xs) → In a xs
take-Out zero a xs i = absurd i
take-Out (suc n) a [] i = absurd i
take-Out (suc n) a (x ∷ xs) (inl e) = inl e
take-Out (suc n) a (x ∷ xs) (inr i) = inr (take-Out n a xs i)

window-Out :
    (xs : List (Option Bytes)) (offset n : ℕ) (a : Option Bytes)
    → In a (take n (drop offset xs))
    → In a xs
window-Out xs zero n a i = take-Out n a xs i
window-Out [] (suc offset) n a i = take-Out n a [] i
window-Out (x ∷ xs) (suc offset) n a i = inr (window-Out xs offset n a i)

pub only_if : (b : Bool) (v m : Bytes) → (if b then some v else none) ≡ some m → v ≡ m
only_if true v m e = ground arith
only_if false v m e = absurd (ground arith)

no_boolean_below : (x : Bytes) → IsValue boolean x → boolean_lt x (0 ∷ []) ≡ false
no_boolean_below x (inl e) = rw e refl
no_boolean_below x (inr e) = rw e refl

no_boolean_above : (x : Bytes) → IsValue boolean x → boolean_lt (1 ∷ []) x ≡ false
no_boolean_above x (inl e) = rw e refl
no_boolean_above x (inr e) = rw e refl

module _ (f32_lt f64_lt : Bytes → Bytes → Bool) where
  -- A value lies within statistics.
  pub record Within (dtype : DataType) (s : BlockColumnStats) (x : Bytes) : Type 0 where
    pub from_min :
        (m : Bytes) → s.min_bytes ≡ some m → bytes_lt f32_lt f64_lt x m dtype ≡ some false
    pub to_max : (m : Bytes) → s.max_bytes ≡ some m → bytes_lt f32_lt f64_lt m x dtype ≡ some false

  no_values-Within : (dtype : DataType) (nulls : ℕ) (x : Bytes) → Within dtype (no_values nulls) x
  no_values-Within dtype nulls x = record {
    from_min = λ m e. absurd (ground arith);
    to_max = λ m e. absurd (ground arith);
  }

  module _ (f32_is_nan f64_is_nan : Bytes → Bool) where
    -- The statistics of integers, whose comparison reads `n` bytes.
    int-Within :
        (dtype : DataType) (n : ℕ) (lt : Bytes → Bytes → Bool)
        → IsStrict lt
        → ((l r : Bytes) → bytes_lt f32_lt f64_lt l r dtype ≡ compared_at n lt l r)
        → (x : Bytes) (nulls non_null : ℕ) (vs : List (Option Bytes))
        → ((y : Bytes) → In (some y) vs → length y ≡ n)
        → In (some x) vs
        → Within dtype (int_stats_from lt nulls non_null vs) x
    int-Within dtype n lt strict same x nulls non_null vs a i =
        let (p, q) = int_stats-Bounded lt strict (λ y. length y ≡ n) x nulls non_null vs a i in
        record {
          from_min = λ m e. same x m ∙ compared_at-all n lt x m false (a x i) (p m e).0 (p m e).1;
          to_max = λ m e. same m x ∙ compared_at-all n lt m x false (q m e).0 (a x i) (q m e).1;
        }

    text-Within :
        (dtype : DataType)
        → ((l r : Bytes) → bytes_lt f32_lt f64_lt l r dtype ≡ some (lexical_lt l r))
        → (x : Bytes) (nulls : ℕ) (vs : List (Option Bytes)) → In (some x) vs
        → Within dtype (from_first lexical_lt nulls nulls vs) x
    text-Within dtype same x nulls vs i =
        let (p, q) =
          from_first-Bounded lexical_lt lexical-IsStrict (λ y. Unit) x nulls nulls vs (λ y j. _)
            i in
        record {
          from_min = λ m e. same x m ∙ ap some (p m e).1;
          to_max = λ m e. same m x ∙ ap some (q m e).1;
        }

    boolean-Within :
        (x : Bytes) (nulls : ℕ) (vs : List (Option Bytes))
        → IsValue boolean x
        → Within boolean (boolean_stats nulls vs) x
    unfolding bytes_lt
    boolean-Within x nulls vs v = record {
      from_min = λ m e.
          subst (λ y. some (boolean_lt x y) ≡ some false) (only_if (has_bool false vs) (0 ∷ []) m e)
            (ap some (no_boolean_below x v));
      to_max = λ m e.
          subst (λ y. some (boolean_lt y x) ≡ some false) (only_if (has_bool true vs) (1 ∷ []) m e)
            (ap some (no_boolean_above x v));
    }

    -- A value of the part, all of which are of an ordered type, lies within the statistics.
    typed_stats-Within :
        (dtype : DataType) (int32_keys : Bool) (len : ℕ) (x : Bytes) (vs : List (Option Bytes))
        → IsOrdered dtype
        → ((y : Bytes) → In (some y) vs → IsValue dtype y)
        → In (some x) vs
        → Within dtype (typed_stats f32_lt f64_lt f32_is_nan f64_is_nan dtype int32_keys len vs) x
    unfolding typed_stats bytes_lt
    typed_stats-Within int8 keys len x vs o a i =
        int-Within int8 1 (signed_value_lt 1) (signed-IsStrict 1) (λ l r. refl) x (count_nulls vs)
          (len - count_nulls vs) vs a i
    typed_stats-Within int16 keys len x vs o a i =
        int-Within int16 2 (signed_value_lt 2) (signed-IsStrict 2) (λ l r. refl) x (count_nulls vs)
          (len - count_nulls vs) vs a i
    typed_stats-Within int32 keys len x vs o a i =
        int-Within int32 4 (signed_value_lt 4) (signed-IsStrict 4) (λ l r. refl) x (count_nulls vs)
          (len - count_nulls vs) vs a i
    typed_stats-Within int64 keys len x vs o a i =
        int-Within int64 8 (signed_value_lt 8) (signed-IsStrict 8) (λ l r. refl) x (count_nulls vs)
          (len - count_nulls vs) vs a i
    typed_stats-Within uint8 keys len x vs o a i =
        int-Within uint8 1 unsigned_value_lt unsigned-IsStrict (λ l r. refl) x (count_nulls vs)
          (len - count_nulls vs) vs a i
    typed_stats-Within uint16 keys len x vs o a i =
        int-Within uint16 2 unsigned_value_lt unsigned-IsStrict (λ l r. refl) x (count_nulls vs)
          (len - count_nulls vs) vs a i
    typed_stats-Within uint32 keys len x vs o a i =
        int-Within uint32 4 unsigned_value_lt unsigned-IsStrict (λ l r. refl) x (count_nulls vs)
          (len - count_nulls vs) vs a i
    typed_stats-Within uint64 keys len x vs o a i =
        int-Within uint64 8 unsigned_value_lt unsigned-IsStrict (λ l r. refl) x (count_nulls vs)
          (len - count_nulls vs) vs a i
    typed_stats-Within utf8 keys len x vs o a i =
        text-Within utf8 (λ l r. refl) x (count_nulls vs) vs i
    typed_stats-Within large_utf8 keys len x vs o a i =
        text-Within large_utf8 (λ l r. refl) x (count_nulls vs) vs i
    typed_stats-Within dictionary keys len x vs o a i = record {
      from_min = λ m h. refl;
      to_max = λ m h. refl;
    }
    typed_stats-Within float32 keys len x vs o a i = absurd o
    typed_stats-Within float64 keys len x vs o a i = absurd o
    typed_stats-Within boolean keys len x vs o a i = boolean-Within x (count_nulls vs) vs (a x i)
    typed_stats-Within dtype keys len x vs o a i = no_values-Within dtype (count_nulls vs) x

    -- The columns whose values are all of the type.
    pub record IsColumn (dtype : DataType) (arr : Array) : Type 0 where
      pub of_type : arr.data_type ≡ dtype
      pub of_values : (y : Bytes) → In (some y) arr.values → IsValue dtype y

    pub part-In :
        (dtype : DataType) (arr : Array) (offset len : ℕ)
        → IsColumn dtype arr
        → (y : Bytes) → In (some y) (slice arr.values offset (offset + len))
        → IsValue dtype y
    part-In dtype arr offset len c y j = c.of_values y (
        window-Out arr.values offset len (some y)
          (subst (In (some y)) (slice-eq-take arr.values offset len) j))

    -- Of a column of an ordered type, each value of a part lies within the part's statistics.
    pub part-Within :
        (dtype : DataType) (arr : Array) (offset len : ℕ) (x : Bytes)
        → IsOrdered dtype
        → IsColumn dtype arr
        → 0 < len
        → In (some x) (slice arr.values offset (offset + len))
        → Within dtype (compute_block_stats f32_lt f64_lt f32_is_nan f64_is_nan arr offset len) x
    unfolding compute_block_stats
    part-Within dtype arr offset len x o c l h =
        let e : leb len 0 ≡ false = ground arith in
        rw e (
          subst
            (λ t.
              Within dtype
                (typed_stats f32_lt f64_lt f32_is_nan f64_is_nan t arr.int32_keys len
                  (slice arr.values offset (offset + len)))
                x)
            (sym c.of_type)
            (typed_stats-Within dtype arr.int32_keys len x (slice arr.values offset (offset + len))
              o (part-In dtype arr offset len c) h))

    pub compute_block_stats-Within :
        (dtype : DataType) (arr : Array) (offset len i : ℕ) (x : Bytes)
        → IsOrdered dtype
        → IsColumn dtype arr
        → get_elem? arr.values i ≡ some (some x)
        → offset ≤ i
        → i < offset + len
        → Within dtype (compute_block_stats f32_lt f64_lt f32_is_nan f64_is_nan arr offset len) x
    compute_block_stats-Within dtype arr offset len i x o c at l r =
        part-Within dtype arr offset len x o c (omega arith) (
          subst (In (some x)) (sym (slice-eq-take arr.values offset len))
            (window-In arr.values offset len i (some x) at l r))
