-- ===== src/Meta/BlockStats.antt =====
-- src/metadata/block_stats.rs: the least and the greatest value of a part of a column. A column is an
-- Arrow array, which a value enters by its little-endian bytes, or by those of its text; `none` is
-- null. The comparison of floating-point values and their test for NaN are parameters, on the bytes.
-- A count of nulls is at most the number of rows, and is taken not to wrap.
pub mod Least
pub mod Within
pub mod Among
pub mod AllNull
pub mod Present
use rockduck.Prelude.{
  nat_ord, nat_eq, ℕ, suc, ◌+◌, ◌-◌, Bool, true, false, not, Option, none, some, List, [], ◌∷◌,
  Bytes, length, ltb, leb, slice, ◌||◌, ◌==◌, if◌then◌else◌,
}
use rockduck.Std.Int.{from_le_bytes}
use rockduck.Meta.ZoneMap.{
  DataType, int8, int16, int32, int64, uint8, uint16, uint32, uint64, float32, float64, utf8,
  large_utf8, boolean, dictionary, signed, ltb_int, lexical_lt,
}

-- The values of a dictionary are its keys; `int32_keys` is about their type.
pub record Array : Type 0 where
  pub data_type : DataType
  pub int32_keys : Bool
  pub values : List (Option Bytes)

pub record BlockColumnStats : Type 0 where
  pub min_bytes : Option Bytes
  pub max_bytes : Option Bytes
  pub null_count : ℕ

abbrev pub no_values : ℕ → BlockColumnStats
no_values nulls = record { min_bytes = none; max_bytes = none; null_count = nulls }

-- `other` where it is `none`, or where `dominated` holds of its value
abbrev pub replaced : (Bytes → Bytes → Bool) → Option Bytes → Option Bytes → Option Bytes
replaced dominated current none = current
replaced dominated none (some other) = some other
replaced dominated (some current) (some other) =
    if dominated current other then some other else some current

-- The bytes are compared as such, of every type.
unfoldable pub merge_with : BlockColumnStats → BlockColumnStats → BlockColumnStats
merge_with stats other = record {
  min_bytes = replaced (λ current x. lexical_lt x current) stats.min_bytes other.min_bytes;
  max_bytes = replaced (λ current x. lexical_lt current x) stats.max_bytes other.max_bytes;
  null_count = stats.null_count + other.null_count;
}

abbrev pub count_nulls : List (Option Bytes) → ℕ
count_nulls [] = 0
count_nulls (none ∷ vs) = suc (count_nulls vs)
count_nulls (some v ∷ vs) = count_nulls vs

-- The loop behind the first value: `mn` if no later one is less, and `mx` likewise.
abbrev pub extremes : (Bytes → Bytes → Bool) → Bytes → Bytes → List (Option Bytes) → Bytes × Bytes
extremes lt mn mx [] = (mn, mx)
extremes lt mn mx (none ∷ vs) = extremes lt mn mx vs
extremes lt mn mx (some v ∷ vs) =
    extremes lt (if lt v mn then v else mn) (if lt mx v then v else mx) vs

abbrev pub extremes_stats : ℕ → Bytes × Bytes → BlockColumnStats
extremes_stats nulls (mn, mx) = record {
  min_bytes = some mn;
  max_bytes = some mx;
  null_count = nulls;
}

-- From the first value on; `none_nulls` is the count of nulls where all are null.
abbrev pub from_first :
    (Bytes → Bytes → Bool) → (none_nulls nulls : ℕ) → List (Option Bytes) → BlockColumnStats
from_first lt none_nulls nulls [] = no_values none_nulls
from_first lt none_nulls nulls (none ∷ vs) = from_first lt none_nulls nulls vs
from_first lt none_nulls nulls (some v ∷ vs) = extremes_stats nulls (extremes lt v v vs)

-- The early returns of the macro leave `compute_block_stats`, with a count of 0.
unfoldable pub int_stats_from :
    (Bytes → Bytes → Bool) → (nulls non_null : ℕ) → List (Option Bytes) → BlockColumnStats
int_stats_from lt nulls non_null vs =
    if leb (length vs) 0 || non_null == 0 then no_values 0 else from_first lt 0 nulls vs

-- The values that are not NaN; `null` is passed over as well.
abbrev pub without_nan : (Bytes → Bool) → List (Option Bytes) → List (Option Bytes)
without_nan is_nan [] = []
without_nan is_nan (none ∷ vs) = none ∷ without_nan is_nan vs
without_nan is_nan (some v ∷ vs) = (if is_nan v then none else some v) ∷ without_nan is_nan vs

unfoldable pub float_stats_from :
    (Bytes → Bytes → Bool)
    → (Bytes → Bool)
    → (len nulls non_null : ℕ) → List (Option Bytes)
    → BlockColumnStats
float_stats_from lt is_nan len nulls non_null vs =
    if leb (length vs) 0 || non_null == 0
    then no_values (len - non_null)
    else from_first lt nulls nulls (without_nan is_nan vs)

-- Of the keys: the loop starts at the first row, which must not be null.
abbrev pub dictionary_stats : ℕ → List (Option Bytes) → BlockColumnStats
dictionary_stats nulls (some v ∷ vs) =
    extremes_stats nulls (extremes (λ l r. ltb_int (signed 4 l) (signed 4 r)) v v vs)
dictionary_stats nulls _ = no_values nulls

-- Whether a value is there: a Boolean is the byte 0 or 1.
abbrev pub has_bool : Bool → List (Option Bytes) → Bool
has_bool b [] = false
has_bool b (none ∷ vs) = has_bool b vs
has_bool b (some v ∷ vs) =
    (if b then from_le_bytes v == 1 else from_le_bytes v == 0) || has_bool b vs

abbrev pub boolean_stats : ℕ → List (Option Bytes) → BlockColumnStats
boolean_stats nulls vs = record {
  min_bytes = if has_bool false vs then some (0 ∷ []) else none;
  max_bytes = if has_bool true vs then some (1 ∷ []) else none;
  null_count = nulls;
}

abbrev pub signed_value_lt : ℕ → Bytes → Bytes → Bool
signed_value_lt n l r = ltb_int (signed n l) (signed n r)

abbrev pub unsigned_value_lt : Bytes → Bytes → Bool
unsigned_value_lt l r = ltb (from_le_bytes l) (from_le_bytes r)

module _ (f32_lt f64_lt : Bytes → Bytes → Bool) (f32_is_nan f64_is_nan : Bytes → Bool) where
  -- The match on the type, of the number of rows that were asked for and the values of the part.
  unfoldable pub typed_stats : DataType → Bool → ℕ → List (Option Bytes) → BlockColumnStats
  typed_stats dtype int32_keys len vs =
      let nulls = count_nulls vs in
      let non_null = len - nulls in
      elim dtype [
        | float32 ↦ float_stats_from f32_lt f32_is_nan len nulls non_null vs
        | float64 ↦ float_stats_from f64_lt f64_is_nan len nulls non_null vs
        | int8 ↦ int_stats_from (signed_value_lt 1) nulls non_null vs
        | int16 ↦ int_stats_from (signed_value_lt 2) nulls non_null vs
        | int32 ↦ int_stats_from (signed_value_lt 4) nulls non_null vs
        | int64 ↦ int_stats_from (signed_value_lt 8) nulls non_null vs
        | uint8 ↦ int_stats_from unsigned_value_lt nulls non_null vs
        | uint16 ↦ int_stats_from unsigned_value_lt nulls non_null vs
        | uint32 ↦ int_stats_from unsigned_value_lt nulls non_null vs
        | uint64 ↦ int_stats_from unsigned_value_lt nulls non_null vs
        | dictionary ↦ if int32_keys then dictionary_stats nulls vs else no_values nulls
        | boolean ↦ boolean_stats nulls vs
        | utf8 ↦ from_first lexical_lt nulls nulls vs
        | large_utf8 ↦ from_first lexical_lt nulls nulls vs
        | _ ↦ no_values nulls
      ]

  unfoldable pub compute_block_stats : Array → (offset len : ℕ) → BlockColumnStats
  compute_block_stats arr offset len =
      if leb len 0
      then no_values 0
      else typed_stats arr.data_type arr.int32_keys len (slice arr.values offset (offset + len))

  unfoldable pub compute_full_stats : Array → BlockColumnStats
  compute_full_stats arr = compute_block_stats arr 0 (length arr.values)
