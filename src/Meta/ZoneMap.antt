-- ===== src/Meta/ZoneMap.antt =====
-- src/metadata/block_zone_map.rs: the comparison of bytes by a column's type, and the zone map of a
-- column. `none` is a panic. The comparisons of `f32` and `f64` values are parameters, on the bytes.
pub mod Order
pub mod Builder
pub mod SbbFilter
mod Tests
use rockduck.Prelude.{
  nat_ord, list_ord, ℕ, zero, suc, ◌+◌, ◌-◌, ◌*◌, Ordering, Bool, true, false, not, Option, none,
  some, List, [], ◌∷◌, Bytes, length, ltb, leb, take, list_cmp, concat, if◌then◌else◌,
}
use rockduck.Std.Int.{ℤ, pos, negsuc, from_le_bytes, byte_limit}

-- The types of `arrow_schema`, without their parameters but for the size of a fixed-size binary.
pub data DataType : Type 0 where
  int8 int16 int32 int64 uint8 uint16 uint32 uint64 : DataType
  float16 float32 float64 : DataType
  utf8 large_utf8 binary large_binary binary_view utf8_view boolean : DataType
  decimal32 decimal64 decimal128 decimal256 : DataType
  date32 date64 timestamp time32 time64 interval duration : DataType
  fixed_size_binary : ℕ → DataType
  fixed_size_list list large_list large_list_view list_view map_type struct_type : DataType
  union_type dictionary null run_end_encoded : DataType

-- `copy_from_slice` panics where the slices differ in length.
unfoldable pub read_bytes : ℕ → Bytes → Option Bytes
read_bytes n bytes = if leb n (length bytes) then some (take n bytes) else none

-- `from_le_bytes` of a signed type: the upper half of the range is negative.
abbrev pub signed : ℕ → Bytes → ℤ
signed n bytes =
    let x = from_le_bytes bytes in
    if ltb (2 * x) (byte_limit n) then pos x else negsuc (byte_limit n - 1 - x)

abbrev pub ltb_int : ℤ → ℤ → Bool
ltb_int (pos a) (pos b) = ltb a b
ltb_int (pos a) (negsuc b) = false
ltb_int (negsuc a) (pos b) = true
ltb_int (negsuc a) (negsuc b) = ltb b a

-- Both sides are read at a width, and compared.
abbrev pub compared_at : ℕ → (Bytes → Bytes → Bool) → Bytes → Bytes → Option Bool
compared_at n lt left right = elim (read_bytes n left) [
  | none ↦ none
  | some l ↦ elim (read_bytes n right) [ none ↦ none | some r ↦ some (lt l r) ]
]

abbrev pub signed_lt : ℕ → Bytes → Bytes → Option Bool
signed_lt n = compared_at n (λ l r. ltb_int (signed n l) (signed n r))

abbrev pub unsigned_lt : ℕ → Bytes → Bytes → Option Bool
unsigned_lt n = compared_at n (λ l r. ltb (from_le_bytes l) (from_le_bytes r))

abbrev pub is_lt : Ordering → Bool
is_lt Ordering.lt = true
is_lt _ = false

abbrev pub lexical_lt : Bytes → Bytes → Bool
lexical_lt l r = is_lt (list_cmp l r)

abbrev pub boolean_lt : Bytes → Bytes → Bool
boolean_lt [] [] = false
boolean_lt [] (r ∷ rs) = true
boolean_lt (l ∷ ls) [] = false
boolean_lt (l ∷ ls) (r ∷ rs) = ltb l r

abbrev pub shorter : ℕ → ℕ → ℕ
shorter a b = if leb a b then a else b

pub record BlockStats : Type 0 where
  pub row_start : ℕ
  pub row_end : ℕ
  pub min_bytes : Option Bytes
  pub max_bytes : Option Bytes
  pub null_count : ℕ

-- The index of one column: its type, and the blocks of its granules. The fields for the file and the
-- sizes, and the bloom filters, are left out.
pub record GranuleZoneMapIndex : Type 0 where
  pub column_type : DataType
  pub granules : List (List BlockStats)

module _ (f32_lt f64_lt : Bytes → Bytes → Bool) where
  unfoldable pub bytes_lt : Bytes → Bytes → DataType → Option Bool
  bytes_lt left right dtype = elim dtype [
    | int8 ↦ signed_lt 1 left right
    | int16 ↦ signed_lt 2 left right
    | int32 ↦ signed_lt 4 left right
    | int64 ↦ signed_lt 8 left right
    | uint8 ↦ unsigned_lt 1 left right
    | uint16 ↦ unsigned_lt 2 left right
    | uint32 ↦ unsigned_lt 4 left right
    | uint64 ↦ unsigned_lt 8 left right
    | float16 ↦ some false
    | float32 ↦ compared_at 4 f32_lt left right
    | float64 ↦ compared_at 8 f64_lt left right
    | utf8 ↦ some (lexical_lt left right)
    | large_utf8 ↦ some (lexical_lt left right)
    | binary ↦ some (lexical_lt left right)
    | large_binary ↦ some (lexical_lt left right)
    | binary_view ↦ some (lexical_lt left right)
    | utf8_view ↦ some (lexical_lt left right)
    | boolean ↦ some (boolean_lt left right)
    | decimal128 ↦ signed_lt 16 left right
    | decimal256 ↦ some (lexical_lt left right)
    | decimal32 ↦ signed_lt 4 left right
    | decimal64 ↦ signed_lt 8 left right
    | date32 ↦ signed_lt 4 left right
    | date64 ↦ signed_lt 8 left right
    | timestamp ↦ signed_lt 8 left right
    | time32 ↦ unsigned_lt 4 left right
    | time64 ↦ unsigned_lt 8 left right
    | interval ↦ some (lexical_lt left right)
    | duration ↦ some (lexical_lt left right)
    | fixed_size_binary size ↦
        let n = shorter (shorter size (length left)) (length right) in
        some (lexical_lt (take n left) (take n right))
    | _ ↦ some false
  ]

  abbrev pub below : Option Bytes → Bytes → DataType → Option Bool
  below none pred_min dtype = some false
  below (some block_max) pred_min dtype = bytes_lt block_max pred_min dtype

  abbrev pub above : Option Bytes → Bytes → DataType → Option Bool
  above none pred_max dtype = some false
  above (some block_min) pred_max dtype = bytes_lt pred_max block_min dtype

  -- The tests of one block: whether it may overlap the range.
  unfoldable pub block_overlaps : DataType → BlockStats → Bytes → Bytes → Option Bool
  block_overlaps dtype block pred_min pred_max = elim (below block.max_bytes pred_min dtype) [
    | none ↦ none
    | some b ↦
        if b
        then some false
        else (elim (above block.min_bytes pred_max dtype) [ none ↦ none | some a ↦ some (not a) ])
  ]

  -- The loop over the blocks of all granules: the first that may overlap ends it, and so does a panic.
  abbrev pub any_overlaps : DataType → List BlockStats → Bytes → Bytes → Option Bool
  any_overlaps dtype [] pred_min pred_max = some false
  any_overlaps dtype (block ∷ blocks) pred_min pred_max =
      elim (block_overlaps dtype block pred_min pred_max) [
        | none ↦ none
        | some b ↦ elim b [ true ↦ some true | false ↦ any_overlaps dtype blocks pred_min pred_max ]
      ]

  unfoldable pub may_overlap : GranuleZoneMapIndex → Bytes → Bytes → Option Bool
  may_overlap zm pred_min pred_max =
      any_overlaps zm.column_type (concat zm.granules) pred_min pred_max
