-- ===== src/Meta/ZoneMap/Tests.antt =====
-- src/metadata/block_zone_map.rs: the zone map of a column of three integers, of which one is null, and a
-- Bloom filter of one block.
use rockduck.Prelude.{
  ℕ, Option, List, ap, slice, slice-eq-take, ◌≡◌, refl, true, false, Bool, some, none, [], ◌∷◌,
  Bytes, arith, length,
}
use rockduck.Meta.ZoneMap.{int64, utf8, BlockStats}
use rockduck.Prelude.{get_elem?, ◌+◌}
use rockduck.Meta.ZoneMap.SbbFilter.{
  SbbFilter, new_filter, set_all, key_bits, insert, insert_hashes, might_contain,
}
use rockduck.Meta.ZoneMap.SbbFilter.Members.{IsSized, might_contain-insert, insert-first_bits}
use rockduck.Meta.BlockStats.{Array, merge_with, typed_stats, int_stats_from, compute_block_stats}
use rockduck.Meta.BlockStats.AllNull.{is_integer, all_null, compute_block_stats-all_null}
use rockduck.Meta.ZoneMap.Builder.{
  BlockZoneMapBuilder, new_builder, append_batch, finalize, append_column, append_loop, append_rows,
  flush_both, flush_block, flush_granule, rows_can_add, u32,
}
use rockduck.Meta.ZoneMap.Builder.Tiles.{IsReady}
use rockduck.Meta.ZoneMap.Builder.Bounds.{BoundedTiles, append_batch-BoundedTiles}
use rockduck.Meta.BlockStats.Within.{IsColumn, IsValue}
use mathlib.Core.Path.{subst}
use rockduck.Prelude.{In, inl, inr, sym, concat, ◌≢◌}

abbrev no_lt : Bytes → Bytes → Bool
no_lt l r = false

abbrev never : Bytes → Bool
never x = false

abbrev bytes_of : ℕ → Bytes
bytes_of n = n ∷ 0 ∷ 0 ∷ 0 ∷ 0 ∷ 0 ∷ 0 ∷ 0 ∷ []

abbrev column : Array
column = record {
  data_type = int64;
  int32_keys = false;
  values = some (bytes_of 5) ∷ none ∷ some (bytes_of 3) ∷ [];
}

abbrev nulls : Array
nulls = record { data_type = int64; int32_keys = false; values = none ∷ none ∷ [] }

-- Blocks of two rows, and one block for each granule.
abbrev small_builder : BlockZoneMapBuilder
small_builder = record (new_builder int64) { block_size = 2; granule_size = 1 }

small_builder-IsReady : IsReady small_builder
small_builder-IsReady = record {
  size = omega arith;
  room = omega arith;
  small = omega arith;
  no_rows = refl;
  no_bytes = refl;
  no_stats = refl;
  no_blocks = refl;
}

some_injective {ℓ} : {A : Type ℓ} (x y : A) → some x ≡ some y → x ≡ y
some_injective x y h = cc

some-none : (y : Bytes) → some y ≢ none
some-none y h = ground arith

column-IsColumn : IsColumn no_lt no_lt never never int64 column
column-IsColumn = record { of_type = refl; of_values = of_values }
  where
    of_values : (y : Bytes) → In (some y) column.values → IsValue int64 y
    of_values y (inl e) = subst (IsValue int64) (some_injective (bytes_of 5) y (sym e)) refl
    of_values y (inr (inl e)) = absurd (some-none y e)
    of_values y (inr (inr (inl e))) =
        subst (IsValue int64) (some_injective (bytes_of 3) y (sym e)) refl
    of_values y (inr (inr (inr e))) = absurd e

append_batch-BoundedTiles_example :
    (c : BlockZoneMapBuilder) × (append_batch no_lt no_lt never never column small_builder
      ≡ some (c, 3))
    × IsReady c
    × (blocks : List BlockStats) × (concat c.completed_granules ≡ blocks)
    × BoundedTiles no_lt no_lt never never column int64 0 0 blocks 3
append_batch-BoundedTiles_example =
    append_batch-BoundedTiles no_lt no_lt never never column int64 tt column-IsColumn small_builder
      (omega arith) small_builder-IsReady

compute_block_stats-all_null_example :
    (is_integer int64 ≡ true
      → (compute_block_stats no_lt no_lt never never nulls 0 2).null_count ≡ 0)
    × (int64 ≡ utf8
        → (compute_block_stats no_lt no_lt never never nulls 0 2).null_count
          ≡ length (slice nulls.values 0 2))
compute_block_stats-all_null_example =
    compute_block_stats-all_null no_lt no_lt never never nulls 0 2
      (ap all_null (slice-eq-take nulls.values 0 2))

-- The blocks of two arrays behind one another: each starts a block, and rows are counted on.
blocks : Option (List (List BlockStats))
blocks = elim (append_batch no_lt no_lt never never column small_builder) [
  | none ↦ none
  | some (b, n) ↦ elim (append_batch no_lt no_lt never never nulls b) [
    | none ↦ none
    | some (c, m) ↦ some (finalize c).granules
  ]
]

blocks-run :
    blocks
    ≡ some (
        (record {
          row_start = 0;
          row_end = 2;
          min_bytes = some (bytes_of 5);
          max_bytes = some (bytes_of 5);
          null_count = 1;
        }
          ∷ [])
        ∷ (record {
          row_start = 2;
          row_end = 3;
          min_bytes = some (bytes_of 3);
          max_bytes = some (bytes_of 3);
          null_count = 0;
        }
            ∷ [])
        ∷ (record { row_start = 3; row_end = 5; min_bytes = none; max_bytes = none; null_count = 0 }
            ∷ [])
        ∷ [])
unfolding blocks append_batch append_column append_loop append_rows flush_both flush_block
    flush_granule rows_can_add u32 finalize merge_with compute_block_stats typed_stats
    int_stats_from slice
blocks-run = refl

-- A Bloom filter of one block, with a hash that is the first byte and the length.
abbrev byte_hash : Bytes → ℕ × ℕ
byte_hash [] = (0, 0)
byte_hash (b ∷ bs) = (b, b + length bs)

abbrev one_block : SbbFilter
one_block = new_filter 1

might_contain-insert_example :
    (g : SbbFilter) × (insert byte_hash one_block (7 ∷ 1 ∷ []) ≡ some g)
    × IsSized g
    × (might_contain byte_hash g (7 ∷ 1 ∷ []) ≡ some true)
    × ((other : Bytes)
        → might_contain byte_hash one_block other ≡ some true
        → might_contain byte_hash g other ≡ some true)
might_contain-insert_example =
    might_contain-insert byte_hash one_block (7 ∷ 1 ∷ [])
      (record { some_block = omega arith; size = refl })

abbrev set_bits : Option (List Bool) → List Bool
set_bits none = []
set_bits (some bits) = bits

abbrev inserted : SbbFilter
inserted = record {
  entries = 1;
  num_blocks = 1;
  bits = set_bits (set_all one_block.bits (key_bits 1 (7, 8)));
}

inserted-eq : insert byte_hash one_block (7 ∷ 1 ∷ []) ≡ some inserted
unfolding insert insert_hashes u32
inserted-eq = refl

insert-first_bits_example : get_elem? inserted.bits 100 ≡ get_elem? one_block.bits 100
insert-first_bits_example =
    insert-first_bits byte_hash one_block inserted (7 ∷ 1 ∷ []) 100 inserted-eq (omega arith)
