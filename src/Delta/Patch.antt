-- ===== src/Delta/Patch.antt =====
-- src/storage/delta/types.rs: the two formats of a patch and their bytes. The bitmap library is not
-- part of the repository: its bytes are kept, and its reading of their cardinality is a parameter.
pub mod Format
use rockduck.Prelude.{
  nat_eq, list_eq, ℕ, ◌+◌, ◌%◌, ◌^◌, ◌<◌, ◌≡◌, Bool, true, false, ◌&&◌, ◌==◌, Option, none, some,
  List, [], ◌∷◌, ◌++◌, Bytes, Str, length, take, drop, slice, get_elem?, leb, ltb, if◌then◌else◌,
}
use rockduck.Std.Int.{to_le_bytes, from_le_bytes}

pub data DeltaPatchFormat : Type 0 where
  sparse_format : (positions values : Bytes) (affected_count : ℕ) → DeltaPatchFormat
  dense_format : (values : Bytes) (total_rows txn_id : ℕ) → DeltaPatchFormat

pub record ZoneMap : Type 0 where
  pub min_txn : ℕ
  pub max_txn : ℕ
  pub affected_rows : ℕ
  pub min_value : Option Bytes
  pub max_value : Option Bytes

pub record DeltaPatch : Type 0 where
  pub seg_id : Str
  pub column : Str
  pub patch_id : ℕ
  pub txn_range : ℕ × ℕ
  pub format : DeltaPatchFormat
  pub zone_map : ZoneMap

-- `sparse`, from the bytes of the bitmap and its cardinality
unfoldable pub sparse : Bytes → ℕ → Bytes → DeltaPatchFormat
sparse positions cardinality values = sparse_format positions values cardinality

unfoldable pub dense : Bytes → ℕ → ℕ → DeltaPatchFormat
dense values total_rows txn_id = dense_format values total_rows txn_id

unfoldable pub affected_count : DeltaPatchFormat → ℕ
affected_count (sparse_format positions values count) = count
affected_count (dense_format values total_rows txn_id) = total_rows

unfoldable pub is_sparse : DeltaPatchFormat → Bool
is_sparse (sparse_format positions values count) = true
is_sparse (dense_format values total_rows txn_id) = false

unfoldable pub is_dense : DeltaPatchFormat → Bool
is_dense (sparse_format positions values count) = false
is_dense (dense_format values total_rows txn_id) = true

-- b"RDELTA"
abbrev pub patch_magic : Bytes
patch_magic = 82 ∷ 68 ∷ 69 ∷ 76 ∷ 84 ∷ 65 ∷ []

-- `values.len() as u32`, as bytes
abbrev pub len_u32 : Bytes → Bytes
len_u32 bs = to_le_bytes 4 (length bs % 2 ^ 32)

abbrev pub payload : DeltaPatchFormat → Bytes
payload (sparse_format positions values count) =
    0 ∷ (len_u32 positions ++ (positions ++ (len_u32 values ++ values)))
payload (dense_format values total_rows txn_id) =
    1 ∷ (to_le_bytes 8 txn_id ++ (to_le_bytes 8 total_rows ++ (len_u32 values ++ values)))

unfoldable pub to_bytes : DeltaPatchFormat → Bytes
to_bytes p = patch_magic ++ (0 ∷ payload p)

-- What a call of `from_bytes` comes to: an index out of range stops the thread.
pub data Parsed : Type 0 where
  panicked : Parsed
  parsed : Option DeltaPatchFormat → Parsed

unfoldable pub u32_at : Bytes → ℕ → ℕ
u32_at bytes i = from_le_bytes (slice bytes i (i + 4))

unfoldable pub u64_at : Bytes → ℕ → ℕ
u64_at bytes i = from_le_bytes (slice bytes i (i + 8))

-- Where the format starts: behind the magic bytes and the version, or at once in an old file.
abbrev pub format_start_of : Bytes → ℕ
format_start_of bytes = if leb 7 (length bytes) && take 6 bytes == patch_magic then 7 else 0

module _ (cardinality : Bytes → ℕ) where
  -- The two arms of the format byte, at the offset where the format starts.
  unfoldable pub sparse_from : Bytes → ℕ → Option DeltaPatchFormat
  sparse_from bytes format_start =
      if ltb (length bytes) (format_start + 9)
      then none
      else let pos_len = u32_at bytes (format_start + 1) in
        if ltb (length bytes) (format_start + 5 + pos_len + 4)
        then none
        else let positions = slice bytes (format_start + 5) (format_start + 5 + pos_len) in
          let val_len_offset = format_start + 5 + pos_len in
          let val_len = u32_at bytes val_len_offset in
          let values_offset = val_len_offset + 4 in
          if ltb (length bytes) (values_offset + val_len)
          then none
          else some (
              sparse_format positions (slice bytes values_offset (values_offset + val_len))
                (cardinality positions))

  unfoldable pub dense_from : Bytes → ℕ → Option DeltaPatchFormat
  dense_from bytes format_start =
      if ltb (length bytes) (format_start + 21)
      then none
      else let txn_id = u64_at bytes (format_start + 1) in
        let total_rows = u64_at bytes (format_start + 9) in
        let val_len = u32_at bytes (format_start + 17) in
        if ltb (length bytes) (format_start + 21 + val_len)
        then none
        else some (
            dense_format (slice bytes (format_start + 21) (format_start + 21 + val_len)) total_rows
              txn_id)

  abbrev pub from_flag : Bytes → ℕ → Option ℕ → Parsed
  from_flag bytes format_start none = panicked
  from_flag bytes format_start (some flag) =
      if flag == 0
      then parsed (sparse_from bytes format_start)
      else if flag == 1
      then parsed (dense_from bytes format_start)
      else parsed none

  unfoldable pub from_bytes : Bytes → Parsed
  from_bytes [] = parsed none
  from_bytes (b ∷ bs) =
      let format_start = format_start_of (b ∷ bs) in
      from_flag (b ∷ bs) format_start (get_elem? (b ∷ bs) format_start)
