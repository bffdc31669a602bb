-- ===== src/Meta/PkIndex.antt =====
-- src/metadata/pk_skiplist.rs: the index of primary keys, over the key-value engine. `encode` and
-- `decode` are the codec's; a granule is its 32-bit number.
pub mod Keys
pub mod Lookup
use rockduck.Prelude.{
  nat_eq, list_eq, ℕ, suc, ◌+◌, Bool, true, false, ◌==◌, Option, none, some, List, [], ◌∷◌, ◌++◌,
  Bytes, Str, length, take, drop, ltb, if◌then◌else◌,
}
use rockduck.Error.{RockDuckError, codec, Result, ok, err, ◌>>=◌}
use rockduck.Std.Int.{to_le_bytes, from_le_bytes}
use rockduck.Meta.Kv.{Bucket, cf_pk_idx, KvOp, put_op, KvEngine, resolve_seg_id}

-- b"pk_idx:"
abbrev pub pk_idx_prefix : Bytes
pk_idx_prefix = 112 ∷ 107 ∷ 95 ∷ 105 ∷ 100 ∷ 120 ∷ 58 ∷ []

-- b"pk_lookup:"
abbrev pub pk_lookup_prefix : Bytes
pk_lookup_prefix = 112 ∷ 107 ∷ 95 ∷ 108 ∷ 111 ∷ 111 ∷ 107 ∷ 117 ∷ 112 ∷ 58 ∷ []

unfoldable pub pk_index_key : Str → ℕ → Bytes → Bytes
pk_index_key seg_id granule_id pk =
    pk_idx_prefix ++ (seg_id ++ (58 ∷ (to_le_bytes 4 granule_id ++ (58 ∷ pk))))

unfoldable pub pk_lookup_key : Bytes → Bytes
pk_lookup_key pk = pk_lookup_prefix ++ pk

unfoldable pub pk_skiplist_key : Str → ℕ → Bytes
pk_skiplist_key seg_id granule_id = pk_idx_prefix ++ (seg_id ++ (58 ∷ to_le_bytes 4 granule_id))

unfoldable pub find_byte : Bytes → ℕ → Option ℕ
find_byte [] b = none
find_byte (x ∷ xs) b =
    let rest = find_byte xs b in
    if x == b then some 0 else (elim rest [ none ↦ none | some i ↦ some (suc i) ])

after_seg : Str → Bytes → Option (Str × ℕ × Bytes)
after_seg seg_id bytes =
    if ltb (length bytes) 4 then none else some (seg_id, from_le_bytes (take 4 bytes), drop 4 bytes)

-- `from_utf8_lossy` is the standard library's
unfoldable pub parse_pk_index_key :
    (from_utf8_lossy : Bytes → Str) → Bytes → Option (Str × ℕ × Bytes)
unfolding after_seg
parse_pk_index_key from_utf8_lossy key =
    if take 7 key == pk_idx_prefix
    then (let rest = drop 7 key in
        elim (find_byte rest 58) [
          | none ↦ none
          | some first_colon ↦
              after_seg (from_utf8_lossy (take first_colon rest)) (drop (first_colon + 1) rest)
        ])
    else none

abbrev pub Entry : Type 0
Entry = Str × ℕ × ℕ

-- `map_err`
abbrev pub as_codec_error {ℓ} : {A : Type ℓ} → Result A → Result A
as_codec_error (ok a) = ok a
as_codec_error (err e) = err codec

-- The codec on the two kinds of values of the index.
pub record IndexCodec : Type 0 where
  pub encode : Entry → Result Bytes
  pub decode : Bytes → Result Entry
  pub encode_lookup : Str × ℕ × ℕ × Bytes → Result Bytes
  pub decode_lookup : Bytes → Result (Str × ℕ × ℕ × Bytes)

module _ (kv : KvEngine) (c : IndexCodec) where
  open kv use {Store}

  unfoldable pub put_pk_index_double : Store → Bytes → Str → ℕ → ℕ → Result (Unit {0}) × Store
  put_pk_index_double s pk seg_id granule_id row_offset =
      elim (c.encode (seg_id, granule_id, row_offset)) [
        | err e ↦ (err codec, s)
        | ok value ↦
            elim (c.encode_lookup
              (seg_id, granule_id, row_offset, pk_index_key seg_id granule_id pk)) [
                | err e ↦ (err codec, s)
                | ok lookup_value ↦ kv.write_batch s cf_pk_idx (
                    put_op (pk_index_key seg_id granule_id pk) value
                    ∷ put_op (pk_lookup_key pk) lookup_value
                    ∷ [])
              ]
      ]

  unfoldable pub delete_pk_index_double : Store → Bytes → Str → ℕ → Result (Unit {0}) × Store
  delete_pk_index_double s pk seg_id granule_id =
      let (r, s') = kv.delete s cf_pk_idx (pk_index_key seg_id granule_id pk) in
      elim r [ err e ↦ (err e, s') | ok u ↦ kv.delete s' cf_pk_idx (pk_lookup_key pk) ]

  unfoldable pub get_pk_index : Store → Bytes → Str → ℕ → Result (Option Entry)
  get_pk_index s pk seg_id granule_id = do
    found ← kv.get s cf_pk_idx (pk_index_key seg_id granule_id pk)
    elim found [
      | none ↦ ok none
      | some value ↦ (as_codec_error (c.decode value) >>= λ entry. ok (some entry))
    ]

  module _ (alias_key : Str → Bytes) (from_utf8 : Bytes → Option Str) where
    unfoldable pub get_pk_index_by_pk : Store → Bytes → Result (Option Entry)
    get_pk_index_by_pk s pk = do
      found ← kv.get s cf_pk_idx (pk_lookup_key pk)
      elim found [
        | none ↦ ok none
        | some value ↦ (do
          (seg_id, granule, row_offset, idx_key) ← as_codec_error (c.decode_lookup value)
          (final_seg_id, is_redirected) ← resolve_seg_id kv alias_key from_utf8 s seg_id
          if is_redirected
              then (do
                v ← kv.get s cf_pk_idx idx_key
                elim v [
                  | none ↦ ok none
                  | some bytes ↦
                      (as_codec_error (c.decode bytes) >>= λ entry.
                      ok (some (final_seg_id, entry.1, entry.2)))
                ])
              else ok (some (seg_id, granule, row_offset)))
      ]
