-- ===== src/Meta/PkIndex/Lookup.antt =====
-- src/metadata/pk_skiplist.rs: lookups after writes.
use rockduck.Prelude.{
  inl, inr, nat_eq, list_eq, ℕ, ◌≡◌, ◌≢◌, Option, none, some, [], ◌∷◌, Bytes, Str, arith,
}
use rockduck.Error.{Result-cases, ok}
use rockduck.Meta.Kv.{
  cf_pk_idx, cf_seg_alias, put_op, KvEngine, resolve_segment_alias, resolve_seg_id,
}
use rockduck.Meta.PkIndex.{
  pk_index_key, pk_lookup_key, Entry, IndexCodec, put_pk_index_double, get_pk_index,
  get_pk_index_by_pk,
}
use rockduck.Meta.PkIndex.Keys.{pk_index_key-pk_lookup_key}

-- After a batch of two writes the engine finds the value of either key.
pub record IsBatchDurable (kv : KvEngine) : Type 0 where
  pub get_second :
      (s s' : kv.Store) (k l v w : Bytes)
      → kv.write_batch s cf_pk_idx (put_op k v ∷ put_op l w ∷ []) ≡ (ok tt, s')
      → kv.get s' cf_pk_idx l ≡ ok (some w)
  pub get_first :
      (s s' : kv.Store) (k l v w : Bytes)
      → kv.write_batch s cf_pk_idx (put_op k v ∷ put_op l w ∷ []) ≡ (ok tt, s')
      → k ≢ l
      → kv.get s' cf_pk_idx k ≡ ok (some v)

-- What was encoded decodes to itself.
pub record IsRoundTrip (c : IndexCodec) : Type 0 where
  pub entry : (e : Entry) (b : Bytes) → c.encode e ≡ ok b → c.decode b ≡ ok e
  pub lookup :
      (e : Str × ℕ × ℕ × Bytes) (b : Bytes) → c.encode_lookup e ≡ ok b → c.decode_lookup b ≡ ok e

module _ (kv : KvEngine) (c : IndexCodec) (durable : IsBatchDurable kv)
    (codec_ok : IsRoundTrip c) where
  -- What a successful write has done.
  record Written (s s' : kv.Store) (pk : Bytes) (seg_id : Str) (granule_id row_offset : ℕ)
      : Type 0 where
    value : Bytes
    lookup_value : Bytes
    value_eq : c.encode (seg_id, granule_id, row_offset) ≡ ok value
    lookup_eq :
        c.encode_lookup (seg_id, granule_id, row_offset, pk_index_key seg_id granule_id pk)
        ≡ ok lookup_value
    batch :
        kv.write_batch s cf_pk_idx (
          put_op (pk_index_key seg_id granule_id pk) value
          ∷ put_op (pk_lookup_key pk) lookup_value
          ∷ [])
        ≡ (ok tt, s')

  put-Written :
      (s s' : kv.Store) (pk : Bytes) (seg_id : Str) (granule_id row_offset : ℕ)
      → put_pk_index_double kv c s pk seg_id granule_id row_offset ≡ (ok tt, s')
      → Written s s' pk seg_id granule_id row_offset
  unfolding put_pk_index_double
  put-Written s s' pk seg_id granule_id row_offset h =
      let key = pk_index_key seg_id granule_id pk in
      elim (Result-cases (c.encode (seg_id, granule_id, row_offset))) [
        | inl (e, q) ↦ absurd (ground arith)
        | inr (v, q) ↦ elim (Result-cases (c.encode_lookup (seg_id, granule_id, row_offset, key))) [
          | inl (e, r) ↦ absurd (ground arith)
          | inr (w, r) ↦ record {
            value = v;
            lookup_value = w;
            value_eq = q;
            lookup_eq = r;
            batch = ground arith;
          }
        ]
      ]

  pub get-put_pk_index_double :
      (alias_key : Str → Bytes) (from_utf8 : Bytes → Option Str) (s s' : kv.Store) (pk : Bytes)
      (seg_id : Str) (granule_id row_offset : ℕ)
      → put_pk_index_double kv c s pk seg_id granule_id row_offset ≡ (ok tt, s')
      → kv.get s' cf_seg_alias (alias_key seg_id) ≡ ok none
      → (get_pk_index kv c s' pk seg_id granule_id ≡ ok (some (seg_id, granule_id, row_offset)))
        × (get_pk_index_by_pk kv c alias_key from_utf8 s' pk
            ≡ ok (some (seg_id, granule_id, row_offset)))
  unfolding get_pk_index get_pk_index_by_pk resolve_seg_id resolve_segment_alias
  get-put_pk_index_double alias_key from_utf8 s s' pk seg_id granule_id row_offset h a =
      let w = put-Written s s' pk seg_id granule_id row_offset h in
      let key = pk_index_key seg_id granule_id pk in
      let first =
        durable.get_first s s' key (pk_lookup_key pk) w.value w.lookup_value w.batch
          (pk_index_key-pk_lookup_key seg_id granule_id pk pk) in
      let second = durable.get_second s s' key (pk_lookup_key pk) w.value w.lookup_value w.batch in
      let d = codec_ok.entry (seg_id, granule_id, row_offset) w.value w.value_eq in
      let l = codec_ok.lookup (seg_id, granule_id, row_offset, key) w.lookup_value w.lookup_eq in
      (ground (arith, first, d), ground (arith, second, l, a))
