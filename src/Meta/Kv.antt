-- ===== src/Meta/Kv.antt =====
-- src/metadata/kv_engine.rs and the records of src/metadata/kv_store.rs for active transactions and
-- segment aliases. The engine and the codec are not part of the repository: they are parameters.
use rockduck.Prelude.{ℕ, Bool, true, false, Option, none, some, List, [], ◌∷◌, ◌++◌, Bytes, Str}
use rockduck.Std.Int.{to_le_bytes}
use rockduck.Error.{codec, internal, Result, ok, err, ◌>>=◌}

-- A column family.
pub data Bucket : Type 0 where
  cf_pk_idx cf_mvcc cf_seg_alias : Bucket

pub data KvOp : Type 0 where
  put_op : Bytes → Bytes → KvOp
  delete_op : Bytes → KvOp

-- The trait `KVEngine`, for the calls that are modelled. A call may fail, and the store that it
-- leaves is then the engine's.
pub record KvEngine : Type 1 where
  pub Store : Type 0
  pub get : Store → Bucket → Bytes → Result (Option Bytes)
  pub put : Store → Bucket → Bytes → Bytes → Result (Unit {0}) × Store
  pub delete : Store → Bucket → Bytes → Result (Unit {0}) × Store
  pub write_batch : Store → Bucket → List KvOp → Result (Unit {0}) × Store

-- b"active_txns:"
abbrev key_active_txns : Bytes
key_active_txns = 97 ∷ 99 ∷ 116 ∷ 105 ∷ 118 ∷ 101 ∷ 95 ∷ 116 ∷ 120 ∷ 110 ∷ 115 ∷ 58 ∷ []

unfoldable pub active_txn_key : ℕ → Bytes
active_txn_key txn_id = key_active_txns ++ to_le_bytes 8 txn_id

module _ (kv : KvEngine) where
  open kv use {Store}

  -- `encode` is the codec's, on a pair of numbers
  unfoldable pub add_active_txn :
      (encode : ℕ × ℕ → Result Bytes) → Store → ℕ → ℕ → Result (Unit {0}) × Store
  add_active_txn encode s txn_id begin_ts = elim (encode (txn_id, begin_ts)) [
    | ok value ↦ kv.put s cf_mvcc (active_txn_key txn_id) value
    | err e ↦ (err codec, s)
  ]

  unfoldable pub remove_active_txn : Store → ℕ → Result (Unit {0}) × Store
  remove_active_txn s txn_id = kv.delete s cf_mvcc (active_txn_key txn_id)

  -- `alias_key` builds the key of an alias from the segment; `from_utf8` is the standard library's
  module _ (alias_key : Str → Bytes) (from_utf8 : Bytes → Option Str) where
    unfoldable pub put_segment_alias : Store → Str → Str → Result (Unit {0}) × Store
    put_segment_alias s old_seg_id new_seg_id =
        kv.put s cf_seg_alias (alias_key old_seg_id) new_seg_id

    unfoldable pub resolve_segment_alias : Store → Str → Result (Option Str)
    resolve_segment_alias s seg_id = do
      found ← kv.get s cf_seg_alias (alias_key seg_id)
      elim found [
        | some v ↦ elim (from_utf8 v) [ some id ↦ ok (some id) | none ↦ err internal ]
        | none ↦ ok none
      ]

    unfoldable pub resolve_seg_id : Store → Str → Result (Str × Bool)
    unfolding resolve_segment_alias
    resolve_seg_id s seg_id = do
      alias ← resolve_segment_alias s seg_id
      elim alias [ some redirected_id ↦ ok (redirected_id, true) | none ↦ ok (seg_id, false) ]
