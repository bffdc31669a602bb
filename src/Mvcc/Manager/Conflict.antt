-- ===== src/Mvcc/Manager/Conflict.antt =====
-- src/mvcc/visibility.rs: the conflict detection of `commit_txn`, over an index from keys to
-- transactions.
pub mod Reference
use rockduck.Prelude.{
  nat_eq, list_eq, ℕ, Bool, true, false, Option, none, some, List, [], ◌∷◌, ◌++◌, Bytes,
  if◌then◌else◌, ◌==◌,
}
use rockduck.Std.HashMap
use rockduck.Std.HashMap.{HashMap}
use rockduck.Mvcc.TxnMeta.{TxnId, TxnMeta}

-- key ↦ the transactions that wrote it, or that read it
abbrev pub KeyIndex : Type 0
KeyIndex = HashMap Bytes (List TxnId)

abbrev pub ids_of : Option (List TxnId) → List TxnId
ids_of none = []
ids_of (some ids) = ids

-- `entry(key).or_default().push(id)` for each key
push_keys : KeyIndex → List Bytes → TxnId → KeyIndex
push_keys index [] id = index
push_keys index (key ∷ keys) id =
    push_keys (HashMap.insert index key (ids_of (HashMap.get index key) ++ id ∷ [])) keys id

-- Phase 1, for the index that `keys_of` fills: the committing transaction and the recovered ones
-- are skipped.
pub build_index : (TxnMeta → List Bytes) → TxnId → KeyIndex → HashMap TxnId TxnMeta → KeyIndex
unfolding push_keys
build_index keys_of txn_id index [] = index
build_index keys_of txn_id index ((other_id, meta) ∷ active) =
    build_index keys_of txn_id
      (if other_id == txn_id
        then index
        else if meta.is_recovered
        then index
        else push_keys index (keys_of meta) other_id)
      active

-- the first transaction under a key
pub first_of_key : KeyIndex → Bytes → Option TxnId
first_of_key index key = elim (ids_of (HashMap.get index key)) [ [] ↦ none | id ∷ ids ↦ some id ]

-- Phase 2
pub find_reader_conflict : KeyIndex → List Bytes → Option TxnId
unfolding first_of_key
find_reader_conflict writers [] = none
find_reader_conflict writers (k ∷ ks) =
    let rest = find_reader_conflict writers ks in
    elim (first_of_key writers k) [ some id ↦ some id | none ↦ rest ]

-- Phase 3
pub find_writer_conflict : KeyIndex → KeyIndex → List Bytes → Option TxnId
unfolding first_of_key
find_writer_conflict readers writers [] = none
find_writer_conflict readers writers (k ∷ ks) =
    let rest = find_writer_conflict readers writers ks in
    elim (first_of_key readers k) [
      | some id ↦ some id
      | none ↦ elim (first_of_key writers k) [ some id ↦ some id | none ↦ rest ]
    ]

-- (conflicting_txn, read_write_conflict, write_write_conflict), if a flag is set
pub conflict_of : TxnId → TxnMeta → HashMap TxnId TxnMeta → Option (TxnId × Bool × Bool)
conflict_of txn_id txn_meta active =
    let key_writers = build_index (λ m. m.written_keys) txn_id [] active in
    let key_readers = build_index (λ m. m.read_keys) txn_id [] active in
    elim (find_reader_conflict key_writers txn_meta.read_keys) [
      | some id ↦ some (id, true, false)
      | none ↦ elim (find_writer_conflict key_readers key_writers txn_meta.written_keys) [
        | some id ↦ some (id, false, true)
        | none ↦ none
      ]
    ]
