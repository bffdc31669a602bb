-- ===== src/Delta/MemStore/Durable.antt =====
-- src/storage/delta/mem_store.rs: `put`, and the log records that it and the flushes write.
use rockduck.Prelude.{
  ◌++◌, ◌≡◌, refl, arith, Bool-cases, inl, inr, ℕ, ◌-◌, Bool, ◌&&◌, ◌||◌, Option, none, some, List,
  [], ◌∷◌, Bytes, length, leb, ltb, if◌then◌else◌,
}
use rockduck.Error.{Result, ok, err, write}
use rockduck.Std.Int.{to_le_bytes}
use rockduck.Wal.Op.{
  OpType, insert_op, update_op, delete_op, OpPayload, insert_payload, update_payload,
  delete_payload, WalWriter,
}
use rockduck.Delta.Cell.{DeltaCell, is_insert, is_update, is_delete}
use rockduck.Std.BTreeMap
use rockduck.Delta.MemStore.{
  delta_key, delta_key_ord, SyncLevel, immediate, batch, asynchronous, DeltaMemStore, insert_hot,
}

-- `unwrap_or_default` of an image
abbrev bytes_or_empty : Option Bytes → Bytes
bytes_or_empty none = []
bytes_or_empty (some v) = v

-- The payloads that the four writers build of a cell.
abbrev pub insert_of : DeltaCell → OpPayload
insert_of d = insert_payload (record {
  table = [];
  pk = to_le_bytes 8 d.row_offset;
  columns = d.column ∷ [];
  wal_batch = bytes_or_empty d.after;
  schema_bytes = [];
  seg_id = d.seg_id;
  granule_id = 0;
  offset = d.row_offset;
})

abbrev pub update_of : DeltaCell → OpPayload
update_of d = update_payload (record {
  table = [];
  pk = to_le_bytes 8 d.row_offset;
  columns = d.column ∷ [];
  wal_batch = bytes_or_empty d.after;
  schema_bytes = [];
  old_columns = (d.column, bytes_or_empty d.before) ∷ [];
  old_seg_id = d.seg_id;
  old_granule_id = 0;
  old_offset = d.row_offset;
  new_seg_id = d.seg_id;
  new_granule_id = 0;
  offset = d.row_offset;
})

abbrev pub delete_of : DeltaCell → OpPayload
delete_of d = delete_payload (record {
  table = [];
  pk = to_le_bytes 8 d.row_offset;
  before_row = (d.column, bytes_or_empty d.before) ∷ [];
  seg_id = d.seg_id;
  granule_id = 0;
  offset = d.row_offset;
})

-- The payload that `write_wal_sync` and `write_wal_async` match out; neither image makes none.
unfoldable pub put_payload : DeltaCell → Option OpPayload
put_payload d =
    if is_update d
    then some (update_of d)
    else if is_insert d
    then some (insert_of d)
    else if is_delete d
    then some (delete_of d)
    else none

-- The type and the payload of a cell of the log buffer.
unfoldable pub batch_record : DeltaCell → OpType × OpPayload
batch_record d =
    if is_update d
    then (update_op, update_of d)
    else if is_insert d
    then (insert_op, insert_of d)
    else (delete_op, delete_of d)

-- `map_err`
abbrev pub as_write_error : Result (Unit {0}) → Result (Unit {0})
as_write_error (ok u) = ok u
as_write_error (err e) = err write

module _ (wal : WalWriter) where
  open wal use {Log}

  -- Both put their record under `OpType::Insert`.
  unfoldable pub write_wal_sync : DeltaMemStore → Log → DeltaCell → Result (Unit {0}) × Log
  write_wal_sync s log d = elim (put_payload d) [
    | none ↦ (ok tt, log)
    | some payload ↦
        if s.has_wal
        then (let (r, log') = wal.append_durable log insert_op d.txn_id payload in
            (as_write_error r, log'))
        else (ok tt, log)
  ]

  unfoldable pub write_wal_async : DeltaMemStore → Log → DeltaCell → Result (Unit {0}) × Log
  write_wal_async s log d = elim (put_payload d) [
    | none ↦ (ok tt, log)
    | some payload ↦
        if s.has_wal
        then (let (r, log') = wal.append log insert_op d.txn_id payload in (as_write_error r, log'))
        else (ok tt, log)
  ]

  -- The loop over the drained buffer: the first failure ends it.
  abbrev pub append_all : Log → List DeltaCell → Result (Unit {0}) × Log
  append_all log [] = (ok tt, log)
  append_all log (d ∷ ds) =
      let (op_type, payload) = batch_record d in
      let (r, log') = wal.append_durable log op_type d.txn_id payload in
      elim r [ ok u ↦ append_all log' ds | err e ↦ (err write, log') ]

  -- The drain that `sync_wal_before_flush` and `flush_wal_buffer_if_needed` share.
  abbrev pub drain_wal_buffer : DeltaMemStore → Log → ℕ → Result ℕ × DeltaMemStore × Log
  drain_wal_buffer s log now = elim s.wal_buffer [
    | [] ↦ (ok 0, s, log)
    | d ∷ ds ↦
        let s' = record s { wal_buffer = []; last_wal_flush = now } in
        if s.has_wal
        then (let (r, log') = append_all log (d ∷ ds) in
            (elim r [ ok u ↦ ok (length (d ∷ ds)) | err e ↦ err e ], s', log'))
        else (ok (length (d ∷ ds)), s', log)
  ]

  unfoldable pub sync_wal_before_flush : DeltaMemStore → Log → ℕ → Result ℕ × DeltaMemStore × Log
  sync_wal_before_flush s log now = drain_wal_buffer s log now

  -- `elapsed > batch_ms` is in whole milliseconds here
  abbrev pub is_due : DeltaMemStore → ℕ → Bool
  is_due s now =
      leb s.batch_max_pending (length s.wal_buffer)
      || (ltb 0 (length s.wal_buffer) && ltb s.batch_ms (now - s.last_wal_flush))

  unfoldable pub flush_wal_buffer_if_needed :
      DeltaMemStore → Log → ℕ → Result ℕ × DeltaMemStore × Log
  flush_wal_buffer_if_needed s log now = elim s.sync_level [
    | batch ms max_pending ↦ if is_due s now then drain_wal_buffer s log now else (ok 0, s, log)
    | _ ↦ (ok 0, s, log)
  ]

  -- `put` under each sync level, up to the insertion into the hot buffer.
  abbrev pub put_wal : DeltaMemStore → Log → DeltaCell → ℕ → Result (Unit {0}) × DeltaMemStore × Log
  put_wal s log d now = elim s.sync_level [
    | immediate ↦ let (r, log') = write_wal_sync s log d in (r, s, log')
    | batch ms max_pending ↦
        let (r, s', log') =
          flush_wal_buffer_if_needed (record s { wal_buffer = s.wal_buffer ++ (d ∷ []) }) log now in
        (ok tt, s', log')
    | asynchronous ↦ let (r, log') = write_wal_async s log d in (r, s, log')
  ]

  unfoldable pub put : DeltaMemStore → Log → DeltaCell → ℕ → Result (Unit {0}) × DeltaMemStore × Log
  put s log d now =
      if s.shutdown
      then (ok tt, s, log)
      else let (r, s', log') = put_wal s log d now in
        elim r [ ok u ↦ (ok tt, insert_hot s' d, log') | err e ↦ (err e, s', log') ]

  drain_wal_buffer-hot :
      (s : DeltaMemStore) (log : Log) (now : ℕ) (l : List DeltaCell)
      → s.wal_buffer ≡ l
      → ((drain_wal_buffer s log now).1).hot ≡ s.hot
  drain_wal_buffer-hot s log now [] h = rw (h, drain_wal_buffer) refl
  drain_wal_buffer-hot s log now (d ∷ ds) h = elim (Bool-cases s.has_wal) [
    | inl e ↦ rw (h, drain_wal_buffer, e) refl
    | inr e ↦ rw (h, drain_wal_buffer, e) refl
  ]

  flush_wal_buffer_if_needed-hot :
      (s : DeltaMemStore) (log : Log) (now : ℕ)
      → ((flush_wal_buffer_if_needed s log now).1).hot ≡ s.hot
  unfolding flush_wal_buffer_if_needed
  flush_wal_buffer_if_needed-hot s log now =
      ground (arith, drain_wal_buffer-hot s log now s.wal_buffer refl)

  put_wal-hot :
      (s : DeltaMemStore) (log : Log) (d : DeltaCell) (now : ℕ) (l : SyncLevel)
      → s.sync_level ≡ l
      → ((put_wal s log d now).1).hot ≡ s.hot
  put_wal-hot s log d now immediate h = rw (h, put_wal) refl
  put_wal-hot s log d now asynchronous h = rw (h, put_wal) refl
  put_wal-hot s log d now (batch ms max_pending) h =
      rw (h, put_wal)
        (flush_wal_buffer_if_needed-hot (record s { wal_buffer = s.wal_buffer ++ (d ∷ []) }) log
          now)

  -- A write puts its cell into the hot buffer exactly when it succeeds and the store is not shut
  -- down: a log record that fails leaves the buffer as it was.
  pub put-hot :
      (s : DeltaMemStore) (log : Log) (d : DeltaCell) (now : ℕ)
      → ((put s log d now).1).hot ≡ (
          if s.shutdown then s.hot else (elim (put s log d now).0 [
            | ok u ↦ BTreeMap.insert s.hot (delta_key d) d
            | err e ↦ s.hot
          ]))
  unfolding put
  put-hot s log d now = ground (arith, put_wal-hot s log d now s.sync_level refl)

  -- After a drain the log buffer is empty, even when the log refused a record: the cells behind
  -- the refused one are in neither.
  pub sync_wal_before_flush-wal_buffer :
      (s : DeltaMemStore) (log : Log) (now : ℕ)
      → ((sync_wal_before_flush s log now).1).wal_buffer ≡ []
  unfolding sync_wal_before_flush
  sync_wal_before_flush-wal_buffer s log now = ground arith
