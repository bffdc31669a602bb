-- ===== src/Wal/Op.antt =====
-- src/write/durability_wal.rs: the operations of the log. The log itself is a crate's, and its writer
-- is kept as the two calls that the stores make of it.
use rockduck.Prelude.{nat_eq, if◌then◌else◌, ◌==◌, ℕ, Bool, Option, none, some, List, Bytes, Str}
use rockduck.Error.{Result}

pub data OpType : Type 0 where
  begin_op insert_op delete_op update_op checkpoint_op compaction_op commit_op rollback_op : OpType

unfoldable pub op_type_from_u8 : ℕ → Option OpType
op_type_from_u8 v =
    if v == 1
    then some begin_op
    else if v == 2
    then some insert_op
    else if v == 3
    then some delete_op
    else if v == 4
    then some update_op
    else if v == 5
    then some checkpoint_op
    else if v == 6
    then some compaction_op
    else if v == 16
    then some commit_op
    else if v == 17
    then some rollback_op
    else none

pub record InsertPayload : Type 0 where
  pub table : Str
  pub pk : Bytes
  pub columns : List Str
  pub wal_batch : Bytes
  pub schema_bytes : Bytes
  pub seg_id : Str
  pub granule_id : ℕ
  pub offset : ℕ

pub record DeletePayload : Type 0 where
  pub table : Str
  pub pk : Bytes
  pub before_row : List (Str × Bytes)
  pub seg_id : Str
  pub granule_id : ℕ
  pub offset : ℕ

pub record UpdatePayload : Type 0 where
  pub table : Str
  pub pk : Bytes
  pub columns : List Str
  pub wal_batch : Bytes
  pub schema_bytes : Bytes
  pub old_columns : List (Str × Bytes)
  pub old_seg_id : Str
  pub old_granule_id : ℕ
  pub old_offset : ℕ
  pub new_seg_id : Str
  pub new_granule_id : ℕ
  pub offset : ℕ

pub data OpPayload : Type 0 where
  begin_payload : OpPayload
  insert_payload : InsertPayload → OpPayload
  delete_payload : DeletePayload → OpPayload
  update_payload : UpdatePayload → OpPayload
  checkpoint_payload : (checkpoint_id : ℕ) → OpPayload
  compaction_payload :
      (old_seg_id new_seg_id : Str) (pk_entries : Bytes) (commit : Bool) → OpPayload
  commit_payload : (begin_ts : ℕ) (inserted_at : Option ℕ) → OpPayload
  rollback_payload : OpPayload

pub record WalOp : Type 0 where
  pub op_type : OpType
  pub txn_id : ℕ
  pub payload : OpPayload

-- The writer of the log: `append_durable` returns once the record is on disk, `append` earlier.
pub record WalWriter : Type 1 where
  pub Log : Type 0
  pub append_durable : Log → OpType → ℕ → OpPayload → Result (Unit {0}) × Log
  pub append : Log → OpType → ℕ → OpPayload → Result (Unit {0}) × Log
