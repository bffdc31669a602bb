-- ===== src/Wal/Recovery.antt =====
-- src/write/wal_recovery.rs: the replay of the log. `apply` is the closure that the database passes,
-- over a state of its own. What the classification of its errors decides is only what is logged:
-- no error is classified as fatal, and every kind ends the transaction as failed.
pub mod Committed
pub mod Safety
pub mod Atomic
use rockduck.Prelude.{
  nat_eq, ℕ, suc, Bool, true, false, Option, none, some, List, [], ◌∷◌, ◌++◌, length, ltb,
  if◌then◌else◌,
}
use rockduck.Error.{Result, ok, err}
use rockduck.Std.HashMap
use rockduck.Std.HashMap.{HashMap}
use rockduck.Std.HashSet
use rockduck.Wal.Op.{
  OpType, begin_op, insert_op, delete_op, update_op, checkpoint_op, compaction_op, commit_op,
  rollback_op, OpPayload, commit_payload, WalOp,
}

-- The cells that the closure of the replay shares with its caller.
pub record ReplayState : Type 0 where
  pub pending : HashMap ℕ (List WalOp)
  pub begin_records : HashMap ℕ ℕ
  pub seen_begins : List ℕ
  pub last_committed : ℕ
  pub max_seen_committed : ℕ
  pub committed_count : ℕ
  pub active_txns : List (ℕ × ℕ)
  pub commit_ts_map : HashMap ℕ ℕ
  pub inserted_at_map : HashMap ℕ ℕ
  pub max_inserted_at : ℕ
  pub committed_ops : List WalOp
  pub failed_count : ℕ

abbrev pub initial : ReplayState
initial = record {
  pending = [];
  begin_records = [];
  seen_begins = [];
  last_committed = 0;
  max_seen_committed = 0;
  committed_count = 0;
  active_txns = [];
  commit_ts_map = [];
  inserted_at_map = [];
  max_inserted_at = 0;
  committed_ops = [];
  failed_count = 0;
}

pub record RecoveryResult : Type 0 where
  pub last_committed_txn : ℕ
  pub max_seen_committed_txn : ℕ
  pub committed_count : ℕ
  pub discarded_count : ℕ
  pub active_txns : List (ℕ × ℕ)
  pub commit_ts_map : HashMap ℕ ℕ
  pub inserted_at_map : HashMap ℕ ℕ
  pub committed_ops : List WalOp
  pub replay_watermark : ℕ

-- `unwrap_or_default` of the pending operations
abbrev pub ops_of : Option (List WalOp) → List WalOp
ops_of none = []
ops_of (some ops) = ops

-- `if x > *m { *m = x }`
abbrev pub raise : ℕ → ℕ → ℕ
raise m x = if ltb m x then x else m

-- What a commit record says: the begin timestamp, and the time of insertion if it has one.
abbrev pub commit_fields : WalOp → ℕ × Option ℕ
commit_fields op = elim op.payload [
  | commit_payload begin_ts inserted_at ↦ (begin_ts, inserted_at)
  | _ ↦ (op.txn_id, none)
]

abbrev pub record_inserted_at : ReplayState → ℕ → Option ℕ → ReplayState
record_inserted_at st txn none = st
record_inserted_at st txn (some ia) = record st {
  inserted_at_map = HashMap.insert st.inserted_at_map txn ia;
  max_inserted_at = raise st.max_inserted_at ia;
}

-- The part of the commit arm before the operations are applied.
abbrev pub note_commit : ReplayState → WalOp → ReplayState
note_commit st op =
    let (begin_ts, inserted_at) = commit_fields op in
    let st' = record_inserted_at st op.txn_id inserted_at in
    record st' {
      pending = HashMap.remove st.pending op.txn_id;
      begin_records = HashMap.remove st.begin_records op.txn_id;
      seen_begins = HashSet.remove st.seen_begins op.txn_id;
      max_seen_committed = raise st.max_seen_committed op.txn_id;
      commit_ts_map = HashMap.insert st.commit_ts_map op.txn_id begin_ts;
      active_txns = st.active_txns ++ ((op.txn_id, begin_ts) ∷ []);
    }

abbrev pub finish_txn : ReplayState → ℕ → List WalOp → Bool → ReplayState
finish_txn st txn ops true = record st {
  last_committed = raise st.last_committed txn;
  committed_count = suc st.committed_count;
  committed_ops = st.committed_ops ++ ops;
}
finish_txn st txn ops false = record st { failed_count = suc st.failed_count }

module _ {S : Type 0} (apply : S → WalOp → Result (Unit {0}) × S) where
  -- The loop over the operations of one transaction: the first error ends it.
  abbrev pub apply_ops : S → List WalOp → Bool × S
  apply_ops db [] = (true, db)
  apply_ops db (op ∷ ops) =
      let (r, db') = apply db op in elim r [ ok u ↦ apply_ops db' ops | err e ↦ (false, db') ]

  abbrev pub apply_txn : ReplayState → S → ℕ → List WalOp → ReplayState × S
  apply_txn st db txn [] = (st, db)
  apply_txn st db txn (op ∷ ops) =
      let (success, db') = apply_ops db (op ∷ ops) in (finish_txn st txn (op ∷ ops) success, db')

  -- The closure: one record of the log.
  unfoldable pub replay_op : ReplayState → S → WalOp → ReplayState × S
  replay_op st db op =
      let pending_ops = ops_of (HashMap.get st.pending op.txn_id) in
      let pushed = record st {
        pending = HashMap.insert st.pending op.txn_id (pending_ops ++ (op ∷ []));
      } in
      elim op.op_type [
        | insert_op ↦ (pushed, db)
        | delete_op ↦ (pushed, db)
        | update_op ↦ (pushed, db)
        | begin_op ↦ (
          record st {
            pending = HashMap.insert st.pending op.txn_id pending_ops;
            seen_begins = HashSet.insert st.seen_begins op.txn_id;
            begin_records = HashMap.insert st.begin_records op.txn_id op.txn_id;
          },
          db,
        )
        | commit_op ↦ apply_txn (note_commit st op) db op.txn_id pending_ops
        | rollback_op ↦ (record st { pending = HashMap.remove st.pending op.txn_id }, db)
        | checkpoint_op ↦ (st, db)
        | compaction_op ↦ (st, db)
      ]

  unfoldable pub replay_each : ReplayState → S → List WalOp → ReplayState × S
  replay_each st db [] = (st, db)
  replay_each st db (op ∷ log) = let (st', db') = replay_op st db op in replay_each st' db' log

  -- The log as it was read; an error of the reader itself, which ends the recovery, is left out.
  unfoldable pub replay_committed_ops : S → List WalOp → RecoveryResult × S
  replay_committed_ops db log =
      let (st, db') = replay_each initial db log in
      (
        record {
          last_committed_txn = st.last_committed;
          max_seen_committed_txn = st.max_seen_committed;
          committed_count = st.committed_count;
          discarded_count = length st.pending;
          active_txns = st.active_txns;
          commit_ts_map = st.commit_ts_map;
          inserted_at_map = st.inserted_at_map;
          committed_ops = st.committed_ops;
          replay_watermark = st.max_inserted_at;
        },
        db',
      )
