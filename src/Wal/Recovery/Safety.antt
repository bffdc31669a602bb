-- ===== src/Wal/Recovery/Safety.antt =====
-- src/write/wal_recovery.rs: the replay when operations fail to apply.
use rockduck.Prelude.{
  nat_eq, ℕ, ◌≡◌, ◌≤◌, refl, Bool, true, false, Option, none, some, List, [], ◌∷◌, arith,
}
use rockduck.Error.{Result}
use rockduck.Std.HashMap
use rockduck.Wal.Op.{
  OpType, begin_op, insert_op, delete_op, update_op, checkpoint_op, compaction_op, commit_op,
  rollback_op, WalOp,
}
use rockduck.Wal.Recovery.{
  ReplayState, initial, ops_of, note_commit, record_inserted_at, commit_fields, finish_txn,
  apply_ops, apply_txn, replay_op, replay_each, replay_committed_ops,
}

-- The bounds that the counters keep: no replayed transaction is above the highest commit record,
-- and no time of insertion is above the watermark.
pub record IsBounded (st : ReplayState) : Type 0 where
  pub committed : st.last_committed ≤ st.max_seen_committed
  pub inserted :
      (txn ia : ℕ) → HashMap.get st.inserted_at_map txn ≡ some ia → ia ≤ st.max_inserted_at

module _ {S : Type 0} (apply : S → WalOp → Result (Unit {0}) × S) where
  apply_txn-IsBounded :
      (st : ReplayState) (db : S) (txn : ℕ) (ops : List WalOp)
      → txn ≤ st.max_seen_committed
      → IsBounded st
      → IsBounded (apply_txn apply st db txn ops).0
  apply_txn-IsBounded st db txn [] h b = b
  apply_txn-IsBounded st db txn (op ∷ ops) h b = go (apply_ops apply db (op ∷ ops)).0
    where
      go : (success : Bool) → IsBounded (finish_txn st txn (op ∷ ops) success)
      go true = record { committed = ground (arith, b.committed); inserted = b.inserted }
      go false = record { committed = b.committed; inserted = b.inserted }

  record_inserted_at-IsBounded :
      (st : ReplayState) (txn : ℕ) (o : Option ℕ)
      → IsBounded st
      → IsBounded (record_inserted_at st txn o)
  record_inserted_at-IsBounded st txn none b = b
  record_inserted_at-IsBounded st txn (some ia) b = record {
    committed = b.committed;
    inserted =
        λ t x h. ground (arith, HashMap.get-insert st.inserted_at_map txn ia t, b.inserted t x);
  }

  last_committed-record_inserted_at :
      (st : ReplayState) (txn : ℕ) (o : Option ℕ)
      → (record_inserted_at st txn o).last_committed ≡ st.last_committed
  last_committed-record_inserted_at st txn none = refl
  last_committed-record_inserted_at st txn (some ia) = refl

  note_commit-IsBounded :
      (st : ReplayState) (op : WalOp)
      → IsBounded st
      → IsBounded (note_commit st op) × (op.txn_id ≤ (note_commit st op).max_seen_committed)
  note_commit-IsBounded st op b =
      let (begin_ts, inserted_at) = commit_fields op in
      let c = record_inserted_at-IsBounded st op.txn_id inserted_at b in
      let l = last_committed-record_inserted_at st op.txn_id inserted_at in
      (record { committed = ground (arith, l, b.committed); inserted = c.inserted }, ground arith)

  replay_op-IsBounded :
      (st : ReplayState) (db : S) (op : WalOp) (k : OpType)
      → op.op_type ≡ k
      → IsBounded st
      → IsBounded (replay_op apply st db op).0
  unfolding replay_op
  replay_op-IsBounded st db op insert_op e b =
      rw e (record { committed = b.committed; inserted = b.inserted })
  replay_op-IsBounded st db op delete_op e b =
      rw e (record { committed = b.committed; inserted = b.inserted })
  replay_op-IsBounded st db op update_op e b =
      rw e (record { committed = b.committed; inserted = b.inserted })
  replay_op-IsBounded st db op begin_op e b =
      rw e (record { committed = b.committed; inserted = b.inserted })
  replay_op-IsBounded st db op commit_op e b =
      let (c, d) = note_commit-IsBounded st op b in
      rw e (
        apply_txn-IsBounded (note_commit st op) db op.txn_id
          (ops_of (HashMap.get st.pending op.txn_id)) d c)
  replay_op-IsBounded st db op rollback_op e b =
      rw e (record { committed = b.committed; inserted = b.inserted })
  replay_op-IsBounded st db op checkpoint_op e b = rw e b
  replay_op-IsBounded st db op compaction_op e b = rw e b

  replay_each-IsBounded :
      (log : List WalOp) (st : ReplayState) (db : S)
      → IsBounded st
      → IsBounded (replay_each apply st db log).0
  unfolding replay_each
  replay_each-IsBounded [] st db b = b
  replay_each-IsBounded (op ∷ log) st db b =
      let next = replay_op apply st db op in
      replay_each-IsBounded log next.0 next.1 (replay_op-IsBounded st db op op.op_type refl b)

  -- Whatever fails to apply, the last transaction that is reported as replayed is no higher than the
  -- highest commit record, and every recovered time of insertion is at most the watermark.
  pub replay_committed_ops-bounds :
      (db : S) (log : List WalOp)
      → (((replay_committed_ops apply db log).0).last_committed_txn
          ≤ ((replay_committed_ops apply db log).0).max_seen_committed_txn)
        × ((txn ia : ℕ)
            → HashMap.get ((replay_committed_ops apply db log).0).inserted_at_map txn ≡ some ia
            → ia ≤ ((replay_committed_ops apply db log).0).replay_watermark)
  unfolding replay_committed_ops
  replay_committed_ops-bounds db log =
      let start : IsBounded initial = record {
        committed = omega arith;
        inserted = λ txn ia h. absurd (ground arith);
      } in
      let b = replay_each-IsBounded log initial db start in (b.committed, b.inserted)
