-- ===== src/Mvcc/Manager/Clean.antt =====
-- src/mvcc/visibility.rs: the manager and the snapshot that a commit without a conflict leaves.
use rockduck.Prelude.{
  nat_eq, list_eq, ℕ, suc, ◌≤◌, ◌<◌, ◌≡◌, refl, sym, ◌∙◌, Bool, false, Option, none, some, [], ◌∷◌,
  Bytes, arith, any, max, elem, length, leb, if◌then◌else◌, ◌==◌,
}
use rockduck.Error.{Result, ok}
use rockduck.Std.HashMap
use rockduck.Std.HashSet
use rockduck.Meta.Kv.{KvEngine, remove_active_txn}
use rockduck.Mvcc.TxnMeta.{TxnId, TxnMeta}
use rockduck.Mvcc.Snapshot.{TxnSnapshot, snapshot}
use rockduck.Mvcc.Manager.Conflict.Reference.{conflicts_with, is_hit, conflict_of-eq-any}
use rockduck.Mvcc.Manager.History.{CommitHistory, cutoff}
use rockduck.Mvcc.Manager.History.Retention.{get-prune_history, prune_history-keeps}
use rockduck.Mvcc.Manager.{
  VisibilityManager, committed_state, finish_commit, commit_txn, take_snapshot,
}
use rockduck.Mvcc.Manager.Transitions.{IsValid, committed_state-IsValid}
use rockduck.Mvcc.Manager.Snapshots.{elem-active_ids, get-commit_ts_until}

length-insert_le :
    (history : CommitHistory) (k : TxnId) (v : ℕ × ℕ)
    → length (HashMap.insert history k v) ≤ suc (length history)
length-insert_le [] k v = omega arith
length-insert_le ((j, w) ∷ history) k v = ground (arith, length-insert_le history k v)

-- A transaction has left the active ones and has its commit time in the history, and `committed_txn` has
-- reached it. Every other transaction is as before, but that the history is pruned: what it keeps is not
-- older than the cutoff, and all of that is kept while there is room.
pub record IsCommitOf (m : VisibilityManager) (txn_id : TxnId) (inserted_at ts now_ms : ℕ)
    (m' : VisibilityManager) : Type 0 where
  pub active :
      (k : TxnId)
      → HashMap.get m'.active_txns k ≡ (if txn_id == k then none else HashMap.get m.active_txns k)
  pub recovered :
      (k : TxnId)
      → elem k m'.recovered_txns ≡ (if txn_id == k then false else elem k m.recovered_txns)
  pub reached : m'.committed_txn ≡ max m.committed_txn txn_id
  pub same_config : m'.config ≡ m.config
  pub same_watermark : m'.replay_watermark ≡ m.replay_watermark
  pub kept :
      (k : TxnId) (v : ℕ × ℕ)
      → HashMap.get m'.committed_history k ≡ some v
      → ((if txn_id == k then some (ts, inserted_at) else HashMap.get m.committed_history k)
          ≡ some v)
        × (cutoff m.config m.replay_watermark now_ms ≤ v.1)
  pub keeps :
      (k : TxnId) (v : ℕ × ℕ)
      → length m.committed_history < m.config.max_history_entries
      → (if txn_id == k then some (ts, inserted_at) else HashMap.get m.committed_history k) ≡ some v
      → cutoff m.config m.replay_watermark now_ms ≤ v.1
      → HashMap.get m'.committed_history k ≡ some v

-- A snapshot at `committed_txn`, with the active transactions and the commit times that are reached.
pub record IsSnapshotOf (m : VisibilityManager) (snap : TxnSnapshot) : Type 0 where
  pub at_committed : snap.snapshot_id ≡ m.committed_txn
  pub active : (k : TxnId) → elem k snap.active_txns ≡ HashMap.contains_key m.active_txns k
  pub times :
      (k : TxnId)
      → HashMap.get snap.commit_ts_map k
        ≡ HashMap.over
            (λ e. e.0)
            (HashMap.keep (λ e. leb (e.1).0 m.committed_txn) k (HashMap.get m.committed_history k))

take_snapshot-IsSnapshotOf :
    (m : VisibilityManager) → IsValid m → IsSnapshotOf m (take_snapshot m snapshot)
unfolding take_snapshot
take_snapshot-IsSnapshotOf m v = record {
  at_committed = refl;
  active = λ k. elem-active_ids m k;
  times = λ k. get-commit_ts_until m.committed_history v.unique_history m.committed_txn k;
}

committed_state-IsCommitOf :
    (m : VisibilityManager) (txn_id : TxnId) (inserted_at ts now_ms : ℕ)
    → IsValid m
    → IsCommitOf m txn_id inserted_at ts now_ms (committed_state m txn_id inserted_at ts now_ms)
unfolding committed_state
committed_state-IsCommitOf m txn_id inserted_at ts now_ms v =
    let inserted = HashMap.insert m.committed_history txn_id (ts, inserted_at) in
    let unique =
      HashMap.insert-IsUnique m.committed_history txn_id (ts, inserted_at) v.unique_history in
    record {
      active = λ k. HashMap.get-remove m.active_txns txn_id k;
      recovered = λ k. HashSet.elem-remove m.recovered_txns txn_id k;
      reached = ground arith;
      same_config = refl;
      same_watermark = refl;
      kept = λ k w h.
          let (a, b, c) =
            get-prune_history m.config m.replay_watermark now_ms inserted unique k w.0 w.1 h in
          (sym (HashMap.get-insert m.committed_history txn_id (ts, inserted_at) k) ∙ a, b);
      keeps = λ k w room h late.
          prune_history-keeps m.config m.replay_watermark now_ms inserted unique k w
            (omega (arith, room, length-insert_le m.committed_history txn_id (ts, inserted_at)))
            (HashMap.get-insert m.committed_history txn_id (ts, inserted_at) k ∙ h) late;
    }

module _ (kv : KvEngine) (encode : ℕ × ℕ → Result Bytes) (m : VisibilityManager) (s : kv.Store)
    (txn_id : TxnId) (inserted_at ts now_ms : ℕ) where
  finish_commit-clean :
      (c : Option (TxnId × Bool × Bool)) (s' : kv.Store)
      → is_hit c ≡ false
      → remove_active_txn kv s txn_id ≡ (ok tt, s')
      → finish_commit kv encode m s txn_id inserted_at ts now_ms c ≡ (
        ok (take_snapshot (committed_state m txn_id inserted_at ts now_ms) snapshot),
        committed_state m txn_id inserted_at ts now_ms,
        s',
      )
  unfolding finish_commit
  finish_commit-clean none s' h r = rw (r, finish_commit)
  finish_commit-clean (some c) s' h r = absurd (ground arith)

  -- On a valid manager, a commit of an active transaction that conflicts with no other succeeds when the
  -- store removes its record. The transaction has then left the active and the recovered ones, and its
  -- commit time is in the history, which is pruned; the others are as before. The snapshot that is
  -- returned is of the manager after the commit.
  pub commit_txn-clean :
      (meta : TxnMeta) (s' : kv.Store)
      → IsValid m
      → HashMap.get m.active_txns txn_id ≡ some meta
      → any (conflicts_with txn_id meta) m.active_txns ≡ false
      → remove_active_txn kv s txn_id ≡ (ok tt, s')
      → (snap : TxnSnapshot) × (m' : VisibilityManager) × (commit_txn kv encode m s txn_id
            inserted_at ts now_ms
          ≡ (ok snap, m', s'))
        × IsCommitOf m txn_id inserted_at ts now_ms m'
        × IsSnapshotOf m' snap
  unfolding commit_txn
  commit_txn-clean meta s' v e h r =
      let m' : VisibilityManager = committed_state m txn_id inserted_at ts now_ms in
      (
        take_snapshot m' snapshot,
        m',
        rw (e, commit_txn)
            (finish_commit-clean _ s' (conflict_of-eq-any txn_id m.active_txns meta ∙ h) r),
        committed_state-IsCommitOf m txn_id inserted_at ts now_ms v,
        take_snapshot-IsSnapshotOf m' (committed_state-IsValid m txn_id inserted_at ts now_ms v),
      )
