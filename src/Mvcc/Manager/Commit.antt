-- ===== src/Mvcc/Manager/Commit.antt =====
-- src/mvcc/visibility.rs: a commit that is refused, and what the snapshot after a commit shows.
use rockduck.Prelude.{
  nat_eq, list_eq, ℕ, ◌<◌, ◌≡◌, ◌≢◌, refl, ap, ◌∙◌, Bool, true, false, Option, none, some, Bytes,
  arith, inl, inr, any, ==_refl, Bool-cases,
}
use rockduck.Error.{Result, ok}
use rockduck.Std.HashMap
use rockduck.Meta.Kv.{KvEngine}
use rockduck.Mvcc.TxnMeta.{TxnId, TxnMeta}
use rockduck.Mvcc.Snapshot.{TxnSnapshot, snapshot}
use rockduck.Mvcc.Manager.Conflict.Reference.{conflicts_with, is_hit, conflict_of-eq-any}
use rockduck.Mvcc.Manager.History.Retention.{get-prune_history}
use rockduck.Mvcc.Manager.{
  VisibilityManager, abort_txn, committed_state, finish_commit, commit_txn, take_snapshot,
  is_visible,
}
use rockduck.Mvcc.Manager.Transitions.{IsValid, committed_state-IsValid}
use rockduck.Mvcc.Manager.Snapshots.{is_visible-take_snapshot_iff}

-- The result of a commit that was refused: an error, and the transaction aborted.
pub record IsRefused (kv : KvEngine) (encode : ℕ × ℕ → Result Bytes) (m : VisibilityManager)
    (s : kv.Store) (txn_id : TxnId) (r : Result TxnSnapshot × VisibilityManager × kv.Store)
    : Type 0 where
  pub fails : (snap : TxnSnapshot) → r.0 ≢ ok snap
  pub manager : r.1 ≡ (abort_txn kv encode m s txn_id).1
  pub store : r.2 ≡ (abort_txn kv encode m s txn_id).2

module _ (kv : KvEngine) (encode : ℕ × ℕ → Result Bytes) (m : VisibilityManager) (s : kv.Store)
    (txn_id : TxnId) (inserted_at ts now_ms : ℕ) where
  finish_commit-IsRefused :
      (c : Option (TxnId × Bool × Bool))
      → is_hit c ≡ true
      → IsRefused kv encode m s txn_id (finish_commit kv encode m s txn_id inserted_at ts now_ms c)
  unfolding finish_commit
  finish_commit-IsRefused none h = absurd (ground arith)
  finish_commit-IsRefused (some (other, read_write, write_write)) h = record {
    fails = λ snap. ground arith;
    manager = refl;
    store = refl;
  }

  -- A commit of an active transaction whose keys meet those of another active transaction fails,
  -- and aborts it: the manager and the store are those after a rollback.
  pub commit_txn-conflict :
      (meta : TxnMeta)
      → HashMap.get m.active_txns txn_id ≡ some meta
      → any (conflicts_with txn_id meta) m.active_txns ≡ true
      → IsRefused kv encode m s txn_id (commit_txn kv encode m s txn_id inserted_at ts now_ms)
  unfolding commit_txn
  commit_txn-conflict meta e h =
      rw (e, commit_txn)
        (finish_commit-IsRefused _ (conflict_of-eq-any txn_id m.active_txns meta ∙ h))

-- The entry that a commit leaves for its transaction, if pruning keeps it, has its commit time.
committed_entry :
    (m : VisibilityManager) (txn_id : TxnId) (inserted_at ts now_ms : ℕ) (v : ℕ × ℕ)
    → IsValid m
    → HashMap.get (committed_state m txn_id inserted_at ts now_ms).committed_history txn_id ≡ some v
    → v ≡ (ts, inserted_at)
unfolding committed_state
committed_entry m txn_id inserted_at ts now_ms v valid h =
    let inserted = HashMap.insert m.committed_history txn_id (ts, inserted_at) in
    let unique =
      HashMap.insert-IsUnique m.committed_history txn_id (ts, inserted_at) valid.unique_history in
    cc (
      (get-prune_history m.config m.replay_watermark now_ms inserted unique txn_id v.0 v.1 h).0,
      HashMap.get-insert m.committed_history txn_id (ts, inserted_at) txn_id,
      ==_refl txn_id,
    )

committed_txn-le :
    (m : VisibilityManager) (txn_id : TxnId) (inserted_at ts now_ms : ℕ)
    → m.committed_txn < ts
    → txn_id < ts
    → (committed_state m txn_id inserted_at ts now_ms).committed_txn < ts
unfolding committed_state
committed_txn-le m txn_id inserted_at ts now_ms h k = ground arith

-- Where the clock is past the transaction identifiers, the snapshot taken right after a commit
-- shows no row that the transaction created.
pub commit-hides_own_rows :
    (m : VisibilityManager) (txn_id : TxnId) (inserted_at ts now_ms : ℕ)
    (deleted_txn : Option TxnId)
    → IsValid m
    → m.committed_txn < ts
    → txn_id < ts
    → is_visible
        (committed_state m txn_id inserted_at ts now_ms)
        (take_snapshot (committed_state m txn_id inserted_at ts now_ms) snapshot)
        txn_id
        deleted_txn
      ≡ false
commit-hides_own_rows m txn_id inserted_at ts now_ms deleted_txn v h k =
    let m' = committed_state m txn_id inserted_at ts now_ms in
    let valid = committed_state-IsValid m txn_id inserted_at ts now_ms v in
    elim (Bool-cases (is_visible m' (take_snapshot m' snapshot) txn_id deleted_txn)) [
      | inl shown ↦
          let c = ((is_visible-take_snapshot_iff m' valid snapshot txn_id deleted_txn).0 shown).0 in
          absurd (
            omega (
              arith,
              c.reached,
              ap (λ (e : ℕ × ℕ). e.0)
                  (committed_entry m txn_id inserted_at ts now_ms (c.commit_ts, c.inserted_at) v
                    c.found),
              committed_txn-le m txn_id inserted_at ts now_ms h k,
            ))
      | inr hidden ↦ hidden
    ]
