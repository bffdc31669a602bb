-- ===== src/Mvcc/Manager/Transitions.antt =====
-- src/mvcc/visibility.rs: `begin_txn`, `commit_txn` and `rollback_txn` keep the invariant of the
-- manager.
use rockduck.Prelude.{
  nat_eq, list_eq, ℕ, ◌≤◌, ◌<◌, ◌≡◌, Bool, Option, none, some, Bytes, arith, inl, inr, leb, ==_iff,
  Option-cases, Bool-cases,
}
use rockduck.Error.{Result}
use rockduck.Std.HashMap
use rockduck.Std.HashMap.{IsUnique}
use rockduck.Meta.Kv.{KvEngine}
use rockduck.Mvcc.TxnMeta
use rockduck.Mvcc.TxnMeta.{TxnId, TxnMeta}
use rockduck.Mvcc.Manager.History.{CommitHistory, prune_history}
use rockduck.Mvcc.Manager.History.Retention.{prune_history-IsUnique, get-prune_history}
use rockduck.Mvcc.Manager.{
  VisibilityManager, modify_active, begin_txn, abort_txn, committed_state, finish_commit,
  commit_txn,
}

-- The manager's invariant: no map has a key twice, the committed transactions are at most
-- `committed_txn`, and no transaction is both active and committed.
pub record IsValid (m : VisibilityManager) : Type 0 where
  pub unique_active : IsUnique m.active_txns
  pub unique_history : IsUnique m.committed_history
  pub history_bound :
      (k : TxnId) (v : ℕ × ℕ) → HashMap.get m.committed_history k ≡ some v → k ≤ m.committed_txn
  pub exclusive :
      (k : TxnId) (meta : TxnMeta)
      → HashMap.get m.active_txns k ≡ some meta
      → HashMap.get m.committed_history k ≡ none

pub modify_active-IsValid :
    (m : VisibilityManager) (txn_id : TxnId) (f : TxnMeta → TxnMeta)
    → IsValid m
    → IsValid (modify_active m txn_id f)
unfolding modify_active
modify_active-IsValid m txn_id f v = elim (Option-cases (HashMap.get m.active_txns txn_id)) [
  | inl e ↦ rw (e, modify_active) v
  | inr (meta, e) ↦
      rw (e, modify_active)
        (record {
          unique_active = HashMap.insert-IsUnique m.active_txns txn_id (f meta) v.unique_active;
          unique_history = v.unique_history;
          history_bound = v.history_bound;
          exclusive = λ k meta' h. ground (
            arith,
            HashMap.get-insert m.active_txns txn_id (f meta) k,
            ==_iff txn_id k,
            v.exclusive k meta',
            v.exclusive k meta,
          );
        })
]

pub committed_state-IsValid :
    (m : VisibilityManager) (txn_id : TxnId) (inserted_at ts now_ms : ℕ)
    → IsValid m
    → IsValid (committed_state m txn_id inserted_at ts now_ms)
unfolding committed_state
committed_state-IsValid m txn_id inserted_at ts now_ms v = record {
  unique_active = HashMap.remove-IsUnique m.active_txns txn_id v.unique_active;
  unique_history = prune_history-IsUnique m.config m.replay_watermark now_ms inserted unique;
  history_bound = λ k w h. ground (
    arith,
    kept k w h,
    HashMap.get-insert m.committed_history txn_id (ts, inserted_at) k,
    ==_iff txn_id k,
    v.history_bound k w,
  );
  exclusive = λ k meta h. elim (Option-cases (HashMap.get pruned k)) [
    | inl e ↦ e
    | inr (w, e) ↦ absurd (
        ground (
          arith,
          kept k w e,
          HashMap.get-insert m.committed_history txn_id (ts, inserted_at) k,
          HashMap.get-remove m.active_txns txn_id k,
          v.exclusive k meta,
        ))
  ];
}
  where
    inserted : CommitHistory
    inserted = HashMap.insert m.committed_history txn_id (ts, inserted_at)

    unique : IsUnique inserted
    unique = HashMap.insert-IsUnique m.committed_history txn_id (ts, inserted_at) v.unique_history

    pruned : CommitHistory
    pruned = prune_history m.config m.replay_watermark now_ms inserted

    kept : (k : TxnId) (w : ℕ × ℕ) → HashMap.get pruned k ≡ some w → HashMap.get inserted k ≡ some w
    kept k w h =
        (get-prune_history m.config m.replay_watermark now_ms inserted unique k w.0 w.1 h).0

fresh-not_committed :
    (m : VisibilityManager) (txn_id : TxnId)
    → IsValid m
    → m.committed_txn < txn_id
    → HashMap.get m.committed_history txn_id ≡ none
fresh-not_committed m txn_id v h = elim (Option-cases (HashMap.get m.committed_history txn_id)) [
  | inl e ↦ e
  | inr (w, e) ↦ absurd (omega (arith, v.history_bound txn_id w e))
]

begun-IsValid :
    (m : VisibilityManager) (txn_id : TxnId)
    → IsValid m
    → m.committed_txn < txn_id
    → IsValid (record m { active_txns = HashMap.insert m.active_txns txn_id (TxnMeta.new txn_id) })
begun-IsValid m txn_id v h = record {
  unique_active = HashMap.insert-IsUnique m.active_txns txn_id (TxnMeta.new txn_id) v.unique_active;
  unique_history = v.unique_history;
  history_bound = v.history_bound;
  exclusive = λ k meta e. ground (
    arith,
    HashMap.get-insert m.active_txns txn_id (TxnMeta.new txn_id) k,
    ==_iff txn_id k,
    v.exclusive k meta,
    fresh-not_committed m txn_id v h,
  );
}

module _ (kv : KvEngine) (encode : ℕ × ℕ → Result Bytes) (m : VisibilityManager) (s : kv.Store)
    (v : IsValid m) where
  pub begin_txn-IsValid : (txn_id : TxnId) → IsValid (begin_txn kv encode m s txn_id).1
  unfolding begin_txn
  begin_txn-IsValid txn_id = elim (Bool-cases (HashMap.contains_key m.active_txns txn_id)) [
    | inl e ↦ rw (e, begin_txn) v
    | inr e ↦ elim (Bool-cases (leb txn_id m.committed_txn)) [
      | inl old ↦ rw (e, old, begin_txn) v
      | inr fresh ↦ rw (e, fresh, begin_txn) (begun-IsValid m txn_id v (ground arith))
    ]
  ]

  pub abort_txn-IsValid : (txn_id : TxnId) → IsValid (abort_txn kv encode m s txn_id).1
  unfolding abort_txn
  abort_txn-IsValid txn_id = record {
    unique_active = HashMap.remove-IsUnique m.active_txns txn_id v.unique_active;
    unique_history = v.unique_history;
    history_bound = v.history_bound;
    exclusive =
        λ k meta e. ground (arith, HashMap.get-remove m.active_txns txn_id k, v.exclusive k meta);
  }

  finish_commit-IsValid :
      (txn_id : TxnId) (inserted_at ts now_ms : ℕ) (c : Option (TxnId × Bool × Bool))
      → IsValid (finish_commit kv encode m s txn_id inserted_at ts now_ms c).1
  unfolding finish_commit
  finish_commit-IsValid txn_id inserted_at ts now_ms none =
      committed_state-IsValid m txn_id inserted_at ts now_ms v
  finish_commit-IsValid txn_id inserted_at ts now_ms (some (other, rw', ww)) =
      abort_txn-IsValid txn_id

  pub commit_txn-IsValid :
      (txn_id : TxnId) (inserted_at ts now_ms : ℕ)
      → IsValid (commit_txn kv encode m s txn_id inserted_at ts now_ms).1
  unfolding commit_txn
  commit_txn-IsValid txn_id inserted_at ts now_ms =
      elim (Option-cases (HashMap.get m.active_txns txn_id)) [
        | inl e ↦ rw (e, commit_txn) v
        | inr (meta, e) ↦ rw (e, commit_txn) (finish_commit-IsValid txn_id inserted_at ts now_ms _)
      ]
