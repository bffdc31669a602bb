-- ===== src/Mvcc/Manager/Calls.antt =====
-- src/mvcc/visibility.rs: the calls that change the manager, as sequences.
use rockduck.Prelude.{
  nat_eq, list_eq, ℕ, ◌≤◌, ◌≡◌, refl, true, Option, none, some, List, [], ◌∷◌, Bytes, arith, ==_iff,
  ==_refl,
}
use rockduck.Error.{Result}
use rockduck.Std.HashMap
use rockduck.Std.HashSet
use rockduck.Std.HashMap.{HashMap}
use rockduck.Meta.Kv.{KvEngine}
use rockduck.Mvcc.TxnMeta
use rockduck.Mvcc.TxnMeta.{TxnId, TxnMeta}
use rockduck.Mvcc.Manager.History.{VisibilityConfig}
use rockduck.Mvcc.Manager.{
  VisibilityManager, record_read, record_write, begin_txn, rollback_txn, commit_txn,
  set_committed_txn, set_replay_watermark, recover_entry, recover_entries,
  recover_committed_history_with_config, recover_active_entries, recover_active_txns,
}
use rockduck.Mvcc.Manager.Recovered.{get-recover_entry}
use rockduck.Mvcc.Manager.Transitions.{
  IsValid, modify_active-IsValid, begin_txn-IsValid, abort_txn-IsValid, commit_txn-IsValid,
}

-- The calls, with what each reads from the clock. `recover_committed_history` is the recovery of a
-- history without an override and without times from the log.
pub data Call : Type 0 where
  begins rollbacks : TxnId → Call
  commits : TxnId → ℕ → ℕ → ℕ → Call
  reads writes : TxnId → Bytes → Call
  sets_committed sets_watermark : ℕ → Call
  recovers_history : List (TxnId × ℕ) → Option VisibilityConfig → HashMap TxnId ℕ → (now : ℕ) → Call
  recovers_active : List (TxnId × ℕ) → Call

-- What the caller has to see to: `committed_txn` is not set below the history, and no transaction is
-- recovered into one of the two maps while it is in the other. The other calls ask for nothing.
abbrev pub Allowed : VisibilityManager → Call → Type 0
Allowed m (sets_committed txn_id) =
    (k : TxnId) (v : ℕ × ℕ) → HashMap.get m.committed_history k ≡ some v → k ≤ txn_id
Allowed m (recovers_history history config wal_inserted_at now) =
    (k : TxnId) → HashMap.contains_key history k ≡ true → HashMap.get m.active_txns k ≡ none
Allowed m (recovers_active active) =
    (k : TxnId) → HashMap.contains_key active k ≡ true → HashMap.get m.committed_history k ≡ none
Allowed m _ = Unit

module _ (now : ℕ) (wal_inserted_at : HashMap TxnId ℕ) where
  recover_entry-IsValid :
      (m : VisibilityManager) (i : TxnId) (ts : ℕ)
      → IsValid m
      → HashMap.get m.active_txns i ≡ none
      → IsValid (recover_entry now wal_inserted_at m (i, ts))
  unfolding recover_entry
  recover_entry-IsValid m i ts v a = record {
    unique_active = v.unique_active;
    unique_history = HashMap.insert-IsUnique m.committed_history i _ v.unique_history;
    history_bound = λ k w h.
        ground
          (arith, get-recover_entry now wal_inserted_at m i ts k, ==_iff i k, v.history_bound k w);
    exclusive = λ k meta h.
        ground
          (arith, get-recover_entry now wal_inserted_at m i ts k, ==_iff i k, v.exclusive k meta);
  }

  recover_entries-IsValid :
      (l : List (TxnId × ℕ)) (m : VisibilityManager)
      → IsValid m
      → ((k : TxnId) → HashMap.contains_key l k ≡ true → HashMap.get m.active_txns k ≡ none)
      → IsValid (recover_entries now wal_inserted_at m l)
  unfolding recover_entries recover_entry
  recover_entries-IsValid [] m v a = v
  recover_entries-IsValid ((i, ts) ∷ l) m v a =
      recover_entries-IsValid l (recover_entry now wal_inserted_at m (i, ts))
        (recover_entry-IsValid m i ts v (a i (ground (arith, ==_refl i))))
        (λ k h. a k (ground arith))

recover_history-IsValid :
    (m : VisibilityManager) (l : List (TxnId × ℕ)) (config : Option VisibilityConfig)
    (wal_inserted_at : HashMap TxnId ℕ) (now : ℕ)
    → IsValid m
    → Allowed m (recovers_history l config wal_inserted_at now)
    → IsValid (recover_committed_history_with_config m l config wal_inserted_at now)
unfolding recover_committed_history_with_config
recover_history-IsValid m l config wal_inserted_at now v a =
    recover_entries-IsValid now wal_inserted_at l
      (record m { config = elim config [ some c ↦ c | none ↦ m.config ]; committed_history = [] })
      (record {
        unique_active = v.unique_active;
        unique_history = tt;
        history_bound = λ k w h. absurd (ground arith);
        exclusive = λ k meta h. refl;
      })
      a

recover_active_entries-IsValid :
    (l : List (TxnId × ℕ)) (m : VisibilityManager)
    → IsValid m
    → ((k : TxnId) → HashMap.contains_key l k ≡ true → HashMap.get m.committed_history k ≡ none)
    → IsValid (recover_active_entries m l)
unfolding recover_active_entries
recover_active_entries-IsValid [] m v a = v
recover_active_entries-IsValid ((i, ts) ∷ l) m v a =
    recover_active_entries-IsValid l
      (record m {
        active_txns = HashMap.insert m.active_txns i entry;
        recovered_txns = HashSet.insert m.recovered_txns i;
      })
      (record {
        unique_active = HashMap.insert-IsUnique m.active_txns i entry v.unique_active;
        unique_history = v.unique_history;
        history_bound = v.history_bound;
        exclusive = λ k meta h. ground (
          arith,
          HashMap.get-insert m.active_txns i entry k,
          ==_iff i k,
          v.exclusive k meta,
          a i (ground (arith, ==_refl i)),
        );
      })
      (λ k h. a k (ground arith))
  where
    entry : TxnMeta
    entry = record (TxnMeta.new ts) { is_recovered = true }

recover_active-IsValid :
    (m : VisibilityManager) (l : List (TxnId × ℕ))
    → IsValid m
    → Allowed m (recovers_active l)
    → IsValid (recover_active_txns m l)
unfolding recover_active_txns
recover_active-IsValid m l v a =
    recover_active_entries-IsValid l (record m { active_txns = []; recovered_txns = [] })
      (record {
        unique_active = tt;
        unique_history = v.unique_history;
        history_bound = v.history_bound;
        exclusive = λ k meta h. absurd (ground arith);
      })
      a

module _ (kv : KvEngine) (encode : ℕ × ℕ → Result Bytes) where
  unfoldable pub step : VisibilityManager × kv.Store → Call → VisibilityManager × kv.Store
  step (m, s) (begins txn_id) = let (r, m', s') = begin_txn kv encode m s txn_id in (m', s')
  step (m, s) (rollbacks txn_id) = let (r, m', s') = rollback_txn kv encode m s txn_id in (m', s')
  step (m, s) (commits txn_id inserted_at ts now_ms) =
      let (r, m', s') = commit_txn kv encode m s txn_id inserted_at ts now_ms in (m', s')
  step (m, s) (reads txn_id key) = (record_read m txn_id key, s)
  step (m, s) (writes txn_id key) = (record_write m txn_id key, s)
  step (m, s) (sets_committed txn_id) = (set_committed_txn m txn_id, s)
  step (m, s) (sets_watermark watermark) = (set_replay_watermark m watermark, s)
  step (m, s) (recovers_history history config wal_inserted_at now) =
      (recover_committed_history_with_config m history config wal_inserted_at now, s)
  step (m, s) (recovers_active active) = (recover_active_txns m active, s)

  pub run : VisibilityManager × kv.Store → List Call → VisibilityManager × kv.Store
  run t [] = t
  run t (c ∷ cs) = run (step t c) cs

  -- Each call is allowed in the state in which it is made.
  abbrev pub AllAllowed : VisibilityManager × kv.Store → List Call → Type 0
  AllAllowed t [] = Unit
  AllAllowed t (c ∷ cs) = Allowed t.0 c × AllAllowed (step t c) cs

  step-IsValid :
      (t : VisibilityManager × kv.Store) (c : Call)
      → Allowed t.0 c
      → IsValid t.0
      → IsValid (step t c).0
  unfolding step rollback_txn record_read record_write set_committed_txn set_replay_watermark
  step-IsValid (m, s) (begins txn_id) a v = begin_txn-IsValid kv encode m s v txn_id
  step-IsValid (m, s) (rollbacks txn_id) a v = abort_txn-IsValid kv encode m s v txn_id
  step-IsValid (m, s) (commits txn_id inserted_at ts now_ms) a v =
      commit_txn-IsValid kv encode m s v txn_id inserted_at ts now_ms
  step-IsValid (m, s) (reads txn_id key) a v = modify_active-IsValid m txn_id _ v
  step-IsValid (m, s) (writes txn_id key) a v = modify_active-IsValid m txn_id _ v
  step-IsValid (m, s) (sets_committed txn_id) a v = record {
    unique_active = v.unique_active;
    unique_history = v.unique_history;
    history_bound = a;
    exclusive = v.exclusive;
  }
  step-IsValid (m, s) (sets_watermark watermark) a v = record {
    unique_active = v.unique_active;
    unique_history = v.unique_history;
    history_bound = v.history_bound;
    exclusive = v.exclusive;
  }
  step-IsValid (m, s) (recovers_history history config wal_inserted_at now) a v =
      recover_history-IsValid m history config wal_inserted_at now v a
  step-IsValid (m, s) (recovers_active active) a v = recover_active-IsValid m active v a

  -- After any sequence of the calls that change the manager, failing ones included, a valid manager is
  -- valid, where `committed_txn` is never set below the history, and no transaction is recovered into the
  -- active ones while it is in the history or into the history while it is active.
  pub run-IsValid :
      (t : VisibilityManager × kv.Store) (calls : List Call)
      → AllAllowed t calls
      → IsValid t.0
      → IsValid (run t calls).0
  unfolding run
  run-IsValid t [] a v = v
  run-IsValid t (c ∷ calls) a v = run-IsValid (step t c) calls a.1 (step-IsValid t c a.0 v)
