-- ===== src/Mvcc/Manager/Recovered.antt =====
-- src/mvcc/visibility.rs: a manager that is rebuilt from a commit history.
use mathlib.Core.Path.{subst}
use rockduck.Prelude.{
  nat_eq, ℕ, ◌≤◌, ◌≡◌, refl, sym, ap, ◌∙◌, true, none, some, List, [], ◌∷◌, arith, if◌then◌else◌,
  Bool-cases, inl, inr, ◌==◌,
}
use rockduck.Std.HashMap
use rockduck.Std.HashMap.{HashMap, IsUnique}
use rockduck.Mvcc.TxnMeta.{TxnId}
use rockduck.Mvcc.Snapshot.{IsolationLevel}
use rockduck.Mvcc.Manager.History.{VisibilityConfig}
use rockduck.Mvcc.Manager.{
  VisibilityManager, new_with_config, recover_entry, recover_entries,
  recover_committed_history_with_config, recover_committed_history, take_snapshot, is_visible,
}
use rockduck.Mvcc.Manager.Transitions.{IsValid}
use rockduck.Mvcc.Manager.Snapshots.{is_visible-take_snapshot_iff}

-- What every step of the recovery keeps, on a manager without active transactions.
record IsBuilt (m : VisibilityManager) : Type 0 where
  idle : m.active_txns ≡ []
  unique : IsUnique m.committed_history
  bound : (k : TxnId) (v : ℕ × ℕ) → HashMap.get m.committed_history k ≡ some v → k ≤ m.committed_txn

module _ (now : ℕ) (wal_inserted_at : HashMap TxnId ℕ) where
  -- The time of insertion from the log, or else the time of the recovery.
  pub inserted_of : TxnId → ℕ
  inserted_of txn_id = elim (HashMap.get wal_inserted_at txn_id) [ some t ↦ t | none ↦ now ]

  pub get-recover_entry :
      (m : VisibilityManager) (i : TxnId) (ts : ℕ) (k : TxnId)
      → HashMap.get (recover_entry now wal_inserted_at m (i, ts)).committed_history k
        ≡ (if i == k then some (ts, inserted_of i) else HashMap.get m.committed_history k)
  unfolding recover_entry inserted_of
  get-recover_entry m i ts k = HashMap.get-insert m.committed_history i _ k

  recover_entry-IsBuilt :
      (m : VisibilityManager) (e : TxnId × ℕ)
      → IsBuilt m
      → IsBuilt (recover_entry now wal_inserted_at m e)
  unfolding recover_entry
  recover_entry-IsBuilt m (txn_id, commit_ts) b = record {
    idle = b.idle;
    unique = HashMap.insert-IsUnique m.committed_history txn_id _ b.unique;
    bound = λ k v h.
        ground
          (arith, get-recover_entry m txn_id commit_ts k, nat_eq.equals_iff txn_id k, b.bound k v);
  }

  recover_entries-IsBuilt :
      (l : List (TxnId × ℕ)) (m : VisibilityManager)
      → IsBuilt m
      → IsBuilt (recover_entries now wal_inserted_at m l)
  unfolding recover_entries
  recover_entries-IsBuilt [] m b = b
  recover_entries-IsBuilt (e ∷ l) m b =
      recover_entries-IsBuilt l (recover_entry now wal_inserted_at m e)
        (recover_entry-IsBuilt m e b)

  -- A key that the list does not have keeps its entry.
  get-recover_entries-none :
      (l : HashMap TxnId ℕ) (m : VisibilityManager) (k : TxnId)
      → HashMap.get l k ≡ none
      → HashMap.get (recover_entries now wal_inserted_at m l).committed_history k
        ≡ HashMap.get m.committed_history k
  unfolding recover_entries
  get-recover_entries-none [] m k h = refl
  get-recover_entries-none ((i, ts) ∷ l) m k h = ground (
    arith,
    get-recover_entry m i ts k,
    get-recover_entries-none l (recover_entry now wal_inserted_at m (i, ts)) k,
  )

  get-recover_entries :
      (l : HashMap TxnId ℕ) (m : VisibilityManager) (k : TxnId) (ts : ℕ)
      → IsUnique l
      → HashMap.get l k ≡ some ts
      → (ia : ℕ) × (HashMap.get (recover_entries now wal_inserted_at m l).committed_history k
          ≡ some (ts, ia))
  unfolding recover_entries
  get-recover_entries [] m k ts u h = absurd (ground arith)
  get-recover_entries ((i, t) ∷ l) m k ts u h =
      let m' = recover_entry now wal_inserted_at m (i, t) in
      elim (Bool-cases (i == k)) [
        | inl e ↦
            let q : i ≡ k = (nat_eq.equals_iff i k).0 e in
            let r : t ≡ ts = ground arith in
            let none_left : HashMap.get l k ≡ none = ap (HashMap.get l) (sym q) ∙ u.0 in
            (
              inserted_of i,
              get-recover_entries-none l m' k none_left ∙ get-recover_entry m i t k ∙ ground arith,
            )
        | inr e ↦ get-recover_entries l m' k ts u.1 (ground arith)
      ]

module _ (config : VisibilityConfig) (history : HashMap TxnId ℕ) (unique : IsUnique history)
    (now : ℕ) where
  abbrev recovered : VisibilityManager
  recovered = recover_committed_history (new_with_config config) history now

  recovered-IsBuilt : IsBuilt recovered
  unfolding recover_committed_history recover_committed_history_with_config new_with_config
  recovered-IsBuilt =
      recover_entries-IsBuilt now [] history
        (record (new_with_config config) { committed_history = [] })
        (record { idle = refl; unique = tt; bound = λ k v h. absurd (ground arith) })

  recovered-IsValid : IsValid recovered
  recovered-IsValid =
      let b = recovered-IsBuilt in
      record {
        unique_active = subst IsUnique (sym b.idle) tt;
        unique_history = b.unique;
        history_bound = b.bound;
        exclusive = λ k meta h. absurd (ground (arith, b.idle));
      }

  recovered-entry :
      (txn_id : TxnId) (commit_ts : ℕ)
      → HashMap.get history txn_id ≡ some commit_ts
      → (ia : ℕ) × (HashMap.get recovered.committed_history txn_id ≡ some (commit_ts, ia))
  unfolding recover_committed_history recover_committed_history_with_config new_with_config
  recovered-entry txn_id commit_ts h =
      get-recover_entries now [] history
        (record (new_with_config config) { committed_history = [] }) txn_id commit_ts unique h

  -- A manager that is rebuilt from a history shows, in a new snapshot, every row of a recovered
  -- transaction that nobody deleted, when the recovered commit time is at most its identifier.
  pub recover_committed_history-visible :
      (isolation : IsolationLevel) (txn_id : TxnId) (commit_ts : ℕ)
      → HashMap.get history txn_id ≡ some commit_ts
      → commit_ts ≤ txn_id
      → is_visible
          (recover_committed_history (new_with_config config) history now)
          (take_snapshot (recover_committed_history (new_with_config config) history now) isolation)
          txn_id
          none
        ≡ true
  recover_committed_history-visible isolation txn_id commit_ts h le =
      let (ia, found) = recovered-entry txn_id commit_ts h in
      let b = recovered-IsBuilt in
      (is_visible-take_snapshot_iff recovered recovered-IsValid isolation txn_id none).1 (
        record {
          commit_ts = commit_ts;
          inserted_at = ia;
          found = found;
          reached = omega (arith, b.bound txn_id (commit_ts, ia) found);
        },
        λ del e. absurd (ground arith),
      )
