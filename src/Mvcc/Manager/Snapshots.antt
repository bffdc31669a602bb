-- ===== src/Mvcc/Manager/Snapshots.antt =====
-- src/mvcc/visibility.rs: the snapshots of the manager.
use rockduck.Prelude.{
  nat_eq, list_eq, ℕ, ◌≤◌, ◌<◌, ◌≡◌, refl, ap, ◌∙◌, ◌↔◌, Bool, true, false, ◌||◌, Option, some, [],
  ◌∷◌, map, arith, inl, inr, leb, elem, Option-cases, Bool-cases,
}
use rockduck.Std.HashMap
use rockduck.Std.HashMap.{HashMap, IsUnique}
use rockduck.Std.HashSet
use rockduck.Mvcc.TxnMeta.{TxnId, TxnMeta}
use rockduck.Mvcc.Snapshot.{IsolationLevel}
use rockduck.Mvcc.Visibility.{manager_filter}
use rockduck.Mvcc.Visibility.Rules.{IsCommittedAt, IsVisible, manager_filter_iff}
use rockduck.Mvcc.Manager.History.{CommitHistory}
use rockduck.Mvcc.Manager.{
  VisibilityManager, active_ids, commit_ts_until, take_snapshot, is_visible,
}
use rockduck.Mvcc.Manager.Transitions.{IsValid}

elem-keys :
    (active : HashMap TxnId TxnMeta) (k : TxnId)
    → elem k (map (λ e. e.0) active) ≡ HashMap.contains_key active k
elem-keys [] k = refl
elem-keys ((j, meta) ∷ active) k = ground (arith, elem-keys active k)

pub elem-active_ids :
    (m : VisibilityManager) (k : TxnId)
    → elem k (active_ids m) ≡ HashMap.contains_key m.active_txns k
unfolding active_ids
elem-active_ids m k =
    HashSet.elem-extend [] (map (λ e. e.0) m.active_txns) k ∙ or_false _ ∙ elem-keys m.active_txns k
  where
    or_false : (b : Bool) → (b || false) ≡ b
    or_false b = ground arith

module _ (history : CommitHistory) (unique : IsUnique history) (limit : ℕ) where
  pub get-commit_ts_until :
      (k : TxnId)
      → HashMap.get (commit_ts_until history limit) k
        ≡ HashMap.over (λ e. e.0) (HashMap.keep (λ e. leb (e.1).0 limit) k (HashMap.get history k))
  unfolding commit_ts_until
  get-commit_ts_until k =
      HashMap.get-extend _ k
        (HashMap.map_values-IsUnique _ _ (HashMap.filter-IsUnique _ history unique))
      ∙ HashMap.get-map_values _ _ k
      ∙ ap (HashMap.over (λ e. e.0)) (HashMap.get-filter _ history k unique)

-- The transaction's entry in the history has a commit time that `committed_txn` reaches.
pub record InHistory (m : VisibilityManager) (txn : TxnId) : Type 0 where
  pub commit_ts : ℕ
  pub inserted_at : ℕ
  pub found : HashMap.get m.committed_history txn ≡ some (commit_ts, inserted_at)
  pub reached : commit_ts ≤ m.committed_txn

module _ (m : VisibilityManager) (v : IsValid m) where
  to_IsCommittedAt :
      (txn : TxnId)
      → InHistory m txn
      → IsCommittedAt m.committed_txn txn
          (active_ids m)
          (commit_ts_until m.committed_history m.committed_txn)
  to_IsCommittedAt txn h = record {
    inactive = elem-active_ids m txn ∙ inactive;
    commit_ts = h.commit_ts;
    recorded =
        ground
          (arith, get-commit_ts_until m.committed_history v.unique_history m.committed_txn txn);
    reached = h.reached;
  }
    where
      inactive : HashMap.contains_key m.active_txns txn ≡ false
      inactive = elim (Option-cases (HashMap.get m.active_txns txn)) [
        | inl e ↦ rw (e, HashMap.contains_key)
        | inr (meta, e) ↦ absurd (ground (arith, v.exclusive txn meta))
      ]

  of_IsCommittedAt :
      (txn : TxnId)
      → IsCommittedAt m.committed_txn txn
          (active_ids m)
          (commit_ts_until m.committed_history m.committed_txn)
      → InHistory m txn
  of_IsCommittedAt txn c = elim (Option-cases (HashMap.get m.committed_history txn)) [
    | inl e ↦ absurd (
        ground
          (arith, get-commit_ts_until m.committed_history v.unique_history m.committed_txn txn))
    | inr ((ts, inserted_at), e) ↦ record {
      commit_ts = ts;
      inserted_at = inserted_at;
      found = e;
      reached =
          ground
            (arith, get-commit_ts_until m.committed_history v.unique_history m.committed_txn txn);
    }
  ]

  -- A new snapshot shows a row exactly when its creator is in the history with a commit time of at
  -- most `committed_txn`, and its deleter, if it has one, is not.
  pub is_visible-take_snapshot_iff :
      (isolation : IsolationLevel) (created_txn : TxnId) (deleted_txn : Option TxnId)
      → (is_visible m (take_snapshot m isolation) created_txn deleted_txn ≡ true)
        ↔ (InHistory m created_txn × ((del : TxnId) → deleted_txn ≡ some del → ¬ InHistory m del))
  unfolding is_visible take_snapshot
  is_visible-take_snapshot_iff isolation created_txn deleted_txn = (
    λ h.
        let w = rules.0 h in
        (
          of_IsCommittedAt created_txn w.created,
          λ del e d. w.not_deleted del e (to_IsCommittedAt del d),
        ),
    λ h. rules.1 (record {
      started = v.history_bound created_txn _ (h.0).found;
      created = to_IsCommittedAt created_txn h.0;
      not_deleted = λ del e c. h.1 del e (of_IsCommittedAt del c);
    }),
  )
    where
      rules :
          (manager_filter m.committed_txn created_txn deleted_txn
              (active_ids m)
              (commit_ts_until m.committed_history m.committed_txn)
            ≡ true)
          ↔ IsVisible m.committed_txn created_txn deleted_txn
              (active_ids m)
              (commit_ts_until m.committed_history m.committed_txn)
      rules =
          manager_filter_iff m.committed_txn (active_ids m)
            (commit_ts_until m.committed_history m.committed_txn) created_txn deleted_txn

  -- A row whose creator has a commit time past `committed_txn` is in no new snapshot.
  pub late_commit-invisible :
      (isolation : IsolationLevel) (created_txn : TxnId) (deleted_txn : Option TxnId)
      (commit_ts inserted_at : ℕ)
      → HashMap.get m.committed_history created_txn ≡ some (commit_ts, inserted_at)
      → m.committed_txn < commit_ts
      → is_visible m (take_snapshot m isolation) created_txn deleted_txn ≡ false
  late_commit-invisible isolation created_txn deleted_txn commit_ts inserted_at e late =
      elim (Bool-cases (is_visible m (take_snapshot m isolation) created_txn deleted_txn)) [
        | inl h ↦
            let c = ((is_visible-take_snapshot_iff isolation created_txn deleted_txn).0 h).0 in
            absurd (ground (arith, c.found, c.reached))
        | inr h ↦ h
      ]
