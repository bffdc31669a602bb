-- ===== src/Mvcc/Visibility/Rules.antt =====
-- src/mvcc/visibility.rs: the rules of visibility as statements, beside the two filters.
use rockduck.Prelude.{
  ◌∙◌, nat_eq, ℕ, ◌≤◌, ◌≡◌, refl, ◌↔◌, ap, true, false, Option, none, some, List, arith, elem,
  Bool-cases, Option-cases, inl, inr,
}
use rockduck.Std.HashMap
use rockduck.Std.HashMap.{HashMap}
use rockduck.Mvcc.TxnMeta.{TxnId}
use rockduck.Mvcc.Visibility.{snapshot_filter, manager_deletion, manager_filter}

-- A transaction's writes are in the snapshot: it is not active there, and it has a commit time
-- that the snapshot reaches.
pub record IsCommittedAt (snapshot_id : TxnId) (txn : TxnId) (active_txns : List TxnId)
    (commit_ts_map : HashMap TxnId ℕ) : Type 0 where
  pub inactive : elem txn active_txns ≡ false
  pub commit_ts : ℕ
  pub recorded : HashMap.get commit_ts_map txn ≡ some commit_ts
  pub reached : commit_ts ≤ snapshot_id

-- Snapshot isolation: the creation is in the snapshot and the deletion, if there is one, is not.
pub record IsVisible (snapshot_id created_txn : TxnId) (deleted_txn : Option TxnId)
    (active_txns : List TxnId) (commit_ts_map : HashMap TxnId ℕ) : Type 0 where
  pub started : created_txn ≤ snapshot_id
  pub created : IsCommittedAt snapshot_id created_txn active_txns commit_ts_map
  pub not_deleted :
      (del : TxnId)
      → deleted_txn ≡ some del
      → ¬ IsCommittedAt snapshot_id del active_txns commit_ts_map

module _ (snapshot_id : TxnId) (active_txns : List TxnId) (commit_ts_map : HashMap TxnId ℕ) where
  manager_deletion-eq-false :
      (del : TxnId)
      → IsCommittedAt snapshot_id del active_txns commit_ts_map
      → manager_deletion snapshot_id (some del) active_txns commit_ts_map ≡ false
  unfolding manager_deletion
  manager_deletion-eq-false del c = ground arith

  manager_deletion-IsCommittedAt :
      (del : TxnId)
      → manager_deletion snapshot_id (some del) active_txns commit_ts_map ≡ false
      → IsCommittedAt snapshot_id del active_txns commit_ts_map
  unfolding manager_deletion
  manager_deletion-IsCommittedAt del h = elim (Option-cases (HashMap.get commit_ts_map del)) [
    | inl e ↦ absurd (ground arith)
    | inr (ts, e) ↦ record {
      inactive = ground arith;
      commit_ts = ts;
      recorded = e;
      reached = ground arith;
    }
  ]

  -- The filter of the manager, split into the test of the creation and that of the deletion.
  manager_created :
      (created_txn : TxnId) (deleted_txn : Option TxnId)
      → manager_filter snapshot_id created_txn deleted_txn active_txns commit_ts_map ≡ true
      → (created_txn ≤ snapshot_id)
        × IsCommittedAt snapshot_id created_txn active_txns commit_ts_map
        × (manager_deletion snapshot_id deleted_txn active_txns commit_ts_map ≡ true)
  unfolding manager_filter
  manager_created created_txn deleted_txn h =
      elim (Option-cases (HashMap.get commit_ts_map created_txn)) [
        | inl e ↦ absurd (ground arith)
        | inr (ts, e) ↦ (
          ground arith,
          record { inactive = ground arith; commit_ts = ts; recorded = e; reached = ground arith },
          ground arith,
        )
      ]

  visible_creation :
      (created_txn : TxnId) (deleted_txn : Option TxnId)
      → created_txn ≤ snapshot_id
      → IsCommittedAt snapshot_id created_txn active_txns commit_ts_map
      → manager_filter snapshot_id created_txn deleted_txn active_txns commit_ts_map
        ≡ manager_deletion snapshot_id deleted_txn active_txns commit_ts_map
  unfolding manager_filter
  visible_creation created_txn deleted_txn h c = ground arith

  visible_deletion :
      (deleted_txn : Option TxnId)
      → ((del : TxnId)
          → deleted_txn ≡ some del
          → ¬ IsCommittedAt snapshot_id del active_txns commit_ts_map)
      → manager_deletion snapshot_id deleted_txn active_txns commit_ts_map ≡ true
  unfolding manager_deletion
  visible_deletion none h = refl
  visible_deletion (some del) h =
      elim (Bool-cases (manager_deletion snapshot_id (some del) active_txns commit_ts_map)) [
        | inl kept ↦ kept
        | inr gone ↦ absurd (h del refl (manager_deletion-IsCommittedAt del gone))
      ]

  -- A row passes the filter of the manager exactly when its creation is in the snapshot and no
  -- deletion of it is: the four rules of the trait, in both directions.
  pub manager_filter_iff :
      (created_txn : TxnId) (deleted_txn : Option TxnId)
      → (manager_filter snapshot_id created_txn deleted_txn active_txns commit_ts_map ≡ true)
        ↔ IsVisible snapshot_id created_txn deleted_txn active_txns commit_ts_map
  manager_filter_iff created_txn deleted_txn = (to deleted_txn, from deleted_txn)
    where
      to :
          (d : Option TxnId)
          → manager_filter snapshot_id created_txn d active_txns commit_ts_map ≡ true
          → IsVisible snapshot_id created_txn d active_txns commit_ts_map
      to d h =
          let (started, created, kept) = manager_created created_txn d h in
          record {
            started = started;
            created = created;
            not_deleted = λ del e c. cc (
              kept,
              ap (λ x. manager_deletion snapshot_id x active_txns commit_ts_map) e,
              manager_deletion-eq-false del c,
            );
          }

      from :
          (d : Option TxnId)
          → IsVisible snapshot_id created_txn d active_txns commit_ts_map
          → manager_filter snapshot_id created_txn d active_txns commit_ts_map ≡ true
      from d v =
          visible_creation created_txn d v.started v.created ∙ visible_deletion d v.not_deleted

  -- The two implementations of the trait agree on every row.
  pub snapshot_filter-eq-manager_filter :
      (created_txn : TxnId) (deleted_txn : Option TxnId)
      → snapshot_filter snapshot_id created_txn deleted_txn active_txns commit_ts_map
        ≡ manager_filter snapshot_id created_txn deleted_txn active_txns commit_ts_map
  unfolding snapshot_filter manager_filter
  snapshot_filter-eq-manager_filter created_txn none = ground arith
  snapshot_filter-eq-manager_filter created_txn (some del) = ground arith
