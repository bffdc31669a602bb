-- ===== src/Mvcc/Tests.antt =====
-- Two transactions on one key.
use rockduck.Prelude.{
  nat_eq, list_eq, ℕ, ◌≤◌, ◌≡◌, ◌↔◌, refl, true, false, none, some, List, [], ◌∷◌, Bytes, any,
  arith,
}
use rockduck.Error.{Result, ok}
use rockduck.Std.HashMap
use rockduck.Std.HashMap.{HashMap, IsUnique}
use rockduck.Meta.Kv.{KvEngine}
use rockduck.Mvcc.TxnMeta.{TxnId, TxnMeta, active}
use rockduck.Mvcc.Snapshot.{TxnSnapshot, snapshot}
use rockduck.Mvcc.Visibility.{manager_filter}
use rockduck.Mvcc.Visibility.Rules.{IsVisible, manager_filter_iff}
use rockduck.Mvcc.Overlay.{for_compaction_all_visible, is_row_visible}
use rockduck.Mvcc.Overlay.Compaction.{compaction-hides_all}
use rockduck.Mvcc.Manager.Recovered.{recover_committed_history-visible}
use rockduck.Mvcc.Manager.{
  recover_committed_history, VisibilityManager, new_with_config, committed_state, commit_txn,
  take_snapshot, is_visible,
}
use rockduck.Mvcc.Manager.History.{
  default_config, CommitHistory, cutoff, prune_history, evict_by_count,
}
use rockduck.Mvcc.Manager.History.Retention.{get-prune_history}
use rockduck.Mvcc.Manager.Conflict.{conflict_of}
use rockduck.Mvcc.Manager.Conflict.Reference.{conflicts_with, is_hit, conflict_of-eq-any}
use rockduck.Mvcc.Manager.Transitions.{IsValid}
use rockduck.Mvcc.Manager.Calls.{
  Call, begins, commits, reads, writes, recovers_history, recovers_active, sets_watermark,
  AllAllowed, step, run, run-IsValid,
}
use rockduck.Mvcc.Manager.Snapshots.{InHistory, is_visible-take_snapshot_iff}
use rockduck.Mvcc.Manager.Clean.{IsCommitOf, IsSnapshotOf, commit_txn-clean}
use rockduck.Mvcc.Manager.Commit.{IsRefused, commit_txn-conflict, commit-hides_own_rows}

abbrev engine : KvEngine
engine = record {
  Store = Unit {0};
  get = λ s b k. ok none;
  put = λ s b k v. (ok tt, s);
  delete = λ s b k. (ok tt, s);
  write_batch = λ s b ops. (ok tt, s);
}

abbrev encode : ℕ × ℕ → Result Bytes
encode (a, b) = ok (a ∷ b ∷ [])

abbrev key : Bytes
key = 107 ∷ []

abbrev meta : ℕ → List Bytes → List Bytes → TxnMeta
meta begin_ts read_keys written_keys = record {
  begin_ts = begin_ts;
  commit_ts = none;
  status = active;
  read_keys = read_keys;
  written_keys = written_keys;
  is_recovered = false;
}

-- Transaction 3 is committed at 3; transaction 5 has read the key that 6 has written.
abbrev manager : VisibilityManager
manager = record {
  committed_txn = 3;
  replay_watermark = 0;
  active_txns = (5, meta 5 (key ∷ []) []) ∷ (6, meta 6 [] (key ∷ [])) ∷ [];
  committed_history = (3, (3, 900)) ∷ [];
  config = default_config;
  recovered_txns = [];
}

abbrev alone : VisibilityManager
alone = record manager { active_txns = (5, meta 5 (key ∷ []) []) ∷ [] }

conflict : any (conflicts_with 5 (meta 5 (key ∷ []) [])) manager.active_txns ≡ true
conflict = refl

manager_filter_iff_example :
    (manager_filter 3 3 none (5 ∷ []) ((3, 3) ∷ []) ≡ true)
    ↔ IsVisible 3 3 none (5 ∷ []) ((3, 3) ∷ [])
manager_filter_iff_example = manager_filter_iff 3 (5 ∷ []) ((3, 3) ∷ []) 3 none

compaction-hides_all_example :
    is_row_visible for_compaction_all_visible manager_filter 1 none ≡ false
compaction-hides_all_example = compaction-hides_all 1 none

conflict_of-eq-any_example :
    is_hit (conflict_of 5 (meta 5 (key ∷ []) []) manager.active_txns)
    ≡ any (conflicts_with 5 (meta 5 (key ∷ []) [])) manager.active_txns
conflict_of-eq-any_example = conflict_of-eq-any 5 manager.active_txns (meta 5 (key ∷ []) [])

new-IsValid : IsValid (new_with_config default_config)
unfolding new_with_config
new-IsValid = record {
  unique_active = tt;
  unique_history = tt;
  history_bound = λ k v h. absurd (ground arith);
  exclusive = λ k m h. refl;
}

-- A recovery, and then two transactions of which one commits.
abbrev calls : List Call
calls =
    recovers_history ((3, 3) ∷ []) none [] 800
    ∷ recovers_active ((4, 4) ∷ [])
    ∷ begins 5
    ∷ reads 5 key
    ∷ begins 6
    ∷ writes 6 key
    ∷ commits 5 900 5 900
    ∷ sets_watermark 7
    ∷ []

calls-AllAllowed : AllAllowed engine encode (new_with_config default_config, tt) calls
unfolding new_with_config step rockduck.Mvcc.Manager.recover_committed_history_with_config
    rockduck.Mvcc.Manager.recover_entries rockduck.Mvcc.Manager.recover_entry
calls-AllAllowed = (
  λ k h. refl,
  (
    λ k h. ground (arith, nat_eq.equals_iff 3 k, nat_eq.equals_iff 4 k),
    (tt, (tt, (tt, (tt, (tt, (tt, tt)))))),
  ),
)

run-IsValid_example : IsValid (run engine encode (new_with_config default_config, tt) calls).0
run-IsValid_example =
    run-IsValid engine encode (new_with_config default_config, tt) calls calls-AllAllowed
      new-IsValid

commit_txn-conflict_example :
    IsRefused engine encode manager tt 5 (commit_txn engine encode manager tt 5 900 5 900)
commit_txn-conflict_example =
    commit_txn-conflict engine encode manager tt 5 900 5 900 (meta 5 (key ∷ []) []) refl refl

abbrev small : CommitHistory
small = (3, (3, 900)) ∷ []

get-prune_history_example :
    (HashMap.get small 3 ≡ some (3, 900)) × (cutoff default_config 100 900 ≤ 900) × (100 ≤ 900)
unfolding prune_history evict_by_count cutoff
get-prune_history_example = get-prune_history default_config 100 900 small (refl, tt) 3 3 900 refl

manager-IsValid : IsValid alone
manager-IsValid = record {
  unique_active = (refl, tt);
  unique_history = (refl, tt);
  history_bound = λ k v h. ground (arith, nat_eq.equals_iff 3 k);
  exclusive = λ k m h. ground (arith, nat_eq.equals_iff 3 k, nat_eq.equals_iff 5 k);
}

commit_txn-clean_example :
    (snap : TxnSnapshot) × (m' : VisibilityManager) × (commit_txn engine encode alone tt 5 900 5 900
      ≡ (ok snap, m', tt))
    × IsCommitOf alone 5 900 5 900 m'
    × IsSnapshotOf m' snap
unfolding rockduck.Meta.Kv.remove_active_txn
commit_txn-clean_example =
    commit_txn-clean engine encode alone tt 5 900 5 900 (meta 5 (key ∷ []) []) tt manager-IsValid
      refl refl refl

is_visible-take_snapshot_iff_example :
    (is_visible alone (take_snapshot alone snapshot) 3 (some 5) ≡ true)
    ↔ (InHistory alone 3 × ((del : TxnId) → some 5 ≡ some del → ¬ InHistory alone del))
is_visible-take_snapshot_iff_example =
    is_visible-take_snapshot_iff alone manager-IsValid snapshot 3 (some 5)

-- Transaction 3 committed at the time 900, past every identifier.
abbrev late : VisibilityManager
late = record alone { committed_history = (3, (900, 900)) ∷ [] }

late-IsValid : IsValid late
late-IsValid = record {
  unique_active = (refl, tt);
  unique_history = (refl, tt);
  history_bound = λ k v h. ground (arith, nat_eq.equals_iff 3 k);
  exclusive = λ k m h. ground (arith, nat_eq.equals_iff 3 k, nat_eq.equals_iff 5 k);
}

commit-hides_own_rows_example :
    is_visible
      (committed_state alone 5 900 900 900)
      (take_snapshot (committed_state alone 5 900 900 900) snapshot)
      5
      none
    ≡ false
commit-hides_own_rows_example =
    commit-hides_own_rows alone 5 900 900 900 none manager-IsValid (omega arith) (omega arith)

recover_committed_history-visible_example :
    is_visible
      (recover_committed_history (new_with_config default_config) ((3, 3) ∷ []) 900)
      (take_snapshot
        (recover_committed_history (new_with_config default_config) ((3, 3) ∷ []) 900)
        snapshot)
      3
      none
    ≡ true
recover_committed_history-visible_example =
    recover_committed_history-visible default_config ((3, 3) ∷ []) (refl, tt) 900 snapshot 3 3 refl
      (omega arith)
