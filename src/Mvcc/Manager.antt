-- ===== src/Mvcc/Manager.antt =====
-- src/mvcc/visibility.rs: `VisibilityManager`. A method that also writes the key-value store takes the
-- store and returns it. The times that a method reads from the clock are its arguments.
pub mod History
pub mod Conflict
pub mod Transitions
pub mod Snapshots
pub mod Commit
pub mod Clean
pub mod Calls
pub mod Recovered
use rockduck.Prelude.{
  nat_eq, list_eq, ℕ, ◌≡◌, Bool, true, false, Option, none, some, List, [], ◌∷◌, map, Bytes, ltb,
  leb, if◌then◌else◌, filter,
}
use rockduck.Error.{
  RockDuckError, mvcc_conflict, already_active, already_committed, not_active, ssi, Result, ok, err,
}
use rockduck.Std.HashMap
use rockduck.Std.HashMap.{HashMap}
use rockduck.Std.HashSet
use rockduck.Meta.Kv.{KvEngine, add_active_txn, remove_active_txn}
use rockduck.Mvcc.TxnMeta
use rockduck.Mvcc.TxnMeta.{TxnId, TxnMeta}
use rockduck.Mvcc.Snapshot
use rockduck.Mvcc.Snapshot.{IsolationLevel, snapshot, TxnSnapshot}
use rockduck.Mvcc.Visibility.{manager_filter}
use History.{VisibilityConfig, CommitHistory, default_config, prune_history}
use Conflict.{conflict_of}

pub record VisibilityManager : Type 0 where
  pub committed_txn : ℕ
  pub replay_watermark : ℕ
  pub active_txns : HashMap TxnId TxnMeta
  pub committed_history : CommitHistory
  pub config : VisibilityConfig
  pub recovered_txns : List TxnId

unfoldable pub new_with_config : VisibilityConfig → VisibilityManager
new_with_config config = record {
  committed_txn = 0;
  replay_watermark = 0;
  active_txns = [];
  committed_history = [];
  config = config;
  recovered_txns = [];
}

unfoldable pub new : VisibilityManager
unfolding new_with_config
new = new_with_config default_config

unfoldable pub set_committed_txn : VisibilityManager → TxnId → VisibilityManager
set_committed_txn m txn_id = record m { committed_txn = txn_id }

unfoldable pub set_replay_watermark : VisibilityManager → ℕ → VisibilityManager
set_replay_watermark m watermark = record m { replay_watermark = watermark }

-- An operation on the entry of a transaction; of one that is not active it only warns.
unfoldable pub modify_active : VisibilityManager → TxnId → (TxnMeta → TxnMeta) → VisibilityManager
modify_active m txn_id f = elim (HashMap.get m.active_txns txn_id) [
  | some meta ↦ record m { active_txns = HashMap.insert m.active_txns txn_id (f meta) }
  | none ↦ m
]

unfoldable pub record_read : VisibilityManager → TxnId → Bytes → VisibilityManager
unfolding modify_active
record_read m txn_id key = modify_active m txn_id (λ meta. TxnMeta.record_read meta key)

unfoldable pub record_write : VisibilityManager → TxnId → Bytes → VisibilityManager
unfolding modify_active
record_write m txn_id key = modify_active m txn_id (λ meta. TxnMeta.record_write meta key)

unfoldable pub active_ids : VisibilityManager → List TxnId
active_ids m = HashSet.extend [] (map (λ e. e.0) m.active_txns)

-- `iter().filter(ts <= limit).map(..).collect()`
unfoldable pub commit_ts_until : CommitHistory → ℕ → HashMap TxnId ℕ
commit_ts_until history limit =
    HashMap.extend [] (HashMap.map_values (λ e. e.0) (filter (λ e. leb (e.1).0 limit) history))

unfoldable pub snapshot_with_active_only : VisibilityManager → IsolationLevel → TxnSnapshot
unfolding Snapshot.new active_ids
snapshot_with_active_only m isolation = Snapshot.new m.committed_txn (active_ids m) isolation

unfoldable pub snapshot_with_commit_ts_map : VisibilityManager → IsolationLevel → TxnSnapshot
unfolding Snapshot.new
snapshot_with_commit_ts_map m isolation =
    let snap = Snapshot.new m.committed_txn (active_ids m) isolation in
    record snap { commit_ts_map = commit_ts_until m.committed_history m.committed_txn }

-- `snapshot`
unfoldable pub take_snapshot : VisibilityManager → IsolationLevel → TxnSnapshot
unfolding snapshot_with_commit_ts_map
take_snapshot = snapshot_with_commit_ts_map

unfoldable pub snapshot_at : VisibilityManager → TxnId → IsolationLevel → TxnSnapshot
snapshot_at m txn_id isolation = record {
  snapshot_id = txn_id;
  active_txns =
      HashSet.extend [] (map (λ e. e.0) (filter (λ e. leb (e.1).begin_ts txn_id) m.active_txns));
  isolation = isolation;
  commit_ts_map = commit_ts_until m.committed_history txn_id;
}

unfoldable pub get_begin_ts : VisibilityManager → TxnId → Option ℕ
get_begin_ts m txn_id = HashMap.over (λ meta. meta.begin_ts) (HashMap.get m.active_txns txn_id)

unfoldable pub get_commit_ts : VisibilityManager → TxnId → Option ℕ
get_commit_ts m txn_id = HashMap.over (λ e. e.0) (HashMap.get m.committed_history txn_id)

unfoldable pub is_visible : VisibilityManager → TxnSnapshot → TxnId → Option TxnId → Bool
is_visible m s created_txn deleted_txn =
    manager_filter s.snapshot_id created_txn deleted_txn s.active_txns s.commit_ts_map

-- `recover_committed_history_with_config`; `now` is read from the clock once
unfoldable pub recover_entry :
    ℕ → HashMap TxnId ℕ → VisibilityManager → TxnId × ℕ → VisibilityManager
recover_entry now wal_inserted_at m (txn_id, commit_ts) =
    let inserted_at : ℕ = elim (HashMap.get wal_inserted_at txn_id) [ some t ↦ t | none ↦ now ] in
    record m {
      committed_history = HashMap.insert m.committed_history txn_id (commit_ts, inserted_at);
      committed_txn = if ltb m.committed_txn txn_id then txn_id else m.committed_txn;
    }

unfoldable pub recover_entries :
    ℕ → HashMap TxnId ℕ → VisibilityManager → List (TxnId × ℕ) → VisibilityManager
unfolding recover_entry
recover_entries now wal_inserted_at m [] = m
recover_entries now wal_inserted_at m (e ∷ history) =
    recover_entries now wal_inserted_at (recover_entry now wal_inserted_at m e) history

unfoldable pub recover_committed_history_with_config :
    VisibilityManager
    → List (TxnId × ℕ)
    → Option VisibilityConfig
    → HashMap TxnId ℕ
    → ℕ
    → VisibilityManager
unfolding recover_entries
recover_committed_history_with_config m history config_override wal_inserted_at now =
    let cfg : VisibilityConfig = elim config_override [ some c ↦ c | none ↦ m.config ] in
    recover_entries now wal_inserted_at (record m { config = cfg; committed_history = [] }) history

unfoldable pub recover_committed_history :
    VisibilityManager → List (TxnId × ℕ) → ℕ → VisibilityManager
unfolding recover_committed_history_with_config
recover_committed_history m history now =
    recover_committed_history_with_config m history none [] now

unfoldable pub recover_active_entries : VisibilityManager → List (TxnId × ℕ) → VisibilityManager
recover_active_entries m [] = m
recover_active_entries m ((txn_id, begin_ts) ∷ active) =
    recover_active_entries
      (record m {
        active_txns =
            HashMap.insert m.active_txns txn_id
              (record (TxnMeta.new begin_ts) { is_recovered = true });
        recovered_txns = HashSet.insert m.recovered_txns txn_id;
      })
      active

unfoldable pub recover_active_txns : VisibilityManager → List (TxnId × ℕ) → VisibilityManager
unfolding recover_active_entries
recover_active_txns m active =
    recover_active_entries (record m { active_txns = []; recovered_txns = [] }) active

-- The state after a commit that met no conflict: `ts` is the commit time, and `now_ms` what
-- `prune_history` reads from the clock.
unfoldable pub committed_state : VisibilityManager → TxnId → ℕ → ℕ → ℕ → VisibilityManager
committed_state m txn_id inserted_at ts now_ms = record m {
  committed_txn = if ltb m.committed_txn txn_id then txn_id else m.committed_txn;
  committed_history =
      prune_history m.config m.replay_watermark now_ms
        (HashMap.insert m.committed_history txn_id (ts, inserted_at));
  active_txns = HashMap.remove m.active_txns txn_id;
  recovered_txns = HashSet.remove m.recovered_txns txn_id;
}

module _ (kv : KvEngine) (encode : ℕ × ℕ → Result Bytes) where
  unfoldable pub begin_txn :
      VisibilityManager → kv.Store → TxnId → Result (Unit {0}) × VisibilityManager × kv.Store
  begin_txn m s txn_id =
      if HashMap.contains_key m.active_txns txn_id
      then (err (mvcc_conflict txn_id already_active), m, s)
      else if leb txn_id m.committed_txn
      then (err (mvcc_conflict txn_id already_committed), m, s)
      else (let (r, s') = add_active_txn kv encode s txn_id txn_id in
          (
            r,
            record m { active_txns = HashMap.insert m.active_txns txn_id (TxnMeta.new txn_id) },
            s',
          ))

  unfoldable pub abort_txn :
      VisibilityManager → kv.Store → TxnId → Result (Unit {0}) × VisibilityManager × kv.Store
  abort_txn m s txn_id =
      let (r, s') = remove_active_txn kv s txn_id in
      (
        r,
        record m {
          active_txns = HashMap.remove m.active_txns txn_id;
          recovered_txns = HashSet.remove m.recovered_txns txn_id;
        },
        s',
      )

  unfoldable pub rollback_txn :
      VisibilityManager → kv.Store → TxnId → Result (Unit {0}) × VisibilityManager × kv.Store
  unfolding abort_txn
  rollback_txn = abort_txn

  -- What `commit_txn` does after its conflict detection. The time that it stores in the entry of
  -- the active transaction goes with the entry.
  finish_commit :
      VisibilityManager
      → kv.Store
      → TxnId
      → ℕ
      → ℕ
      → ℕ
      → Option (TxnId × Bool × Bool)
      → Result TxnSnapshot × VisibilityManager × kv.Store
  finish_commit m s txn_id inserted_at ts now_ms (some (other, rw, ww)) =
      let (r, m', s') = abort_txn m s txn_id in
      (elim r [ ok _ ↦ err (mvcc_conflict txn_id (ssi other rw ww)) | err e ↦ err e ], m', s')
  finish_commit m s txn_id inserted_at ts now_ms none =
      let m' = committed_state m txn_id inserted_at ts now_ms in
      let (r, s') = remove_active_txn kv s txn_id in
      (elim r [ ok _ ↦ ok (take_snapshot m' snapshot) | err e ↦ err e ], m', s')

  unfoldable pub commit_txn :
      VisibilityManager
      → kv.Store
      → TxnId
      → ℕ
      → ℕ
      → ℕ
      → Result TxnSnapshot × VisibilityManager × kv.Store
  unfolding finish_commit
  commit_txn m s txn_id inserted_at ts now_ms = elim (HashMap.get m.active_txns txn_id) [
    | none ↦ (err (mvcc_conflict txn_id not_active), m, s)
    | some txn_meta ↦
        finish_commit m s txn_id inserted_at ts now_ms (conflict_of txn_id txn_meta m.active_txns)
  ]
