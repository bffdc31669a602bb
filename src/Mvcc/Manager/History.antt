-- ===== src/Mvcc/Manager/History.antt =====
-- src/mvcc/visibility.rs: the commit history of `VisibilityManager` and its pruning.
pub mod Retention
pub mod Bound
use rockduck.Prelude.{
  nat_eq, ℕ, ◌-◌, ◌*◌, ◌/◌, ◌%◌, ◌^◌, max, List, [], ◌∷◌, map, leb, ltb, if◌then◌else◌, filter,
  length, take,
}
use rockduck.Std.HashMap
use rockduck.Std.HashMap.{HashMap}
use rockduck.Mvcc.TxnMeta.{TxnId}

-- `VisibilityConfig` of src/config.rs
pub record VisibilityConfig : Type 0 where
  pub max_history_entries : ℕ
  pub history_ttl_secs : ℕ

abbrev pub default_config : VisibilityConfig
default_config = record { max_history_entries = 100_000; history_ttl_secs = 3600 }

-- committed transaction ↦ (commit_timestamp, inserted_at)
abbrev pub CommitHistory : Type 0
CommitHistory = HashMap TxnId (ℕ × ℕ)

-- `sort_by_key(|i| i.0)`, which is stable
insert_by_key : ℕ × TxnId → List (ℕ × TxnId) → List (ℕ × TxnId)
insert_by_key i [] = i ∷ []
insert_by_key i (j ∷ l) = if leb i.0 j.0 then i ∷ j ∷ l else j ∷ insert_by_key i l

pub sort_by_key : List (ℕ × TxnId) → List (ℕ × TxnId)
unfolding insert_by_key
sort_by_key [] = []
sort_by_key (i ∷ l) = insert_by_key i (sort_by_key l)

-- the loop over the entries to evict
pub remove_all : CommitHistory → List (ℕ × TxnId) → CommitHistory
remove_all history [] = history
remove_all history (i ∷ l) = remove_all (HashMap.remove history i.1) l

-- Strategy 1: by count
unfoldable pub evict_by_count : VisibilityConfig → CommitHistory → CommitHistory
evict_by_count config history =
    if ltb config.max_history_entries (length history)
    then (let items = sort_by_key (map (λ e. ((e.1).1, e.0)) history) in
        let keep_count = config.max_history_entries * 4 % 2 ^ 64 / 5 in
        let evict_count = length items - keep_count in remove_all history (take evict_count items))
    else history

-- Strategy 2: by the time of insertion
unfoldable pub cutoff : VisibilityConfig → ℕ → ℕ → ℕ
cutoff config replay_watermark now_ms =
    max (now_ms - config.history_ttl_secs * 1000 % 2 ^ 64) replay_watermark

unfoldable pub prune_history : VisibilityConfig → ℕ → ℕ → CommitHistory → CommitHistory
prune_history config replay_watermark now_ms history =
    filter (λ e. leb (cutoff config replay_watermark now_ms) (e.1).1)
      (evict_by_count config history)
