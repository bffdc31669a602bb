-- ===== src/Mvcc/Manager/History/Retention.antt =====
-- src/mvcc/visibility.rs: `prune_history` by the age of the commits.
use rockduck.Prelude.{
  nat_eq, ℕ, ◌≤◌, ◌≡◌, Bool, some, List, [], ◌∷◌, arith, inl, inr, leb, ltb, Bool-cases, leb→le,
  length, false, true, refl, sym, ◌∙◌,
}
use rockduck.Std.HashMap
use rockduck.Std.HashMap.{IsUnique}
use rockduck.Mvcc.TxnMeta.{TxnId}
use rockduck.Mvcc.Manager.History.{
  VisibilityConfig, CommitHistory, remove_all, evict_by_count, cutoff, prune_history,
}

get-remove_all :
    (items : List (ℕ × TxnId)) (history : CommitHistory) (k : TxnId) (v : ℕ × ℕ)
    → HashMap.get (remove_all history items) k ≡ some v
    → HashMap.get history k ≡ some v
unfolding remove_all
get-remove_all [] history k v h = h
get-remove_all (i ∷ items) history k v h = ground (
  arith,
  get-remove_all items (HashMap.remove history i.1) k v h,
  HashMap.get-remove history i.1 k,
)

remove_all-IsUnique :
    (items : List (ℕ × TxnId)) (history : CommitHistory)
    → IsUnique history
    → IsUnique (remove_all history items)
unfolding remove_all
remove_all-IsUnique [] history u = u
remove_all-IsUnique (i ∷ items) history u =
    remove_all-IsUnique items (HashMap.remove history i.1) (HashMap.remove-IsUnique history i.1 u)

module _ (config : VisibilityConfig) where
  get-evict_by_count :
      (history : CommitHistory) (k : TxnId) (v : ℕ × ℕ)
      → HashMap.get (evict_by_count config history) k ≡ some v
      → HashMap.get history k ≡ some v
  unfolding evict_by_count
  get-evict_by_count history k v h =
      elim (Bool-cases (ltb config.max_history_entries (length history))) [
        | inl over ↦ get-remove_all _ history k v (rw over at h)
        | inr fits ↦ rw fits at h
      ]

  pub evict_by_count-IsUnique :
      (history : CommitHistory) → IsUnique history → IsUnique (evict_by_count config history)
  unfolding evict_by_count
  evict_by_count-IsUnique history u =
      elim (Bool-cases (ltb config.max_history_entries (length history))) [
        | inl over ↦ rw over (remove_all-IsUnique _ history u)
        | inr fits ↦ rw fits u
      ]

  module _ (replay_watermark now_ms : ℕ) (history : CommitHistory) (unique : IsUnique history) where
    pub prune_history-IsUnique : IsUnique (prune_history config replay_watermark now_ms history)
    unfolding prune_history
    prune_history-IsUnique = HashMap.filter-IsUnique _ _ (evict_by_count-IsUnique history unique)

    watermark-le-cutoff : replay_watermark ≤ cutoff config replay_watermark now_ms
    unfolding cutoff
    watermark-le-cutoff = omega arith

    -- Pruning changes no entry that it keeps, and keeps none that was inserted before the cutoff:
    -- not before the expiry, and not before the replay watermark either.
    pub get-prune_history :
        (k : TxnId) (ts inserted_at : ℕ)
        → HashMap.get (prune_history config replay_watermark now_ms history) k
          ≡ some (ts, inserted_at)
        → (HashMap.get history k ≡ some (ts, inserted_at))
          × (cutoff config replay_watermark now_ms ≤ inserted_at)
          × (replay_watermark ≤ inserted_at)
    unfolding prune_history
    get-prune_history k ts inserted_at h =
        let evicted = evict_by_count config history in
        let limit = cutoff config replay_watermark now_ms in
        let test : TxnId × (ℕ × ℕ) → Bool = λ e. leb limit (e.1).1 in
        let (found, late) =
          HashMap.keep-eq-some test k (HashMap.get evicted k) (ts, inserted_at)
            (sym (HashMap.get-filter test evicted k (evict_by_count-IsUnique history unique))
              ∙ h) in
        (
          get-evict_by_count history k (ts, inserted_at) found,
          leb→le limit inserted_at late,
          omega (arith, leb→le limit inserted_at late, watermark-le-cutoff),
        )

    -- An entry that was not inserted before the cutoff is kept while the history is within its size.
    pub prune_history-keeps :
        (k : TxnId) (v : ℕ × ℕ)
        → length history ≤ config.max_history_entries
        → HashMap.get history k ≡ some v
        → cutoff config replay_watermark now_ms ≤ v.1
        → HashMap.get (prune_history config replay_watermark now_ms history) k ≡ some v
    unfolding prune_history evict_by_count
    prune_history-keeps k v fits h late =
        let small : ltb config.max_history_entries (length history) ≡ false = ground arith in
        let l : leb (cutoff config replay_watermark now_ms) v.1 ≡ true = ground arith in
        rw small (
          HashMap.get-filter (λ e. leb (cutoff config replay_watermark now_ms) (e.1).1) history k
            unique
          ∙ rw (h, l) refl)
