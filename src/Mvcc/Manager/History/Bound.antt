-- ===== src/Mvcc/Manager/History/Bound.antt =====
-- src/mvcc/visibility.rs: `prune_history` by the number of the commits.
use rockduck.Prelude.{
  nat_eq, ℕ, zero, suc, ◌+◌, ◌-◌, ◌*◌, ◌/◌, ◌%◌, ◌^◌, ◌≤◌, ◌<◌, ◌≡◌, refl, ap, true, false, ◌||◌,
  none, List, [], ◌∷◌, map, arith, inl, inr, ltb, take, length, elem, ◌==◌, Bool-cases, sym, ◌∙◌,
}
use rockduck.Std.HashMap
use rockduck.Std.HashMap.{IsUnique}
use rockduck.Mvcc.TxnMeta.{TxnId}
use rockduck.Mvcc.Manager.History.{
  VisibilityConfig, CommitHistory, insert_by_key, sort_by_key, remove_all, evict_by_count,
}

abbrev ids : List (ℕ × TxnId) → List TxnId
ids = map (λ i. i.1)

abbrev IsDistinct : List TxnId → Type 0
IsDistinct [] = Unit
IsDistinct (x ∷ xs) = (elem x xs ≡ false) × IsDistinct xs

elem-insert_by_key :
    (i : ℕ × TxnId) (l : List (ℕ × TxnId)) (k : TxnId)
    → elem k (ids (insert_by_key i l)) ≡ (i.1 == k || elem k (ids l))
unfolding insert_by_key
elem-insert_by_key i [] k = refl
elem-insert_by_key i (j ∷ l) k = ground (arith, elem-insert_by_key i l k)

elem-sort_by_key :
    (l : List (ℕ × TxnId)) (k : TxnId) → elem k (ids (sort_by_key l)) ≡ elem k (ids l)
unfolding sort_by_key
elem-sort_by_key [] k = refl
elem-sort_by_key (i ∷ l) k =
    ground (arith, elem-insert_by_key i (sort_by_key l) k, elem-sort_by_key l k)

insert_by_key-IsDistinct :
    (i : ℕ × TxnId) (l : List (ℕ × TxnId))
    → elem i.1 (ids l) ≡ false
    → IsDistinct (ids l)
    → IsDistinct (ids (insert_by_key i l))
unfolding insert_by_key
insert_by_key-IsDistinct i [] h d = (refl, tt)
insert_by_key-IsDistinct i (j ∷ l) h d =
    ground (arith, insert_by_key-IsDistinct i l, elem-insert_by_key i l j.1)

sort_by_key-IsDistinct :
    (l : List (ℕ × TxnId)) → IsDistinct (ids l) → IsDistinct (ids (sort_by_key l))
unfolding sort_by_key
sort_by_key-IsDistinct [] d = tt
sort_by_key-IsDistinct (i ∷ l) d =
    insert_by_key-IsDistinct i (sort_by_key l) (rw elem-sort_by_key d.0)
      (sort_by_key-IsDistinct l d.1)

length-insert_by_key :
    (i : ℕ × TxnId) (l : List (ℕ × TxnId)) → length (insert_by_key i l) ≡ suc (length l)
unfolding insert_by_key
length-insert_by_key i [] = refl
length-insert_by_key i (j ∷ l) = ground (arith, length-insert_by_key i l)

length-sort_by_key : (l : List (ℕ × TxnId)) → length (sort_by_key l) ≡ length l
unfolding sort_by_key
length-sort_by_key [] = refl
length-sort_by_key (i ∷ l) =
    omega (arith, length-insert_by_key i (sort_by_key l), length-sort_by_key l)

length-remove_absent :
    (m : CommitHistory) (k : TxnId)
    → HashMap.get m k ≡ none
    → length (HashMap.remove m k) ≡ length m
length-remove_absent [] k h = refl
length-remove_absent ((j, v) ∷ m) k h = ground (arith, length-remove_absent m k)

length-remove :
    (m : CommitHistory) (k : TxnId)
    → IsUnique m
    → HashMap.contains_key m k ≡ true
    → length (HashMap.remove m k) + 1 ≡ length m
length-remove [] k u h = cc
length-remove ((j, v) ∷ m) k u h = ground (arith, length-remove m k u.1, length-remove_absent m k)

-- Every item's transaction is in the history, and none stands twice.
record Fits (items : List (ℕ × TxnId)) (history : CommitHistory) : Type 0 where
  distinct : IsDistinct (ids items)
  present : (k : TxnId) → elem k (ids items) ≡ true → HashMap.contains_key history k ≡ true

Fits-remove :
    (i : ℕ × TxnId) (items : List (ℕ × TxnId)) (history : CommitHistory)
    → Fits (i ∷ items) history
    → Fits items (HashMap.remove history i.1)
Fits-remove i items history f = record {
  distinct = f.distinct.1;
  present = λ k h. ground (arith, HashMap.get-remove history i.1 k, f.present k, f.distinct.0);
}

length-remove_all :
    (items : List (ℕ × TxnId)) (history : CommitHistory)
    → IsUnique history
    → Fits items history
    → length (remove_all history items) + length items ≡ length history
unfolding remove_all
length-remove_all [] history u f = omega arith
length-remove_all (i ∷ items) history u f = omega (
  arith,
  length-remove_all items (HashMap.remove history i.1) (HashMap.remove-IsUnique history i.1 u)
      (Fits-remove i items history f),
  length-remove history i.1 u (f.present i.1 (ground arith)),
)

take-distinct :
    (n : ℕ) (l : List (ℕ × TxnId)) (k : TxnId)
    → elem k (ids l) ≡ false
    → elem k (ids (take n l)) ≡ false
take-distinct zero l k h = refl
take-distinct (suc n) [] k h = refl
take-distinct (suc n) (i ∷ l) k h = ground (arith, take-distinct n l k)

Fits-take : (n : ℕ) (l : List (ℕ × TxnId)) → IsDistinct (ids l) → IsDistinct (ids (take n l))
Fits-take zero l d = tt
Fits-take (suc n) [] d = tt
Fits-take (suc n) (i ∷ l) d = (take-distinct n l i.1 d.0, Fits-take n l d.1)

length-take : (n : ℕ) (l : List (ℕ × TxnId)) → n ≤ length l → length (take n l) ≡ n
length-take zero l h = refl
length-take (suc n) [] h = absurd (omega arith)
length-take (suc n) (i ∷ l) h = omega (arith, length-take n l)

elem-take :
    (n : ℕ) (l : List (ℕ × TxnId)) (k : TxnId)
    → elem k (ids (take n l)) ≡ true
    → elem k (ids l) ≡ true
elem-take zero l k h = cc
elem-take (suc n) [] k h = h
elem-take (suc n) (i ∷ l) k h = ground (arith, elem-take n l k)

entries : CommitHistory → List (ℕ × TxnId)
entries = map (λ e. ((e.1).1, e.0))

elem-entries :
    (history : CommitHistory) (k : TxnId)
    → elem k (ids (entries history)) ≡ HashMap.contains_key history k
unfolding entries
elem-entries [] k = refl
elem-entries ((j, v) ∷ history) k = ground (arith, elem-entries history k)

entries-IsDistinct :
    (history : CommitHistory) → IsUnique history → IsDistinct (ids (entries history))
unfolding entries
entries-IsDistinct [] u = tt
entries-IsDistinct ((j, v) ∷ history) u =
    ground (arith, elem-entries history j, entries-IsDistinct history u.1)

length-entries : (history : CommitHistory) → length (entries history) ≡ length history
unfolding entries
length-entries [] = refl
length-entries (e ∷ history) = ap suc (length-entries history)

module _ (history : CommitHistory) (unique : IsUnique history) (n : ℕ)
    (room : n ≤ length history) where
  Fits-oldest : Fits (take n (sort_by_key (entries history))) history
  Fits-oldest = record {
    distinct =
        Fits-take n (sort_by_key (entries history))
          (sort_by_key-IsDistinct (entries history) (entries-IsDistinct history unique));
    present = λ k h.
        sym (elem-entries history k)
        ∙ sym (elem-sort_by_key (entries history) k)
        ∙ elem-take n (sort_by_key (entries history)) k h;
  }

  length-remove_oldest :
      length (remove_all history (take n (sort_by_key (entries history)))) + n ≡ length history
  length-remove_oldest = omega (
    arith,
    length-remove_all (take n (sort_by_key (entries history))) history unique Fits-oldest,
    length-take n (sort_by_key (entries history)),
    length-sort_by_key (entries history),
    length-entries history,
  )

module _ (config : VisibilityConfig) (history : CommitHistory) (unique : IsUnique history) where
  -- After the eviction by count the history holds at most `max_history_entries` entries, and one
  -- that was within that size loses none.
  pub length-evict_by_count :
      config.max_history_entries * 4 < 2 ^ 64
      → (length (evict_by_count config history) ≤ config.max_history_entries)
        × (length history ≤ config.max_history_entries → evict_by_count config history ≡ history)
  unfolding evict_by_count entries
  length-evict_by_count small =
      elim (Bool-cases (ltb config.max_history_entries (length history))) [
        | inl over ↦ (
          let items = sort_by_key (entries history) in
              let n = length items - config.max_history_entries * 4 % 2 ^ 64 / 5 in
              let all : length items ≡ length history =
                length-sort_by_key (entries history) ∙ length-entries history in
              rw over (omega (arith, all, length-remove_oldest history unique n (omega arith))),
          λ h. absurd (ground arith),
        )
        | inr fits ↦ (rw fits (ground arith), λ h. rw fits refl)
      ]
