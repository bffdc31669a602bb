-- ===== src/Delta/MemStore/Reads.antt =====
-- src/storage/delta/mem_store.rs: reads from the buffers and from the cache.
use rockduck.Prelude.{
  nat_eq, list_eq, ℕ, ◌≡◌, refl, sym, ap, ◌∙◌, inl, inr, true, not, ◌&&◌, ◌==◌, none, some, List,
  [], ◌∷◌, ◌++◌, arith, Str, In, In-filter, filter-In, filter, length, drop, leb, Bool-cases,
  Option-cases,
}
use mathlib.Core.Path.{subst}
use rockduck.Std.BTreeMap
use rockduck.Delta.Cell.{DeltaCell}
use rockduck.Delta.MemStore.{
  delta_key_ord, DeltaKey, delta_key, DeltaMemStore, VisibleCache, passes, find_cached, seen_key,
  snapshot_cells, visible_cells, cache_result, get_visible, replay_into, swap_and_drain, drain_cold,
  drain_after_swap, try_flush, should_flush,
}
use rockduck.Delta.MemStore.Flush.{
  Call, replay_call, swap_call, drain_call, drain_after_swap_call, try_flush_call, step, run,
  get-values, In-append-left,
}

find_cached-append :
    (cache : VisibleCache) (seg_id : Str) (txn : ℕ) (r : List DeltaCell)
    → find_cached cache seg_id txn ≡ none
    → find_cached (cache ++ (((seg_id, txn), r) ∷ [])) seg_id txn ≡ some r
find_cached-append [] seg_id txn r h =
    ground (arith, (list_eq {A = ℕ}).equals_iff seg_id seg_id, nat_eq.equals_iff txn txn)
find_cached-append (((s, t), q) ∷ cache) seg_id txn r h =
    elim (Bool-cases ((s == seg_id) && (t == txn))) [
      | inl e ↦ absurd (ground arith)
      | inr e ↦ ground (arith, find_cached-append cache seg_id txn r)
    ]

find_cached-drop :
    (cache : VisibleCache) (seg_id : Str) (txn : ℕ)
    → find_cached cache seg_id txn ≡ none
    → find_cached (drop 1 cache) seg_id txn ≡ none
find_cached-drop [] seg_id txn h = refl
find_cached-drop (((s, t), q) ∷ cache) seg_id txn h =
    elim (Bool-cases ((s == seg_id) && (t == txn))) [
      | inl e ↦ absurd (ground arith)
      | inr e ↦ ground arith
    ]

find_cached-cache_result :
    (cache : VisibleCache) (seg_id : Str) (txn : ℕ) (r : List DeltaCell)
    → find_cached cache seg_id txn ≡ none
    → find_cached (cache_result cache seg_id txn r) seg_id txn ≡ some r
find_cached-cache_result cache seg_id txn r h = elim (Bool-cases (leb 16 (length cache))) [
  | inl e ↦
      rw (e, cache_result)
        (find_cached-append (drop 1 cache) seg_id txn r (find_cached-drop cache seg_id txn h))
  | inr e ↦ rw (e, cache_result) (find_cached-append cache seg_id txn r h)
]

get_visible-hit :
    (s : DeltaMemStore) (seg_id : Str) (txn : ℕ) (r : List DeltaCell)
    → find_cached s.visible_cache seg_id txn ≡ some r
    → get_visible s seg_id txn ≡ (r, s)
unfolding get_visible
get_visible-hit s seg_id txn r h = rw (h, get_visible) refl

get_visible-miss :
    (s : DeltaMemStore) (seg_id : Str) (txn : ℕ)
    → find_cached s.visible_cache seg_id txn ≡ none
    → get_visible s seg_id txn ≡ (
      visible_cells s txn,
      record s { visible_cache = cache_result s.visible_cache seg_id txn (visible_cells s txn) },
    )
unfolding get_visible
get_visible-miss s seg_id txn h = rw (h, get_visible) refl

-- After a read, its result is in the cache.
find_cached-get_visible :
    (s : DeltaMemStore) (seg_id : Str) (txn : ℕ)
    → find_cached ((get_visible s seg_id txn).1).visible_cache seg_id txn
      ≡ some (get_visible s seg_id txn).0
find_cached-get_visible s seg_id txn =
    elim (Option-cases (find_cached s.visible_cache seg_id txn)) [
      | inl e ↦
          let h = get_visible-miss s seg_id txn e in
          ap (λ p. find_cached (p.1).visible_cache seg_id txn) h
          ∙ find_cached-cache_result s.visible_cache seg_id txn (visible_cells s txn) e
          ∙ sym (ap (λ p. some p.0) h)
      | inr (r, e) ↦
          let h = get_visible-hit s seg_id txn r e in
          ap (λ p. find_cached (p.1).visible_cache seg_id txn) h ∙ e ∙ sym (ap (λ p. some p.0) h)
    ]

visible_cache-step : (s : DeltaMemStore) (c : Call) → ((step s c).1).visible_cache ≡ s.visible_cache
unfolding step replay_into swap_and_drain drain_cold drain_after_swap try_flush should_flush
visible_cache-step s (replay_call d) = ground arith
visible_cache-step s swap_call = refl
visible_cache-step s drain_call = refl
visible_cache-step s drain_after_swap_call = refl
visible_cache-step s try_flush_call = ground arith

visible_cache-run :
    (cs : List Call) (s : DeltaMemStore) → ((run s cs).1).visible_cache ≡ s.visible_cache
unfolding run
visible_cache-run [] s = refl
visible_cache-run (c ∷ cs) s = visible_cache-run cs (step s c).1 ∙ visible_cache-step s c

-- Nothing empties the cache of reads: a second read of a segment at a snapshot returns what the
-- first returned, whatever was inserted or handed out between the two.
pub get_visible-again :
    (s : DeltaMemStore) (seg_id : Str) (txn : ℕ) (cs : List Call)
    → (get_visible (run (get_visible s seg_id txn).1 cs).1 seg_id txn).0
      ≡ (get_visible s seg_id txn).0
get_visible-again s seg_id txn cs =
    let s' = (get_visible s seg_id txn).1 in
    ap (λ p. p.0)
      (get_visible-hit (run s' cs).1 seg_id txn (get_visible s seg_id txn).0 (
        ap (λ c. find_cached c seg_id txn) (visible_cache-run cs s')
        ∙ find_cached-get_visible s seg_id txn))

-- Every cell of a list passes for the snapshot.
AllPass : ℕ → List DeltaCell → Type 0
AllPass txn ds = (d : DeltaCell) → In d ds → passes txn d ≡ true

-- Every result in the cache holds cells that pass for its snapshot.
unfoldable pub IsCacheSound : VisibleCache → Type 0
unfolding AllPass
IsCacheSound [] = Unit
IsCacheSound (((seg_id, txn), r) ∷ cache) =
    ((d : DeltaCell) → In d r → passes txn d ≡ true) × IsCacheSound cache

In-append :
    {P : Type 0} (d : DeltaCell) (xs ys : List DeltaCell)
    → In d (xs ++ ys)
    → (In d xs → P)
    → (In d ys → P)
    → P
In-append d [] ys i f g = g i
In-append d (x ∷ xs) ys (inl e) f g = f (inl e)
In-append d (x ∷ xs) ys (inr i) f g = In-append d xs ys i (λ j. f (inr j)) g

In-snapshot_cells :
    (txn : ℕ) (seen : List DeltaKey) (ds : List DeltaCell) (d : DeltaCell)
    → In d (snapshot_cells txn seen ds)
    → passes txn d ≡ true
In-snapshot_cells txn seen [] d i = absurd i
In-snapshot_cells txn seen (c ∷ ds) d i =
    elim (Bool-cases (passes txn c && not (seen_key (delta_key c) seen))) [
      | inl e ↦
          let j : In d (c ∷ snapshot_cells txn (delta_key c ∷ seen) ds) =
            rw (e, snapshot_cells) at i in
          elim j [
            | inl q ↦ ap (passes txn) q ∙ ground arith
            | inr k ↦ In-snapshot_cells txn (delta_key c ∷ seen) ds d k
          ]
      | inr e ↦ In-snapshot_cells txn seen ds d (rw (e, snapshot_cells) at i)
    ]

visible_cells-AllPass : (s : DeltaMemStore) (txn : ℕ) → AllPass txn (visible_cells s txn)
unfolding AllPass
visible_cells-AllPass s txn d i =
    In-append d (filter (passes txn) (BTreeMap.values s.hot))
      (filter (passes txn) (BTreeMap.values s.cold)
        ++ snapshot_cells txn [] (BTreeMap.values s.snapshot))
      i (λ j. (In-filter (passes txn) d (BTreeMap.values s.hot) j).1)
      (λ j.
        In-append d (filter (passes txn) (BTreeMap.values s.cold))
          (snapshot_cells txn [] (BTreeMap.values s.snapshot)) j
          (λ k. (In-filter (passes txn) d (BTreeMap.values s.cold) k).1)
          (λ k. In-snapshot_cells txn [] (BTreeMap.values s.snapshot) d k))

find_cached-AllPass :
    (cache : VisibleCache) (seg_id : Str) (txn : ℕ) (r : List DeltaCell)
    → IsCacheSound cache
    → find_cached cache seg_id txn ≡ some r
    → AllPass txn r
unfolding AllPass IsCacheSound
find_cached-AllPass [] seg_id txn r h e d i = absurd (ground arith)
find_cached-AllPass (((sid, t), q) ∷ cache) seg_id txn r h e d i =
    elim (Bool-cases ((sid == seg_id) && (t == txn))) [
      | inl f ↦
          let eq : some q ≡ some r = rw (f, find_cached) at e in
          let q_eq : q ≡ r = ground arith in
          let t_eq : t ≡ txn = ground (arith, nat_eq.equals_iff t txn) in
          sym (ap (λ x. passes x d) t_eq) ∙ h.0 d (subst (In d) (sym q_eq) i)
      | inr f ↦ find_cached-AllPass cache seg_id txn r h.1 (rw (f, find_cached) at e) d i
    ]

-- With sound results in the cache, every cell that a read returns is committed and no newer than
-- the snapshot.
pub get_visible-passes :
    (s : DeltaMemStore) (seg_id : Str) (txn : ℕ) (d : DeltaCell)
    → IsCacheSound s.visible_cache
    → In d (get_visible s seg_id txn).0
    → passes txn d ≡ true
unfolding AllPass
get_visible-passes s seg_id txn d h i =
    elim (Option-cases (find_cached s.visible_cache seg_id txn)) [
      | inl e ↦
          visible_cells-AllPass s txn d (subst (λ p. In d p.0) (get_visible-miss s seg_id txn e) i)
      | inr (r, e) ↦
          find_cached-AllPass s.visible_cache seg_id txn r h e d
            (subst (λ p. In d p.0) (get_visible-hit s seg_id txn r e) i)
    ]

-- A read that is not in the cache returns every cell of the hot buffer that is committed and no
-- newer than the snapshot, of whatever segment it is.
pub get_visible-hot :
    (s : DeltaMemStore) (seg_id : Str) (txn : ℕ) (k : DeltaKey) (d : DeltaCell)
    → find_cached s.visible_cache seg_id txn ≡ none
    → BTreeMap.get s.hot k ≡ some d
    → passes txn d ≡ true
    → In d (get_visible s seg_id txn).0
get_visible-hot s seg_id txn k d e h p =
    subst (λ p. In d p.0) (sym (get_visible-miss s seg_id txn e))
      (In-append-left d (filter (passes txn) (BTreeMap.values s.hot))
        (filter (passes txn) (BTreeMap.values s.cold)
          ++ snapshot_cells txn [] (BTreeMap.values s.snapshot))
        (filter-In (passes txn) d (BTreeMap.values s.hot) (get-values s.hot k d h) p))
