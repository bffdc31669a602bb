-- ===== src/Delta/MemStore/Flush.antt =====
-- src/storage/delta/mem_store.rs: the two buffers over sequences of operations.
use rockduck.Prelude.{
  ◌≡◌, ◌≢◌, ◌⊎◌, inl, inr, Bool, true, false, Option, none, some, List, [], ◌∷◌, ◌++◌, arith, In,
  ltb, Bool-cases, Ordering,
}
use rockduck.Std.BTreeMap
use rockduck.Std.BTreeMap.{BTreeMap}
use rockduck.Delta.Cell.{DeltaCell}
use rockduck.Delta.MemStore.{
  delta_key_ord, DeltaKey, Buffer, delta_key, DeltaMemStore, should_flush, replay_into,
  swap_and_drain, drain_cold, drain_after_swap, try_flush,
}

-- The calls that change the buffers: an insertion, and the four that hand cells out.
pub data Call : Type 0 where
  replay_call : DeltaCell → Call
  swap_call drain_call drain_after_swap_call try_flush_call : Call

abbrev cells_or_none : Option (List DeltaCell) → List DeltaCell
cells_or_none none = []
cells_or_none (some ds) = ds

-- One call: the cells that it hands out, and the store after it.
unfoldable pub step : DeltaMemStore → Call → List DeltaCell × DeltaMemStore
step s (replay_call d) = ([], replay_into s d)
step s swap_call = swap_and_drain s
step s drain_call = drain_cold s
step s drain_after_swap_call = drain_after_swap s
step s try_flush_call = let (o, s') = try_flush s in (cells_or_none o, s')

-- A sequence of calls: all the cells handed out, and the last store.
unfoldable pub run : DeltaMemStore → List Call → List DeltaCell × DeltaMemStore
unfolding step
run s [] = ([], s)
run s (c ∷ cs) = let (out, s') = step s c in let (rest, s'') = run s' cs in (out ++ rest, s'')

-- A cell is in one of the two buffers.
unfoldable pub IsHeld : DeltaMemStore → DeltaCell → Type 0
IsHeld s d =
    (BTreeMap.get s.hot (delta_key d) ≡ some d) ⊎ (BTreeMap.get s.cold (delta_key d) ≡ some d)

-- No call of the sequence inserts a cell of that key.
unfoldable pub Spares : DeltaKey → List Call → Type 0
Spares k [] = Unit
Spares k (replay_call d ∷ cs) = (delta_key d ≢ k) × Spares k cs
Spares k (swap_call ∷ cs) = Spares k cs
Spares k (drain_call ∷ cs) = Spares k cs
Spares k (drain_after_swap_call ∷ cs) = Spares k cs
Spares k (try_flush_call ∷ cs) = Spares k cs

pub In-append-left : (d : DeltaCell) (xs ys : List DeltaCell) → In d xs → In d (xs ++ ys)
In-append-left d [] ys i = absurd i
In-append-left d (x ∷ xs) ys (inl e) = inl e
In-append-left d (x ∷ xs) ys (inr i) = inr (In-append-left d xs ys i)

pub In-append-right : (d : DeltaCell) (xs ys : List DeltaCell) → In d ys → In d (xs ++ ys)
In-append-right d [] ys i = i
In-append-right d (x ∷ xs) ys i = inr (In-append-right d xs ys i)

is_eq : Ordering → Bool
is_eq Ordering.eq = true
is_eq _ = false

pub get-values :
    (m : Buffer) (k : DeltaKey) (d : DeltaCell)
    → BTreeMap.get m k ≡ some d
    → In d (BTreeMap.values m)
unfolding is_eq
get-values [] k d h = absurd (ground arith)
get-values ((j, c) ∷ m) k d h = elim (Bool-cases (is_eq (delta_key_ord.cmp j k))) [
  | inl e ↦ let q : some c ≡ some d = ground arith in let r : d ≡ c = ground arith in inl r
  | inr e ↦ inr (get-values m k d (ground arith))
]

swapped : (s : DeltaMemStore) (d : DeltaCell) → IsHeld s d → IsHeld (swap_and_drain s).1 d
unfolding IsHeld swap_and_drain
swapped s d (inl h) = inr h
swapped s d (inr h) = inl h

-- One call that does not insert under the key: the cell is held after it or handed out by it.
IsHeld-step :
    (s : DeltaMemStore) (c : Call) (d : DeltaCell)
    → Spares (delta_key d) (c ∷ [])
    → IsHeld s d
    → In d (step s c).0 ⊎ IsHeld (step s c).1 d
unfolding step IsHeld Spares swap_and_drain drain_cold drain_after_swap try_flush replay_into
    should_flush
IsHeld-step s (replay_call e) d p (inl h) = inr (
    inl (
      ground (
        arith,
        BTreeMap.get-insert s.hot (delta_key e) e (delta_key d),
        delta_key_ord.cmp_iff (delta_key e) (delta_key d),
      )))
IsHeld-step s (replay_call e) d p (inr h) = inr (inr (ground arith))
IsHeld-step s swap_call d p (inl h) = inr (inr h)
IsHeld-step s swap_call d p (inr h) = inr (inl h)
IsHeld-step s drain_call d p (inl h) = inr (inl h)
IsHeld-step s drain_call d p (inr h) = inl (get-values s.cold (delta_key d) d h)
IsHeld-step s drain_after_swap_call d p (inl h) = inl (
    In-append-right d (BTreeMap.values s.cold) (BTreeMap.values s.hot)
      (get-values s.hot (delta_key d) d h))
IsHeld-step s drain_after_swap_call d p (inr h) = inr (inl h)
IsHeld-step s try_flush_call d p h = elim (Bool-cases (ltb s.flush_threshold s.hot_size_bytes)) [
  | inl e ↦ rw e (inr (swapped s d h))
  | inr e ↦ rw e (inr h)
]

Spares-first : (k : DeltaKey) (c : Call) (cs : List Call) → Spares k (c ∷ cs) → Spares k (c ∷ [])
unfolding Spares
Spares-first k (replay_call d) cs p = (p.0, tt)
Spares-first k swap_call cs p = tt
Spares-first k drain_call cs p = tt
Spares-first k drain_after_swap_call cs p = tt
Spares-first k try_flush_call cs p = tt

Spares-rest : (k : DeltaKey) (c : Call) (cs : List Call) → Spares k (c ∷ cs) → Spares k cs
unfolding Spares
Spares-rest k (replay_call d) cs p = p.1
Spares-rest k swap_call cs p = p
Spares-rest k drain_call cs p = p
Spares-rest k drain_after_swap_call cs p = p
Spares-rest k try_flush_call cs p = p

-- A cell that is in a buffer is handed out by the calls that follow or is in a buffer after them,
-- unless one of them inserts another cell of its key.
pub run-IsHeld :
    (cs : List Call) (s : DeltaMemStore) (d : DeltaCell)
    → Spares (delta_key d) cs
    → IsHeld s d
    → In d (run s cs).0 ⊎ IsHeld (run s cs).1 d
unfolding run
run-IsHeld [] s d p h = inr h
run-IsHeld (c ∷ cs) s d p h = elim (IsHeld-step s c d (Spares-first (delta_key d) c cs p) h) [
  | inl i ↦ inl (In-append-left d (step s c).0 (run (step s c).1 cs).0 i)
  | inr g ↦ elim (run-IsHeld cs (step s c).1 d (Spares-rest (delta_key d) c cs p) g) [
    | inl i ↦ inl (In-append-right d (step s c).0 (run (step s c).1 cs).0 i)
    | inr i ↦ inr i
  ]
]

-- A cell that is inserted is in a buffer.
pub replay_into-IsHeld :
    (s : DeltaMemStore) (d : DeltaCell) → s.shutdown ≡ false → IsHeld (replay_into s d) d
unfolding IsHeld replay_into
replay_into-IsHeld s d h = rw h (
    inl (
      ground (
        arith,
        BTreeMap.get-insert s.hot (delta_key d) d (delta_key d),
        delta_key_ord.cmp_iff (delta_key d) (delta_key d),
      )))
