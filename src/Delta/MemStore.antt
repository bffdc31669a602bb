-- ===== src/Delta/MemStore.antt =====
-- src/storage/delta/mem_store.rs: the first layer, two buffers that change places. A call that reads
-- the clock takes the time in milliseconds. The background thread and the heat of columns, which is
-- computed in floating point, are left out.
pub mod Durable
pub mod Logged
pub mod Flush
pub mod Reads
use rockduck.Prelude.{
  nat_eq, list_eq, nat_ord, list_ord, pair_ord, ℕ, suc, ◌+◌, ◌-◌, ◌≤◌, Bool, true, false, not, ◌&&◌,
  ◌||◌, ◌==◌, Option, none, some, List, [], ◌∷◌, ◌++◌, map, Bytes, Str, length, filter, elem, leb,
  ltb, if◌then◌else◌, Ord, Ordering, drop,
}
use rockduck.Std.BTreeMap
use rockduck.Std.BTreeMap.{BTreeMap}
use rockduck.Delta.Cell.{DeltaCell}

pub data SyncLevel : Type 0 where
  immediate : SyncLevel
  batch : (ms max_pending : ℕ) → SyncLevel
  asynchronous : SyncLevel

-- (seg_id, row_offset, column, txn_id)
abbrev pub DeltaKey : Type 0
DeltaKey = Str × (ℕ × (Str × ℕ))

instance abbrev pub delta_key_ord : Ord DeltaKey
delta_key_ord = pair_ord

abbrev pub Buffer : Type 0
Buffer = BTreeMap DeltaKey DeltaCell

abbrev pub delta_key : DeltaCell → DeltaKey
delta_key d = (d.seg_id, (d.row_offset, (d.column, d.txn_id)))

len_or_zero : Option Bytes → ℕ
len_or_zero none = 0
len_or_zero (some v) = length v

unfoldable pub estimate_size : DeltaCell → ℕ
unfolding len_or_zero
estimate_size d =
    length d.column + len_or_zero d.before + len_or_zero d.after + length d.seg_id + 32

abbrev pub VisibleCache : Type 0
VisibleCache = List ((Str × ℕ) × List DeltaCell)

pub record DeltaMemStore : Type 0 where
  pub hot : Buffer
  pub cold : Buffer
  pub snapshot : Buffer
  pub hot_size_bytes : ℕ
  pub flush_threshold : ℕ
  pub sync_level : SyncLevel
  pub wal_buffer : List DeltaCell
  pub last_wal_flush : ℕ
  pub batch_ms : ℕ
  pub batch_max_pending : ℕ
  pub shutdown : Bool
  pub has_wal : Bool
  pub visible_cache : VisibleCache

abbrev batch_of : SyncLevel → ℕ × ℕ
batch_of (batch ms max_pending) = (ms, max_pending)
batch_of _ = (100, 1000)

-- `has_wal` tells whether there is a `wal_writer`
unfoldable pub with_wal : ℕ → SyncLevel → Bool → ℕ → DeltaMemStore
with_wal flush_threshold sync_level has_wal now = record {
  hot = [];
  cold = [];
  snapshot = [];
  hot_size_bytes = 0;
  flush_threshold = flush_threshold;
  sync_level = sync_level;
  wal_buffer = [];
  last_wal_flush = now;
  batch_ms = (batch_of sync_level).0;
  batch_max_pending = (batch_of sync_level).1;
  shutdown = false;
  has_wal = has_wal;
  visible_cache = [];
}

unfoldable pub should_flush : DeltaMemStore → Bool
should_flush s = ltb s.flush_threshold s.hot_size_bytes

-- The part that `put` shares with `replay_into`.
abbrev pub insert_hot : DeltaMemStore → DeltaCell → DeltaMemStore
insert_hot s delta = record s {
  hot = BTreeMap.insert s.hot (delta_key delta) delta;
  hot_size_bytes = s.hot_size_bytes + estimate_size delta;
}

unfoldable pub replay_into : DeltaMemStore → DeltaCell → DeltaMemStore
replay_into s delta = if s.shutdown then s else insert_hot s delta

unfoldable pub swap_and_drain : DeltaMemStore → List DeltaCell × DeltaMemStore
swap_and_drain s = (
  BTreeMap.values s.cold,
  record s { hot = s.cold; cold = s.hot; hot_size_bytes = 0; snapshot = s.hot },
)

unfoldable pub drain_cold : DeltaMemStore → List DeltaCell × DeltaMemStore
drain_cold s = (BTreeMap.values s.cold, record s { cold = [] })

unfoldable pub drain_after_swap : DeltaMemStore → List DeltaCell × DeltaMemStore
unfolding swap_and_drain drain_cold
drain_after_swap s =
    let (swapped, s') = swap_and_drain s in
    let (cold, s'') = drain_cold s' in (swapped ++ cold, s'')

unfoldable pub try_flush : DeltaMemStore → Option (List DeltaCell) × DeltaMemStore
unfolding should_flush swap_and_drain
try_flush s =
    if not (should_flush s)
    then (none, s)
    else let (drained, s') = swap_and_drain s in (some drained, s')

-- What a cell must satisfy to be returned for a snapshot.
abbrev pub passes : ℕ → DeltaCell → Bool
passes snapshot_txn d = leb d.txn_id snapshot_txn && d.committed

abbrev pub find_cached : VisibleCache → Str → ℕ → Option (List DeltaCell)
find_cached [] seg_id snapshot_txn = none
find_cached (((sid, txn), result) ∷ cache) seg_id snapshot_txn =
    if (sid == seg_id) && (txn == snapshot_txn)
    then some result
    else find_cached cache seg_id snapshot_txn

abbrev pub seen_key : DeltaKey → List DeltaKey → Bool
seen_key k [] = false
seen_key k (j ∷ seen) = elim (delta_key_ord.cmp j k) [ Ordering.eq ↦ true | _ ↦ seen_key k seen ]

-- The loop over the snapshot, with its set of the keys that it has seen.
abbrev pub snapshot_cells : ℕ → List DeltaKey → List DeltaCell → List DeltaCell
snapshot_cells snapshot_txn seen [] = []
snapshot_cells snapshot_txn seen (d ∷ ds) =
    elim (passes snapshot_txn d && not (seen_key (delta_key d) seen)) [
      | true ↦ d ∷ snapshot_cells snapshot_txn (delta_key d ∷ seen) ds
      | false ↦ snapshot_cells snapshot_txn seen ds
    ]

abbrev pub visible_cells : DeltaMemStore → ℕ → List DeltaCell
visible_cells s snapshot_txn =
    filter (passes snapshot_txn) (BTreeMap.values s.hot)
    ++ (filter (passes snapshot_txn) (BTreeMap.values s.cold)
        ++ snapshot_cells snapshot_txn [] (BTreeMap.values s.snapshot))

abbrev pub cache_result : VisibleCache → Str → ℕ → List DeltaCell → VisibleCache
cache_result cache seg_id snapshot_txn result =
    (if leb 16 (length cache) then drop 1 cache else cache)
    ++ (((seg_id, snapshot_txn), result) ∷ [])

unfoldable pub get_visible : DeltaMemStore → Str → ℕ → List DeltaCell × DeltaMemStore
get_visible s seg_id snapshot_txn = elim (find_cached s.visible_cache seg_id snapshot_txn) [
  | some result ↦ (result, s)
  | none ↦
      let result = visible_cells s snapshot_txn in
      (result, record s { visible_cache = cache_result s.visible_cache seg_id snapshot_txn result })
]

-- `max_by_key`: the last of the greatest
abbrev max_by_txn : Option DeltaCell → List DeltaCell → Option DeltaCell
max_by_txn o [] = o
max_by_txn none (d ∷ ds) = max_by_txn (some d) ds
max_by_txn (some e) (d ∷ ds) = max_by_txn (some (if leb e.txn_id d.txn_id then d else e)) ds

unfoldable pub get_cell : DeltaMemStore → Str → ℕ → Str → ℕ → Option DeltaCell × DeltaMemStore
unfolding get_visible
get_cell s seg_id row_offset column snapshot_txn =
    let (candidates, s') = get_visible s seg_id snapshot_txn in
    (
      max_by_txn none
          (filter (λ d. (d.row_offset == row_offset) && (d.column == column)) candidates),
      s',
    )
