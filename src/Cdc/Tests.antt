-- ===== src/Cdc/Tests.antt =====
-- Three changes into a buffer for two.
use rockduck.Prelude.{ℕ, ◌≡◌, List, [], ◌∷◌, take, arith}
use rockduck.Cdc.Log.{CdcLogEntry, cdc_insert, CdcLogBuffer}
use rockduck.Cdc.Log.Bound.{push_all, push_all-eq-take}

abbrev change : ℕ → CdcLogEntry
change n = record {
  op = cdc_insert;
  table = [];
  seg_id = [];
  pk = n ∷ [];
  before = [];
  after = [];
  txn_id = n;
  ts = n;
}

abbrev small : CdcLogBuffer
small = record { entries = change 1 ∷ []; max_size = 2; dropped_count = 0 }

abbrev changes : List CdcLogEntry
changes = change 2 ∷ change 3 ∷ change 4 ∷ []

push_all-eq-take_example :
    ((push_all small changes).entries ≡ take 2 (change 1 ∷ changes))
    × ((push_all small changes).dropped_count ≡ 2)
push_all-eq-take_example = push_all-eq-take changes small (omega arith)
