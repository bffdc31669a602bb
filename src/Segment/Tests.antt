-- ===== src/Segment/Tests.antt =====
-- A mask with one update.
use rockduck.Prelude.{nat_eq, list_eq, ◌≡◌, refl, true, ◌&&◌, some, [], ◌∷◌, if◌then◌else◌, arith}
use rockduck.Segment.UpdMask.{UpdMask, get, set}
use rockduck.Segment.UpdMask.Budget.{IsCounted, get-set}

abbrev mask : UpdMask
mask = record { total_rows = 10; updates = (99 ∷ [], (4, 1 ∷ []) ∷ []) ∷ []; current_bytes = 58 }

mask-IsCounted : IsCounted mask
unfolding rockduck.Segment.UpdMask.total_bytes rockduck.Segment.UpdMask.column_bytes
    rockduck.Segment.UpdMask.entry_size
mask-IsCounted = record { counted = refl; bounded = omega arith }

get-set_example :
    get (set mask (99 ∷ []) 4 (1 ∷ 2 ∷ [])).1 (99 ∷ []) 4
    ≡ (if (set mask (99 ∷ []) 4 (1 ∷ 2 ∷ [])).0 && true then some (1 ∷ 2 ∷ []) else some (1 ∷ []))
unfolding get
get-set_example = get-set mask (99 ∷ []) 4 (1 ∷ 2 ∷ []) (99 ∷ []) 4
