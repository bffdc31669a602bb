-- ===== src/Segment/UpdMask.antt =====
-- src/segment/upd_mask.rs: the values that updates put over a column, within a budget of bytes. The
-- counter of refused updates, which is only reported, is left out.
pub mod Budget
use rockduck.Prelude.{
  nat_eq, list_eq, ℕ, ◌+◌, ◌-◌, ◌*◌, Bool, true, false, not, ◌||◌, Option, none, some, List, [],
  ◌∷◌, Bytes, Str, length, ltb, any, if◌then◌else◌,
}
use rockduck.Std.HashMap
use rockduck.Std.HashMap.{HashMap}

-- 64 MB
abbrev pub max_updates_bytes : ℕ
max_updates_bytes = 64 * 1024 * 1024

abbrev pub ColumnUpdates : Type 0
ColumnUpdates = HashMap ℕ Bytes

pub record UpdMask : Type 0 where
  pub total_rows : ℕ
  pub updates : HashMap Str ColumnUpdates
  pub current_bytes : ℕ

unfoldable pub new : ℕ → UpdMask
new total_rows = record { total_rows = total_rows; updates = []; current_bytes = 0 }

-- The sizes of a `String` and of a `Vec` are 24 bytes, on 64-bit targets, and that of a `u64` is 8.
unfoldable pub entry_size : Str → Bytes → ℕ
entry_size col value = 24 + length col + 8 + 24 + length value

abbrev pub column_of : Option ColumnUpdates → ColumnUpdates
column_of none = []
column_of (some m) = m

unfoldable pub get : UpdMask → Str → ℕ → Option Bytes
get m col pos = elim (HashMap.get m.updates col) [
  | none ↦ none
  | some positions ↦ HashMap.get positions pos
]

abbrev pub old_entry_size : Str → Option Bytes → ℕ
old_entry_size col none = 0
old_entry_size col (some v) = entry_size col v

unfoldable pub set : UpdMask → Str → ℕ → Bytes → Bool × UpdMask
set m col pos value =
    if ltb max_updates_bytes (m.current_bytes + entry_size col value) then (false, m) else (
      true,
      record m {
        updates =
            HashMap.insert m.updates col
              (HashMap.insert (column_of (HashMap.get m.updates col)) pos value);
        current_bytes = m.current_bytes + entry_size col value - old_entry_size col (get m col pos);
      },
    )

unfoldable pub has_updates : UpdMask → Bool
has_updates m = any (λ e. ltb 0 (length e.1)) m.updates

unfoldable pub update_count : UpdMask → Str → ℕ
update_count m col = length (column_of (HashMap.get m.updates col))

-- The size of the updates of one column, and of all columns.
unfoldable pub column_bytes : Str → ColumnUpdates → ℕ
column_bytes col [] = 0
column_bytes col ((pos, v) ∷ m) = entry_size col v + column_bytes col m

unfoldable pub total_bytes : HashMap Str ColumnUpdates → ℕ
total_bytes [] = 0
total_bytes ((col, m) ∷ u) = column_bytes col m + total_bytes u

unfoldable pub recompute_bytes : UpdMask → UpdMask
recompute_bytes m = record m { current_bytes = total_bytes m.updates }
