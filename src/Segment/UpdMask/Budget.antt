-- ===== src/Segment/UpdMask/Budget.antt =====
-- src/segment/upd_mask.rs: the counter of bytes, and reads after updates.
use rockduck.Prelude.{
  nat_eq, list_eq, ℕ, ◌+◌, ◌≤◌, ◌≡◌, ap, some, [], ◌∷◌, Bytes, Str, arith, ltb, if◌then◌else◌, ◌==◌,
  ◌&&◌, Bool-cases, inl, inr,
}
use rockduck.Std.HashMap
use rockduck.Std.HashMap.{HashMap}
use rockduck.Segment.UpdMask.{
  max_updates_bytes, ColumnUpdates, UpdMask, entry_size, column_of, get, old_entry_size, set,
  column_bytes, total_bytes,
}

-- `current_bytes` counts the updates, and within the budget.
pub record IsCounted (m : UpdMask) : Type 0 where
  pub counted : m.current_bytes ≡ total_bytes m.updates
  pub bounded : m.current_bytes ≤ max_updates_bytes

column_bytes-insert :
    (col : Str) (m : ColumnUpdates) (pos : ℕ) (v : Bytes)
    → column_bytes col (HashMap.insert m pos v) + old_entry_size col (HashMap.get m pos)
      ≡ column_bytes col m + entry_size col v
unfolding column_bytes
column_bytes-insert col [] pos v = omega arith
column_bytes-insert col ((p, w) ∷ m) pos v = ground (arith, column_bytes-insert col m pos v)

total_bytes-insert :
    (u : HashMap Str ColumnUpdates) (col : Str) (m : ColumnUpdates)
    → total_bytes (HashMap.insert u col m) + column_bytes col (column_of (HashMap.get u col))
      ≡ total_bytes u + column_bytes col m
unfolding total_bytes column_bytes
total_bytes-insert [] col m = omega arith
total_bytes-insert ((c, n) ∷ u) col m =
    ground (arith, (list_eq {A = ℕ}).equals_iff c col, total_bytes-insert u col m)

get-column_of :
    (m : UpdMask) (col : Str) (pos : ℕ)
    → get m col pos ≡ HashMap.get (column_of (HashMap.get m.updates col)) pos
unfolding get
get-column_of m col pos = ground arith

-- An update keeps the counter equal to the size of the updates and within the budget, whether it is
-- taken or refused.
pub set-IsCounted :
    (m : UpdMask) (col : Str) (pos : ℕ) (value : Bytes)
    → IsCounted m
    → IsCounted (set m col pos value).1
unfolding set
set-IsCounted m col pos value c =
    elim (Bool-cases (ltb max_updates_bytes (m.current_bytes + entry_size col value))) [
      | inl e ↦ rw e c
      | inr e ↦
          let column = column_of (HashMap.get m.updates col) in
          let a = column_bytes-insert col column pos value in
          let b = total_bytes-insert m.updates col (HashMap.insert column pos value) in
          let g = ap (old_entry_size col) (get-column_of m col pos) in
          rw e (record {
            counted = omega (arith, a, b, g, c.counted);
            bounded = ground (arith, a, b, g, c.counted);
          })
    ]

pub get-set :
    (m : UpdMask) (col : Str) (pos : ℕ) (value : Bytes) (c : Str) (p : ℕ)
    → get (set m col pos value).1 c p
      ≡ (if (set m col pos value).0 && ((col == c) && (pos == p)) then some value else get m c p)
unfolding set get
get-set m col pos value c p = ground (
  arith,
  HashMap.get-insert m.updates col
      (HashMap.insert (column_of (HashMap.get m.updates col)) pos value) c,
  HashMap.get-insert (column_of (HashMap.get m.updates col)) pos value p,
  (list_eq {A = ℕ}).equals_iff col c,
)
