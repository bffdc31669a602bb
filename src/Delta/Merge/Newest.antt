-- ===== src/Delta/Merge/Newest.antt =====
-- The map of the newest cells: what it holds under a key, in terms of the cells that went in.
use rockduck.Prelude.{
  nat_ord, list_ord, nat_eq, ℕ, ◌≡◌, ◌≤◌, ◌⊎◌, inl, inr, refl, sym, ap, ◌∙◌, Bool, true, false,
  ◌&&◌, Option, none, some, List, [], ◌∷◌, ◌++◌, arith, ltb, if◌then◌else◌, Ordering, In,
  Bool-cases, Option-cases, suc,
}
use rockduck.Std.BTreeMap
use rockduck.Std.BTreeMap.{BTreeMap}
use rockduck.Std.Vec.{IsRising}
use rockduck.Delta.Cell.{DeltaCell, cell_key_ord, CellKey, cell_key}
use rockduck.Delta.Merge.{is_none_or, keep_newest, delta_cmp}

-- The map of cells alone, and the cells put into it one after another.
abbrev pub newest_map : BTreeMap CellKey DeltaCell → DeltaCell → BTreeMap CellKey DeltaCell
newest_map = keep_newest (λ c. c.txn_id) (λ c. c)

abbrev pub collapse : BTreeMap CellKey DeltaCell → List DeltaCell → BTreeMap CellKey DeltaCell
collapse m [] = m
collapse m (d ∷ ds) = collapse (newest_map m d) ds

pub collapse-append :
    (m : BTreeMap CellKey DeltaCell) (ds es : List DeltaCell)
    → collapse m (ds ++ es) ≡ collapse (collapse m ds) es
collapse-append m [] es = refl
collapse-append m (d ∷ ds) es = collapse-append (newest_map m d) ds es

abbrev pub has_key : CellKey → DeltaCell → Bool
has_key k d = elim (cell_key_ord.cmp (cell_key d) k) [ Ordering.eq ↦ true | _ ↦ false ]

pub has_key→≡ : (k : CellKey) (d : DeltaCell) → has_key k d ≡ true → cell_key d ≡ k
has_key→≡ k d h = ground (arith, cell_key_ord.cmp_iff (cell_key d) k)

pub ≡→has_key : (k : CellKey) (d : DeltaCell) → cell_key d ≡ k → has_key k d ≡ true
≡→has_key k d h = ground (arith, cell_key_ord.cmp_iff (cell_key d) k)

-- The reference: of the cells of one key, one after another, the first of the newest.
abbrev pub replace_older : CellKey → Option DeltaCell → DeltaCell → Option DeltaCell
replace_older k o d = if has_key k d && is_none_or (λ e. ltb e.txn_id d.txn_id) o then some d else o

abbrev pub newest : CellKey → Option DeltaCell → List DeltaCell → Option DeltaCell
newest k o [] = o
newest k o (d ∷ ds) = newest k (replace_older k o d) ds

get-newest_map :
    (m : BTreeMap CellKey DeltaCell) (d : DeltaCell) (k : CellKey)
    → BTreeMap.get (newest_map m d) k ≡ replace_older k (BTreeMap.get m k) d
get-newest_map m d k = elim (Bool-cases (has_key k d)) [
  | inl e ↦
      let q : BTreeMap.get m (cell_key d) ≡ BTreeMap.get m k =
        ap (BTreeMap.get m) (has_key→≡ k d e) in
      ground (arith, BTreeMap.get-insert m (cell_key d) d k)
  | inr e ↦ ground (arith, BTreeMap.get-insert m (cell_key d) d k)
]

pub get-collapse :
    (m : BTreeMap CellKey DeltaCell) (ds : List DeltaCell) (k : CellKey)
    → BTreeMap.get (collapse m ds) k ≡ newest k (BTreeMap.get m k) ds
get-collapse m [] k = refl
get-collapse m (d ∷ ds) k =
    get-collapse (newest_map m d) ds k ∙ ap (λ o. newest k o ds) (get-newest_map m d k)

newest_map-IsSorted :
    (m : BTreeMap CellKey DeltaCell) (d : DeltaCell)
    → BTreeMap.IsSorted m
    → BTreeMap.IsSorted (newest_map m d)
newest_map-IsSorted m d s = ground (arith, BTreeMap.insert-IsSorted m (cell_key d) d)

pub collapse-IsSorted :
    (m : BTreeMap CellKey DeltaCell) (ds : List DeltaCell)
    → BTreeMap.IsSorted m
    → BTreeMap.IsSorted (collapse m ds)
collapse-IsSorted m [] s = s
collapse-IsSorted m (d ∷ ds) s = collapse-IsSorted (newest_map m d) ds (newest_map-IsSorted m d s)

-- Each cell stands under its own key.
abbrev pub IsKeyed : BTreeMap CellKey DeltaCell → Type 0
IsKeyed [] = Unit
IsKeyed ((k, c) ∷ m) = (cell_key c ≡ k) × IsKeyed m

insert-IsKeyed :
    (m : BTreeMap CellKey DeltaCell) (d : DeltaCell)
    → IsKeyed m
    → IsKeyed (BTreeMap.insert m (cell_key d) d)
insert-IsKeyed [] d h = (refl, tt)
insert-IsKeyed ((k, c) ∷ m) d h = ground (arith, insert-IsKeyed m d h.1)

newest_map-IsKeyed :
    (m : BTreeMap CellKey DeltaCell) (d : DeltaCell) → IsKeyed m → IsKeyed (newest_map m d)
newest_map-IsKeyed m d h = ground (arith, insert-IsKeyed m d h)

pub collapse-IsKeyed :
    (m : BTreeMap CellKey DeltaCell) (ds : List DeltaCell) → IsKeyed m → IsKeyed (collapse m ds)
collapse-IsKeyed m [] h = h
collapse-IsKeyed m (d ∷ ds) h = collapse-IsKeyed (newest_map m d) ds (newest_map-IsKeyed m d h)

-- The first cell of a key in a list.
abbrev pub find_cell : CellKey → List DeltaCell → Option DeltaCell
find_cell k [] = none
find_cell k (d ∷ ds) = if has_key k d then some d else find_cell k ds

pub find_cell-values :
    (m : BTreeMap CellKey DeltaCell) (k : CellKey)
    → IsKeyed m
    → find_cell k (BTreeMap.values m) ≡ BTreeMap.get m k
find_cell-values [] k h = refl
find_cell-values ((j, c) ∷ m) k h = ground (arith, find_cell-values m k h.1)

-- The keys of the cells rise, and so no two of them are the same.
abbrev pub key_cmp : DeltaCell → DeltaCell → Ordering
key_cmp a b = cell_key_ord.cmp (cell_key a) (cell_key b)

key_cmp-delta_cmp : (a b : DeltaCell) → key_cmp a b ≡ Ordering.lt → delta_cmp a b ≡ Ordering.lt
key_cmp-delta_cmp a b h = ground arith

values-IsRising :
    (m : BTreeMap CellKey DeltaCell)
    → BTreeMap.IsSorted m
    → IsKeyed m
    → IsRising key_cmp (BTreeMap.values m)
values-IsRising [] s h = tt
values-IsRising ((k, c) ∷ []) s h = (tt, tt)
values-IsRising ((k, c) ∷ (j, d) ∷ m) s h = (ground arith, values-IsRising ((j, d) ∷ m) s.1 h.1)

pub collapse-IsRising : (ds : List DeltaCell) → IsRising key_cmp (BTreeMap.values (collapse [] ds))
collapse-IsRising ds =
    values-IsRising (collapse [] ds) (collapse-IsSorted [] ds tt) (collapse-IsKeyed [] ds tt)

-- A list in the order of the keys is in the order of the last sort.
pub IsRising-delta_cmp : (ds : List DeltaCell) → IsRising key_cmp ds → IsRising delta_cmp ds
IsRising-delta_cmp [] r = tt
IsRising-delta_cmp (a ∷ []) r = (tt, tt)
IsRising-delta_cmp (a ∷ b ∷ ds) r = (key_cmp-delta_cmp a b r.0, IsRising-delta_cmp (b ∷ ds) r.1)

pub find_cell-collapse :
    (ds : List DeltaCell) (k : CellKey)
    → find_cell k (BTreeMap.values (collapse [] ds)) ≡ newest k none ds
find_cell-collapse ds k =
    find_cell-values (collapse [] ds) k (collapse-IsKeyed [] ds tt) ∙ get-collapse [] ds k

-- Where the newest cell comes from.
replace_older-eq-some :
    (k : CellKey) (o : Option DeltaCell) (c d : DeltaCell)
    → replace_older k o c ≡ some d
    → (o ≡ some d) ⊎ ((d ≡ c) × (cell_key d ≡ k))
replace_older-eq-some k o c d h = elim (Bool-cases (has_key k c)) [
  | inl e ↦ elim (Bool-cases (is_none_or (λ x. ltb x.txn_id c.txn_id) o)) [
    | inl f ↦
        let q : some c ≡ some d = rw (e, f) at h in
        let r : d ≡ c = ground arith in inr (r, ap cell_key r ∙ has_key→≡ k c e)
    | inr f ↦ inl (rw (e, f) at h)
  ]
  | inr e ↦ inl (rw e at h)
]

newest-source :
    (k : CellKey) (o : Option DeltaCell) (ds : List DeltaCell) (d : DeltaCell)
    → newest k o ds ≡ some d
    → (o ≡ some d) ⊎ (In d ds × (cell_key d ≡ k))
newest-source k o [] d h = inl h
newest-source k o (c ∷ ds) d h = elim (newest-source k (replace_older k o c) ds d h) [
  | inl e ↦ elim (replace_older-eq-some k o c d e) [ inl f ↦ inl f | inr f ↦ inr (inl f.0, f.1) ]
  | inr e ↦ inr (inr e.0, e.1)
]

pub newest-In :
    (k : CellKey) (ds : List DeltaCell) (d : DeltaCell)
    → newest k none ds ≡ some d
    → In d ds × (cell_key d ≡ k)
newest-In k ds d h = elim (newest-source k none ds d h) [
  | inl e ↦ absurd (ground arith)
  | inr e ↦ e
]

-- The transaction of a cell, above that of no cell.
rank : Option DeltaCell → ℕ
rank none = 0
rank (some d) = suc d.txn_id

rank-replace_older :
    (k : CellKey) (o : Option DeltaCell) (c : DeltaCell)
    → (rank o ≤ rank (replace_older k o c))
      × (has_key k c ≡ true → suc c.txn_id ≤ rank (replace_older k o c))
unfolding rank
rank-replace_older k none c = ground arith
rank-replace_older k (some d) c = ground arith

rank-newest :
    (k : CellKey) (o : Option DeltaCell) (ds : List DeltaCell) → rank o ≤ rank (newest k o ds)
rank-newest k o [] = omega arith
rank-newest k o (d ∷ ds) =
    omega (arith, rank-newest k (replace_older k o d) ds, (rank-replace_older k o d).0)

rank-In :
    (k : CellKey) (o : Option DeltaCell) (ds : List DeltaCell) (c : DeltaCell)
    → In c ds
    → cell_key c ≡ k
    → suc c.txn_id ≤ rank (newest k o ds)
rank-In k o [] c i h = absurd i
rank-In k o (d ∷ ds) c (inl e) h =
    let q : has_key k d ≡ true = ≡→has_key k d (sym (ap cell_key e) ∙ h) in
    let t : c.txn_id ≡ d.txn_id = ap (λ x. x.txn_id) e in
    omega (arith, rank-newest k (replace_older k o d) ds, (rank-replace_older k o d).1 q)
rank-In k o (d ∷ ds) c (inr i) h = rank-In k (replace_older k o d) ds c i h

pub newest-max :
    (k : CellKey) (ds : List DeltaCell) (c : DeltaCell)
    → In c ds
    → cell_key c ≡ k
    → (d : DeltaCell) × (newest k none ds ≡ some d) × (c.txn_id ≤ d.txn_id)
unfolding rank
newest-max k ds c i h = elim (Option-cases (newest k none ds)) [
  | inl e ↦ let q = rank-In k none ds c i h in absurd (ground arith)
  | inr (d, e) ↦ let q = rank-In k none ds c i h in (d, e, ground arith)
]
