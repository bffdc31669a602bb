-- ===== src/Meta/PkIndex/Keys.antt =====
-- src/metadata/pk_skiplist.rs: the keys of the index and their reading.
use rockduck.Prelude.{
  nat_eq, list_eq, ℕ, ◌+◌, ◌^◌, ◌<◌, ◌≡◌, ◌≢◌, sym, ap, ap₂, ◌∙◌, false, some, [], ◌∷◌, ◌++◌, Bytes,
  Str, arith, length, take, drop, take-append, drop-append, drop-drop, length-append, elem, ltb,
}
use rockduck.Std.Int.{to_le_bytes, from_le_bytes, length-to_le_bytes, from_le_bytes-to_le_bytes}
use rockduck.Meta.PkIndex.{pk_index_key, pk_lookup_key, find_byte, after_seg, parse_pk_index_key}

find_byte-append :
    (xs ys : Bytes) (b : ℕ) → elem b xs ≡ false → find_byte (xs ++ (b ∷ ys)) b ≡ some (length xs)
unfolding find_byte
find_byte-append [] ys b h = ground (arith, nat_eq.equals_iff b b)
find_byte-append (x ∷ xs) ys b h = ground (arith, find_byte-append xs ys b)

after_seg-eq :
    (seg_id : Str) (granule_id : ℕ) (rest : Bytes)
    → granule_id < 2 ^ 32
    → after_seg seg_id (to_le_bytes 4 granule_id ++ rest) ≡ some (seg_id, granule_id, rest)
unfolding after_seg
after_seg-eq seg_id granule_id rest h =
    let g = to_le_bytes 4 granule_id in
    let l = length-to_le_bytes 4 granule_id in
    let f : ltb (length (g ++ rest)) 4 ≡ false = ground (arith, length-append g rest, l) in
    let t : take 4 (g ++ rest) ≡ g = ap (λ n. take n (g ++ rest)) (sym l) ∙ take-append g rest in
    let d : drop 4 (g ++ rest) ≡ rest = ap (λ n. drop n (g ++ rest)) (sym l) ∙ drop-append g rest in
    let v = from_le_bytes-to_le_bytes 4 granule_id (omega arith) in
    rw f (ap₂ (λ x y. some (seg_id, from_le_bytes x, y)) t d ∙ ap (λ n. some (seg_id, n, rest)) v)

-- A key of the index whose segment has no colon is read back as its segment, its granule and the
-- primary key with the colon that stands before it: the reader does not skip that colon.
pub parse_pk_index_key-pk_index_key :
    (from_utf8_lossy : Bytes → Str) (seg_id : Str) (granule_id : ℕ) (pk : Bytes)
    → from_utf8_lossy seg_id ≡ seg_id
    → elem 58 seg_id ≡ false
    → granule_id < 2 ^ 32
    → parse_pk_index_key from_utf8_lossy (pk_index_key seg_id granule_id pk)
      ≡ some (seg_id, granule_id, 58 ∷ pk)
unfolding parse_pk_index_key pk_index_key
parse_pk_index_key-pk_index_key from_utf8_lossy seg_id granule_id pk u h g =
    let tail = to_le_bytes 4 granule_id ++ (58 ∷ pk) in
    let f = find_byte-append seg_id tail 58 h in
    let t : take (length seg_id) (seg_id ++ (58 ∷ tail)) ≡ seg_id =
      take-append seg_id (58 ∷ tail) in
    let d : drop (length seg_id + 1) (seg_id ++ (58 ∷ tail)) ≡ tail =
      drop-drop (length seg_id) 1 (seg_id ++ (58 ∷ tail))
      ∙ ap (drop 1) (drop-append seg_id (58 ∷ tail)) in
    rw f (ap₂ after_seg (ap from_utf8_lossy t ∙ u) d ∙ after_seg-eq seg_id granule_id (58 ∷ pk) g)

-- A key of the index is never a key of the reverse lookup: they share a column family.
pub pk_index_key-pk_lookup_key :
    (seg_id : Str) (granule_id : ℕ) (pk other : Bytes)
    → pk_index_key seg_id granule_id pk ≢ pk_lookup_key other
unfolding pk_index_key pk_lookup_key
pk_index_key-pk_lookup_key seg_id granule_id pk other h = ground arith
