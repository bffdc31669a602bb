-- ===== src/Delta/Patch/Format.antt =====
-- src/storage/delta/types.rs: the bytes of a patch, written and read.
use rockduck.Prelude.{
  append_assoc, append_nil, get_elem?, list_eqb_iff, get_elem?-eq-none, ◌↔◌, leb, nat_eq, list_eq,
  ℕ, ◌+◌, ◌%◌, ◌^◌, ◌<◌, ◌≡◌, refl, sym, ap, ap₂, ◌∙◌, true, Option, none, some, [], ◌∷◌, ◌++◌,
  Bytes, arith, length, take, drop, slice, slice-eq-take, take-append, drop-append, length-append,
  ◌↔◌, leb,
}
use rockduck.Std.Int.{to_le_bytes, from_le_bytes, length-to_le_bytes, from_le_bytes-to_le_bytes}
use rockduck.Delta.Patch.{
  DeltaPatchFormat, sparse_format, dense_format, patch_magic, len_u32, to_bytes, panicked, parsed,
  from_flag, format_start_of, u32_at, u64_at, sparse_from, dense_from, from_bytes,
}

-- A part of known length, read at the offset where it stands.
slice-at :
    (bytes pre part post : Bytes)
    → bytes ≡ pre ++ (part ++ post)
    → (start n : ℕ) → start ≡ length pre
    → n ≡ length part
    → slice bytes start (start + n) ≡ part
slice-at bytes pre part post e start n h k =
    slice-eq-take bytes start n
    ∙ ap₂ take k (ap₂ drop h e ∙ drop-append pre (part ++ post))
    ∙ take-append part post

u32_at-len :
    (bytes pre part post : Bytes)
    → bytes ≡ pre ++ (len_u32 part ++ post)
    → (start : ℕ) → start ≡ length pre
    → length part < 2 ^ 32
    → u32_at bytes start ≡ length part
unfolding u32_at
u32_at-len bytes pre part post e start h b =
    ap from_le_bytes (
      slice-at bytes pre (len_u32 part) post e start 4 h
        (sym (length-to_le_bytes 4 (length part % 2 ^ 32))))
    ∙ from_le_bytes-to_le_bytes 4 (length part % 2 ^ 32) (omega arith)
    ∙ omega arith

u64_at-eq :
    (bytes pre : Bytes) (x : ℕ) (post : Bytes)
    → bytes ≡ pre ++ (to_le_bytes 8 x ++ post)
    → (start : ℕ) → start ≡ length pre
    → x < 2 ^ 64
    → u64_at bytes start ≡ x
unfolding u64_at
u64_at-eq bytes pre x post e start h b =
    ap from_le_bytes
      (slice-at bytes pre (to_le_bytes 8 x) post e start 8 h (sym (length-to_le_bytes 8 x)))
    ∙ from_le_bytes-to_le_bytes 8 x (omega arith)

-- The file's head: magic bytes, version and format byte.
abbrev head : ℕ → Bytes
head flag = 82 ∷ 68 ∷ 69 ∷ 76 ∷ 84 ∷ 65 ∷ 0 ∷ flag ∷ []

length-len_u32 : (bs : Bytes) → length (len_u32 bs) ≡ 4
length-len_u32 bs = length-to_le_bytes 4 (length bs % 2 ^ 32)

-- A part whose prefix ends where the last part does.
module _ (cardinality : Bytes → ℕ) where
  sparse_from-read :
      (bytes positions values : Bytes)
      → length bytes ≡ 16 + length positions + length values
      → u32_at bytes 8 ≡ length positions
      → slice bytes 12 (12 + length positions) ≡ positions
      → u32_at bytes (12 + length positions) ≡ length values
      → slice bytes (16 + length positions) (16 + length positions + length values) ≡ values
      → sparse_from cardinality bytes 7
        ≡ some (sparse_format positions values (cardinality positions))
  unfolding sparse_from
  sparse_from-read bytes positions values l p q v w = ground arith

  sparse_from-head :
      (positions values : Bytes)
      → length positions < 2 ^ 32
      → length values < 2 ^ 32
      → sparse_from cardinality
          (head 0 ++ (len_u32 positions ++ (positions ++ (len_u32 values ++ values))))
          7
        ≡ some (sparse_format positions values (cardinality positions))
  sparse_from-head positions values hp hv =
      let tail = len_u32 values ++ values in
      let bytes = head 0 ++ (len_u32 positions ++ (positions ++ tail)) in
      let pre = head 0 ++ len_u32 positions in
      let pre2 = pre ++ positions in
      let pre3 = pre2 ++ len_u32 values in
      let e1 : bytes ≡ pre ++ (positions ++ tail) =
        sym (append_assoc (head 0) (len_u32 positions) (positions ++ tail)) in
      let e2 : bytes ≡ pre2 ++ tail = e1 ∙ sym (append_assoc pre positions tail) in
      let e3 : bytes ≡ pre3 ++ values = e2 ∙ sym (append_assoc pre2 (len_u32 values) values) in
      let e4 : bytes ≡ pre3 ++ (values ++ []) = e3 ∙ ap (◌++◌ pre3) (sym (append_nil values)) in
      let l1 : length pre ≡ 12 =
        omega (arith, length-append (head 0) (len_u32 positions), length-len_u32 positions) in
      let l2 : length pre2 ≡ 12 + length positions =
        omega (arith, l1, length-append pre positions) in
      let l3 : length pre3 ≡ 16 + length positions =
        omega (arith, l2, length-append pre2 (len_u32 values), length-len_u32 values) in
      let l : length bytes ≡ 16 + length positions + length values =
        ap length e3 ∙ length-append pre3 values ∙ omega (arith, l3) in
      let p : u32_at bytes 8 ≡ length positions =
        u32_at-len bytes (head 0) positions (positions ++ tail) refl 8 refl hp in
      let q : slice bytes 12 (12 + length positions) ≡ positions =
        slice-at bytes pre positions tail e1 12 (length positions) (sym l1) refl in
      let v : u32_at bytes (12 + length positions) ≡ length values =
        u32_at-len bytes pre2 values values e2 (12 + length positions) (sym l2) hv in
      let w : slice bytes (16 + length positions) (16 + length positions + length values) ≡ values =
        slice-at bytes pre3 values [] e4 (16 + length positions) (length values) (sym l3) refl in
      sparse_from-read bytes positions values l p q v w

  dense_from-read :
      (bytes values : Bytes) (total_rows txn_id : ℕ)
      → length bytes ≡ 28 + length values
      → u64_at bytes 8 ≡ txn_id
      → u64_at bytes 16 ≡ total_rows
      → u32_at bytes 24 ≡ length values
      → slice bytes 28 (28 + length values) ≡ values
      → dense_from cardinality bytes 7 ≡ some (dense_format values total_rows txn_id)
  unfolding dense_from
  dense_from-read bytes values total_rows txn_id l t r v w = ground arith

  dense_from-head :
      (values : Bytes) (total_rows txn_id : ℕ)
      → length values < 2 ^ 32
      → total_rows < 2 ^ 64
      → txn_id < 2 ^ 64
      → dense_from cardinality
          (head 1
            ++ (to_le_bytes 8 txn_id ++ (to_le_bytes 8 total_rows ++ (len_u32 values ++ values))))
          7
        ≡ some (dense_format values total_rows txn_id)
  dense_from-head values total_rows txn_id hv hr ht =
      let tail = len_u32 values ++ values in
      let bytes = head 1 ++ (to_le_bytes 8 txn_id ++ (to_le_bytes 8 total_rows ++ tail)) in
      let pre = head 1 ++ to_le_bytes 8 txn_id in
      let pre2 = pre ++ to_le_bytes 8 total_rows in
      let pre3 = pre2 ++ len_u32 values in
      let e1 : bytes ≡ pre ++ (to_le_bytes 8 total_rows ++ tail) =
        sym (append_assoc (head 1) (to_le_bytes 8 txn_id) (to_le_bytes 8 total_rows ++ tail)) in
      let e2 : bytes ≡ pre2 ++ tail = e1 ∙ sym (append_assoc pre (to_le_bytes 8 total_rows) tail) in
      let e3 : bytes ≡ pre3 ++ values = e2 ∙ sym (append_assoc pre2 (len_u32 values) values) in
      let e4 : bytes ≡ pre3 ++ (values ++ []) = e3 ∙ ap (◌++◌ pre3) (sym (append_nil values)) in
      let l1 : length pre ≡ 16 =
        omega (arith, length-append (head 1) (to_le_bytes 8 txn_id), length-to_le_bytes 8 txn_id) in
      let l2 : length pre2 ≡ 24 = omega (
        arith,
        l1,
        length-append pre (to_le_bytes 8 total_rows),
        length-to_le_bytes 8 total_rows,
      ) in
      let l3 : length pre3 ≡ 28 =
        omega (arith, l2, length-append pre2 (len_u32 values), length-len_u32 values) in
      let l : length bytes ≡ 28 + length values =
        ap length e3 ∙ length-append pre3 values ∙ omega (arith, l3) in
      dense_from-read bytes values total_rows txn_id l
        (u64_at-eq bytes (head 1) txn_id (to_le_bytes 8 total_rows ++ tail) refl 8 refl ht)
        (u64_at-eq bytes pre total_rows tail e1 16 (sym l1) hr)
        (u32_at-len bytes pre2 values values e2 24 (sym l2) hv)
        (slice-at bytes pre3 values [] e4 28 (length values) (sym l3) refl)

  from_bytes-head :
      (flag : ℕ) (rest : Bytes)
      → from_bytes cardinality (head flag ++ rest)
        ≡ from_flag cardinality (head flag ++ rest) 7 (some flag)
  unfolding from_bytes
  from_bytes-head flag rest =
      let h : leb 7 (length (head flag ++ rest)) ≡ true = ground arith in rw (h, format_start_of)

  -- The fields that the format writes in 4 and 8 bytes fit there, and the cached count of a sparse
  -- patch is the cardinality of its bitmap.
  unfoldable pub IsEncodable : DeltaPatchFormat → Type 0
  IsEncodable (sparse_format positions values count) =
      (length positions < 2 ^ 32) × (length values < 2 ^ 32) × (count ≡ cardinality positions)
  IsEncodable (dense_format values total_rows txn_id) =
      (length values < 2 ^ 32) × (total_rows < 2 ^ 64) × (txn_id < 2 ^ 64)

  -- A patch whose fields fit their widths, and whose cached count is the cardinality of its
  -- bitmap, comes back from its bytes.
  pub from_bytes-to_bytes :
      (p : DeltaPatchFormat) → IsEncodable p → from_bytes cardinality (to_bytes p) ≡ parsed (some p)
  unfolding to_bytes IsEncodable
  from_bytes-to_bytes (sparse_format positions values count) (hp, hv, hc) =
      from_bytes-head 0 (len_u32 positions ++ (positions ++ (len_u32 values ++ values)))
      ∙ ap parsed (
          sparse_from-head positions values hp hv
          ∙ ap (λ c. some (sparse_format positions values c)) (sym hc))
  from_bytes-to_bytes (dense_format values total_rows txn_id) (hv, hr, ht) =
      from_bytes-head 1
        (to_le_bytes 8 txn_id ++ (to_le_bytes 8 total_rows ++ (len_u32 values ++ values)))
      ∙ ap parsed (dense_from-head values total_rows txn_id hv hr ht)

  from_flag-panicked :
      (bytes : Bytes) (start : ℕ) (o : Option ℕ)
      → (from_flag cardinality bytes start o ≡ panicked) ↔ (o ≡ none)
  from_flag-panicked bytes start none = ground arith
  from_flag-panicked bytes start (some flag) = ground arith

  -- The reader stops the thread at one kind of input only: a file of the magic bytes and a version
  -- byte, with nothing behind them.
  pub from_bytes-panicked :
      (bytes : Bytes)
      → (from_bytes cardinality bytes ≡ panicked)
        ↔ ((length bytes ≡ 7) × (take 6 bytes ≡ patch_magic))
  unfolding from_bytes
  from_bytes-panicked [] = ground arith
  from_bytes-panicked (b ∷ bs) =
      let bytes = b ∷ bs in
      let start = format_start_of bytes in
      let (f, g) = from_flag-panicked bytes start (get_elem? bytes start) in
      let (h, k) = get_elem?-eq-none bytes start in
      let (m, n) = list_eqb_iff (take 6 bytes) patch_magic in
      (λ e. let q = h (f e) in ground arith, λ e. g (k (ground arith)))
