-- ===== src/Mvcc/Manager/Conflict/Reference.antt =====
-- src/mvcc/visibility.rs: the keyed conflict detection beside nested loops over the transactions.
use rockduck.Prelude.{
  nat_eq, list_eq, ◌≡◌, refl, Bool, true, false, not, ◌&&◌, ◌||◌, Option, none, some, List, [], ◌∷◌,
  ◌++◌, ap, ap₂, sym, ◌∙◌, inl, inr, Bool-cases, any-ext, any-or, any-and, any-exchange, Bytes,
  arith, ◌==◌, elem, any,
}
use rockduck.Std.HashMap
use rockduck.Std.HashMap.{HashMap}
use rockduck.Mvcc.TxnMeta.{TxnId, TxnMeta}
use rockduck.Mvcc.Manager.Conflict.{
  KeyIndex, ids_of, push_keys, build_index, first_of_key, find_reader_conflict,
  find_writer_conflict, conflict_of,
}

-- Two lists share a key.
abbrev pub overlaps : List Bytes → List Bytes → Bool
overlaps xs ys = any (λ k. elem k ys) xs

-- The other transaction counts: it is not the committing one, nor recovered.
abbrev pub counts : TxnId → TxnId × TxnMeta → Bool
counts txn_id (id, meta) = not (id == txn_id) && not meta.is_recovered

-- the pairwise test: read-write, write-read, write-write
abbrev pub conflicts_with : TxnId → TxnMeta → TxnId × TxnMeta → Bool
conflicts_with txn_id t e =
    counts txn_id e
    && (overlaps t.read_keys (e.1).written_keys
        || overlaps t.written_keys (e.1).read_keys
        || overlaps t.written_keys (e.1).written_keys)

abbrev pub is_hit {ℓ} : {A : Type ℓ} → Option A → Bool
is_hit none = false
is_hit (some a) = true

first : List TxnId → Option TxnId
first [] = none
first (id ∷ ids) = some id

or_swap : (a b c : Bool) → (a || (b || c)) ≡ ((b || a) || c)
or_swap a b c = ground arith

is_hit-snoc : (ids : List TxnId) (id : TxnId) → is_hit (first (ids ++ id ∷ [])) ≡ true
unfolding first
is_hit-snoc [] id = refl
is_hit-snoc (j ∷ ids) id = refl

first_of_key_lem :
    (index : KeyIndex) (k : Bytes) → first_of_key index k ≡ first (ids_of (HashMap.get index k))
unfolding first_of_key first
first_of_key_lem index k = ground arith

is_hit-insert :
    (index : KeyIndex) (key k : Bytes) (id : TxnId)
    → is_hit (first_of_key (HashMap.insert index key (ids_of (HashMap.get index key) ++ id ∷ [])) k)
      ≡ (key == k || is_hit (first_of_key index k))
is_hit-insert index key k id =
    rw (first_of_key_lem, HashMap.get-insert)
      (elim (Bool-cases (key == k)) [
        | inl e ↦ rw e (is_hit-snoc (ids_of (HashMap.get index key)) id)
        | inr e ↦ rw e (ap is_hit (sym (first_of_key_lem index k)))
      ])

is_hit-push_keys :
    (keys : List Bytes) (index : KeyIndex) (id : TxnId) (k : Bytes)
    → is_hit (first_of_key (push_keys index keys id) k)
      ≡ (elem k keys || is_hit (first_of_key index k))
unfolding push_keys
is_hit-push_keys [] index id k = refl
is_hit-push_keys (key ∷ keys) index id k =
    is_hit-push_keys keys _ id k
    ∙ ap (λ b. elem k keys || b) (is_hit-insert index key k id)
    ∙ or_swap (elem k keys) (key == k) (is_hit (first_of_key index k))

module _ (keys_of : TxnMeta → List Bytes) (txn_id : TxnId) where
  is_hit-build_index :
      (active : HashMap TxnId TxnMeta) (index : KeyIndex) (k : Bytes)
      → is_hit (first_of_key (build_index keys_of txn_id index active) k) ≡ (
          any (λ e. counts txn_id e && elem k (keys_of (e.1))) active
          || is_hit (first_of_key index k))
  unfolding build_index
  is_hit-build_index [] index k = refl
  is_hit-build_index ((id, meta) ∷ active) index k =
      rw (is_hit-build_index active _ k)
        (ground (arith, is_hit-push_keys (keys_of meta) index id k))

is_hit-find_reader_conflict :
    (writers : KeyIndex) (ks : List Bytes)
    → is_hit (find_reader_conflict writers ks) ≡ any (λ k. is_hit (first_of_key writers k)) ks
unfolding find_reader_conflict
is_hit-find_reader_conflict writers [] = refl
is_hit-find_reader_conflict writers (k ∷ ks) =
    ground (arith, is_hit-find_reader_conflict writers ks)

is_hit-find_writer_conflict :
    (readers writers : KeyIndex) (ks : List Bytes)
    → is_hit (find_writer_conflict readers writers ks)
      ≡ any (λ k. is_hit (first_of_key readers k) || is_hit (first_of_key writers k)) ks
unfolding find_writer_conflict
is_hit-find_writer_conflict readers writers [] = refl
is_hit-find_writer_conflict readers writers (k ∷ ks) =
    ground (arith, is_hit-find_writer_conflict readers writers ks)

or_false : (b : Bool) → (b || false) ≡ b
or_false b = ground arith

regroup : (c a b d : Bool) → ((c && a) || ((c && b) || (c && d))) ≡ (c && (a || b || d))
regroup c a b d = ground arith

module _ (txn_id : TxnId) (active : HashMap TxnId TxnMeta) where
  -- One index answers for all pairs of a key and a transaction.
  index_overlaps :
      (keys_of : TxnMeta → List Bytes) (ks : List Bytes)
      → any (λ k. is_hit (first_of_key (build_index keys_of txn_id [] active) k)) ks
        ≡ any (λ e. counts txn_id e && overlaps ks (keys_of (e.1))) active
  unfolding first_of_key
  index_overlaps keys_of ks =
      any-ext _ (λ k. any (λ e. counts txn_id e && elem k (keys_of (e.1))) active) ks
        (λ k. is_hit-build_index keys_of txn_id active [] k ∙ or_false _)
      ∙ any-exchange (λ k e. counts txn_id e && elem k (keys_of (e.1))) ks active
      ∙ any-ext _ _ active (λ e. any-and (counts txn_id e) (λ k. elem k (keys_of (e.1))) ks)

  is_hit-conflict_of :
      (t : TxnMeta)
      → is_hit (conflict_of txn_id t active) ≡ (
          any
            (λ k. is_hit (first_of_key (build_index (λ m. m.written_keys) txn_id [] active) k))
            t.read_keys
          || (any
                (λ k. is_hit (first_of_key (build_index (λ m. m.read_keys) txn_id [] active) k))
                t.written_keys
              || any
                  (λ k.
                    is_hit (first_of_key (build_index (λ m. m.written_keys) txn_id [] active) k))
                  t.written_keys))
  unfolding conflict_of
  is_hit-conflict_of t =
      let writers = build_index (λ m. m.written_keys) txn_id [] active in
      let readers = build_index (λ m. m.read_keys) txn_id [] active in
      ground (
        arith,
        is_hit-find_reader_conflict writers t.read_keys,
        is_hit-find_writer_conflict readers writers t.written_keys,
        any-or (λ k. is_hit (first_of_key readers k)) (λ k. is_hit (first_of_key writers k))
            t.written_keys,
      )

  -- The keyed detection finds a conflict exactly when some other active, unrecovered transaction
  -- wrote a key that this one read, or read or wrote a key that this one wrote.
  pub conflict_of-eq-any :
      (t : TxnMeta) → is_hit (conflict_of txn_id t active) ≡ any (conflicts_with txn_id t) active
  conflict_of-eq-any t =
      is_hit-conflict_of t
      ∙ ap₂ (λ a b. a || b) (index_overlaps (λ m. m.written_keys) t.read_keys)
          (ap₂ (λ a b. a || b) (index_overlaps (λ m. m.read_keys) t.written_keys)
            (index_overlaps (λ m. m.written_keys) t.written_keys))
      ∙ ap (λ b. any read_write active || b) (sym (any-or write_read write_write active))
      ∙ sym (any-or read_write (λ e. write_read e || write_write e) active)
      ∙ any-ext (λ e. read_write e || (write_read e || write_write e)) (conflicts_with txn_id t)
          active
          (λ e.
            regroup (counts txn_id e) (overlaps t.read_keys (e.1).written_keys)
              (overlaps t.written_keys (e.1).read_keys)
              (overlaps t.written_keys (e.1).written_keys))
    where
      read_write : TxnId × TxnMeta → Bool
      read_write e = counts txn_id e && overlaps t.read_keys (e.1).written_keys

      write_read : TxnId × TxnMeta → Bool
      write_read e = counts txn_id e && overlaps t.written_keys (e.1).read_keys

      write_write : TxnId × TxnMeta → Bool
      write_write e = counts txn_id e && overlaps t.written_keys (e.1).written_keys
