-- ===== src/Meta/Tests.antt =====
-- The index over an engine that is a list of Pairs, with a codec that stores the entry's fields.
use rockduck.Prelude.{
  nat_eq, list_eq, ℕ, ◌≡◌, ◌≢◌, refl, sym, ap, ap₂, ◌∙◌, none, some, List, [], ◌∷◌, ◌++◌, Bytes,
  Str, arith, length, take, drop, take-append, drop-append,
}
use rockduck.Error.{codec, Result, ok, err}
use rockduck.Std.HashMap
use rockduck.Std.HashMap.{HashMap}
use rockduck.Meta.Kv.{cf_pk_idx, KvOp, put_op, delete_op, KvEngine}
use rockduck.Meta.PkIndex.{
  pk_index_key, parse_pk_index_key, Entry, IndexCodec, put_pk_index_double, get_pk_index,
  get_pk_index_by_pk,
}
use rockduck.Meta.PkIndex.Keys.{parse_pk_index_key-pk_index_key}
use rockduck.Meta.PkIndex.Lookup.{IsBatchDurable, IsRoundTrip, get-put_pk_index_double}

abbrev Pairs : Type 0
Pairs = HashMap Bytes Bytes

abbrev apply_ops : Pairs → List KvOp → Pairs
apply_ops s [] = s
apply_ops s (put_op k v ∷ ops) = apply_ops (HashMap.insert s k v) ops
apply_ops s (delete_op k ∷ ops) = apply_ops (HashMap.remove s k) ops

-- The engine keeps the column family of the index only.
abbrev engine : KvEngine
engine = record {
  Store = Pairs;
  get = λ s b k. elim b [ cf_pk_idx ↦ ok (HashMap.get s k) | _ ↦ ok none ];
  put = λ s b k v. (ok tt, HashMap.insert s k v);
  delete = λ s b k. (ok tt, HashMap.remove s k);
  write_batch = λ s b ops. (ok tt, apply_ops s ops);
}

engine-IsBatchDurable : IsBatchDurable engine
engine-IsBatchDurable = record {
  get_second = λ s s' k l v w h. found s s' k l v w (ap (λ p. p.1) h);
  get_first = λ s s' k l v w h d. found_first s s' k l v w (ap (λ p. p.1) h) d;
}
  where
    found :
        (s s' : Pairs) (k l v w : Bytes)
        → HashMap.insert (HashMap.insert s k v) l w ≡ s'
        → ok (HashMap.get s' l) ≡ ok (some w)
    found s s' k l v w h =
        ap (λ t. ok (HashMap.get t l)) (sym h)
        ∙ ap ok (
            ground (
              arith,
              HashMap.get-insert (HashMap.insert s k v) l w l,
              (list_eq {A = ℕ}).equals_iff l l,
            ))

    found_first :
        (s s' : Pairs) (k l v w : Bytes)
        → HashMap.insert (HashMap.insert s k v) l w ≡ s'
        → k ≢ l
        → ok (HashMap.get s' k) ≡ ok (some v)
    found_first s s' k l v w h d =
        ap (λ t. ok (HashMap.get t k)) (sym h)
        ∙ ap ok (
            ground (
              arith,
              HashMap.get-insert (HashMap.insert s k v) l w k,
              HashMap.get-insert s k v k,
              (list_eq {A = ℕ}).equals_iff l k,
              (list_eq {A = ℕ}).equals_iff k k,
            ))

abbrev decode_entry : Bytes → Result Entry
decode_entry [] = err codec
decode_entry (g ∷ []) = err codec
decode_entry (g ∷ off ∷ seg) = ok (seg, g, off)

abbrev decode_pair : Bytes → Result (Str × ℕ × ℕ × Bytes)
decode_pair [] = err codec
decode_pair (g ∷ []) = err codec
decode_pair (g ∷ off ∷ []) = err codec
decode_pair (g ∷ off ∷ n ∷ bytes) = ok (take n bytes, g, off, drop n bytes)

abbrev index_codec : IndexCodec
index_codec = record {
  encode = λ e. ok (e.1 ∷ e.2 ∷ e.0);
  decode = decode_entry;
  encode_lookup = λ e. ok (e.1 ∷ e.2 ∷ length e.0 ∷ (e.0 ++ e.3));
  decode_lookup = decode_pair;
}

index_codec-IsRoundTrip : IsRoundTrip index_codec
index_codec-IsRoundTrip = record {
  entry = λ e b h. entry_of e b h;
  lookup = λ e b h. lookup_of e b h;
}
  where
    entry_of : (e : Entry) (b : Bytes) → ok (e.1 ∷ e.2 ∷ e.0) ≡ ok b → decode_entry b ≡ ok e
    entry_of (seg, g, off) b h = let q : g ∷ off ∷ seg ≡ b = ground arith in ap decode_entry (sym q)

    lookup_of :
        (e : Str × ℕ × ℕ × Bytes) (b : Bytes)
        → ok (e.1 ∷ e.2 ∷ length e.0 ∷ (e.0 ++ e.3)) ≡ ok b
        → decode_pair b ≡ ok e
    lookup_of (seg, g, off, key) b h =
        let q : g ∷ off ∷ length seg ∷ (seg ++ key) ≡ b = ground arith in
        ap decode_pair (sym q)
        ∙ ap₂ (λ x y. ok (x, g, off, y)) (take-append seg key) (drop-append seg key)

abbrev key : Bytes
key = 1 ∷ 2 ∷ []

abbrev segment : Str
segment = 115 ∷ 49 ∷ []

abbrev written : Pairs
written = (put_pk_index_double engine index_codec [] key segment 7 9).1

get-put_pk_index_double_example :
    (get_pk_index engine index_codec written key segment 7 ≡ ok (some (segment, 7, 9)))
    × (get_pk_index_by_pk engine index_codec (λ s. s) some written key ≡ ok (some (segment, 7, 9)))
unfolding put_pk_index_double
get-put_pk_index_double_example =
    get-put_pk_index_double engine index_codec engine-IsBatchDurable index_codec-IsRoundTrip
      (λ s. s) some [] written key segment 7 9 refl refl

parse_pk_index_key-pk_index_key_example :
    parse_pk_index_key (λ b. b) (pk_index_key (115 ∷ 49 ∷ []) 7 (1 ∷ 2 ∷ []))
    ≡ some (115 ∷ 49 ∷ [], 7, 58 ∷ 1 ∷ 2 ∷ [])
parse_pk_index_key-pk_index_key_example =
    parse_pk_index_key-pk_index_key (λ b. b) (115 ∷ 49 ∷ []) 7 (1 ∷ 2 ∷ []) refl refl (omega arith)
