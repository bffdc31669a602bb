-- ===== src/Delta/MemStore/Logged.antt =====
-- src/storage/delta/mem_store.rs: the drain of the log buffer, and the log after it.
use rockduck.Prelude.{
  append_assoc, append_nil, sym, ℕ, ◌≡◌, refl, sym, ap, ◌∙◌, true, List, [], ◌∷◌, ◌++◌, map, arith,
  length, inl, inr,
}
use rockduck.Error.{RockDuckError, write, Result, Result-cases, ok, err}
use rockduck.Wal.Op.{OpType, OpPayload, WalWriter}
use rockduck.Delta.Cell.{DeltaCell}
use rockduck.Delta.MemStore.{DeltaMemStore}
use rockduck.Delta.MemStore.Durable.{
  batch_record, append_all, drain_wal_buffer, sync_wal_before_flush,
}

abbrev pub Record : Type 0
Record = OpType × (ℕ × OpPayload)

-- The record of a buffered cell.
abbrev pub record_of : DeltaCell → Record
record_of d = ((batch_record d).0, (d.txn_id, (batch_record d).1))

-- A log can be read as a list, and a durable append that succeeds adds its record at the end.
pub record IsAppending (wal : WalWriter) : Type 0 where
  pub records : wal.Log → List Record
  pub durable :
      (log : wal.Log) (t : OpType) (txn : ℕ) (p : OpPayload)
      → (wal.append_durable log t txn p).0 ≡ ok tt
      → records (wal.append_durable log t txn p).1 ≡ records log ++ ((t, (txn, p)) ∷ [])

module _ (wal : WalWriter) where
  append_all-next :
      (d : DeltaCell) (ds : List DeltaCell) (log : wal.Log)
      → (wal.append_durable log (batch_record d).0 d.txn_id (batch_record d).1).0 ≡ ok tt
      → append_all wal log (d ∷ ds)
        ≡ append_all wal
            (wal.append_durable log (batch_record d).0 d.txn_id (batch_record d).1).1
            ds
  append_all-next d ds log q = rw (q, append_all) refl

  append_all-failed :
      (d : DeltaCell) (ds : List DeltaCell) (log : wal.Log) (e : RockDuckError)
      → (wal.append_durable log (batch_record d).0 d.txn_id (batch_record d).1).0 ≡ err e
      → (append_all wal log (d ∷ ds)).0 ≡ err write
  append_all-failed d ds log e q = rw (q, append_all) refl

  drain-empty :
      (s : DeltaMemStore) (log : wal.Log) (now : ℕ)
      → s.wal_buffer ≡ []
      → ((drain_wal_buffer wal s log now).0 ≡ ok 0) × ((drain_wal_buffer wal s log now).2 ≡ log)
  drain-empty s log now e = rw (e, drain_wal_buffer) (refl, refl)

  -- The result of a drain, from that of its loop.
  counted : List DeltaCell → Result (Unit {0}) → Result ℕ
  counted ds (ok u) = ok (length ds)
  counted ds (err e) = err e

  drain-full :
      (s : DeltaMemStore) (log : wal.Log) (now : ℕ) (d : DeltaCell) (ds : List DeltaCell)
      → s.wal_buffer ≡ d ∷ ds
      → s.has_wal ≡ true
      → ((drain_wal_buffer wal s log now).0 ≡ counted (d ∷ ds) (append_all wal log (d ∷ ds)).0)
        × ((drain_wal_buffer wal s log now).2 ≡ (append_all wal log (d ∷ ds)).1)
  unfolding counted
  drain-full s log now d ds e w =
      let r = append_all wal log (d ∷ ds) in rw (e, drain_wal_buffer, w) (by_result r.0, refl)
    where
      by_result :
          (r : Result (Unit {0}))
          → (elim r [ ok u ↦ ok (length (d ∷ ds)) | err e ↦ err e ]) ≡ counted (d ∷ ds) r
      by_result (ok u) = refl
      by_result (err e) = refl

  counted-ok :
      (ds : List DeltaCell) (r : Result (Unit {0})) (n : ℕ)
      → counted ds r ≡ ok n
      → (r ≡ ok tt) × (n ≡ length ds)
  unfolding counted
  counted-ok ds (ok u) n h = (refl, ground arith)
  counted-ok ds (err e) n h = absurd (ground arith)

module _ (wal : WalWriter) (a : IsAppending wal) where
  append_all-records :
      (ds : List DeltaCell) (log : wal.Log)
      → (append_all wal log ds).0 ≡ ok tt
      → a.records (append_all wal log ds).1 ≡ a.records log ++ map record_of ds
  append_all-records [] log h = sym (append_nil (a.records log))
  append_all-records (d ∷ ds) log h =
      let (t, p) = batch_record d in
      let next = wal.append_durable log t d.txn_id p in
      elim (Result-cases next.0) [
        | inl (e, q) ↦ absurd (ground (arith, append_all-failed wal d ds log e q))
        | inr (u, q) ↦
            let r = append_all-next wal d ds log q in
            ap (λ x. a.records x.1) r
            ∙ append_all-records ds next.1 (ap (λ x. x.0) (sym r) ∙ h)
            ∙ ap (λ l. l ++ map record_of ds) (a.durable log t d.txn_id p q)
            ∙ append_assoc (a.records log) (record_of d ∷ []) (map record_of ds)
      ]

  -- A drain of the log buffer that succeeds, on a store with a log, has put the records of all
  -- buffered cells at the end of the log, in their order, and returns their number.
  pub sync_wal_before_flush-records :
      (s : DeltaMemStore) (log : wal.Log) (now n : ℕ)
      → s.has_wal ≡ true
      → (sync_wal_before_flush wal s log now).0 ≡ ok n
      → (n ≡ length s.wal_buffer)
        × (a.records (sync_wal_before_flush wal s log now).2
            ≡ a.records log ++ map record_of s.wal_buffer)
  unfolding sync_wal_before_flush
  sync_wal_before_flush-records s log now n w h = go s.wal_buffer refl
    where
      go :
          (l : List DeltaCell)
          → s.wal_buffer ≡ l
          → (n ≡ length s.wal_buffer)
            × (a.records (drain_wal_buffer wal s log now).2
                ≡ a.records log ++ map record_of s.wal_buffer)
      go [] e =
          let (r, t) = drain-empty wal s log now e in
          let q : ok n ≡ ok 0 = sym h ∙ r in
          (
            ground arith,
            ap a.records t
                ∙ sym (append_nil (a.records log))
                ∙ ap (λ l. a.records log ++ map record_of l) (sym e),
          )
      go (d ∷ ds) e =
          let (r, t) = drain-full wal s log now d ds e w in
          let (q, k) = counted-ok wal (d ∷ ds) (append_all wal log (d ∷ ds)).0 n (sym r ∙ h) in
          (
            k ∙ sym (ap length e),
            ap a.records t
                ∙ append_all-records (d ∷ ds) log q
                ∙ ap (λ l. a.records log ++ map record_of l) (sym e),
          )
