-- ===== src/Wal/GroupCommit/Flush.antt =====
-- src/write/durability_wal.rs: what a flush of the group commit queue leaves.
use rockduck.Prelude.{
  nat_eq, ◌≡◌, ◌≢◌, ◌⊎◌, inl, inr, refl, sym, ap, ◌∙◌, true, false, some, List, [], ◌∷◌, ◌++◌,
  length, arith,
}
use mathlib.Core.Path.{subst}
use mathlib.Core.List.{append_assoc, append-nil}
use rockduck.Error.{RockDuckError, Result, ok, err, write}
use rockduck.Wal.Op.{WalOp}
use rockduck.Wal.GroupCommit.{
  WalWriter, queue_commit_for_batch, arrive, requeue, then_sync, write_batch, flushed, flush_batch,
  wait_round,
}

module _ {W : Type 0} where
  -- What arrives goes to the end of the queue and changes neither the flag nor the writer.
  record IsArrived (m m' : WalWriter W) (ops : List WalOp) : Type 0 where
    queued : m'.queue ≡ m.queue ++ ops
    same_success : m'.flush_success ≡ m.flush_success
    same_writer : m'.writer ≡ m.writer
    same_retries : m'.flush_retries ≡ m.flush_retries
    same_election : m'.election ≡ m.election

  arrive-IsArrived : (m : WalWriter W) (ops : List WalOp) → IsArrived m (arrive m ops) ops
  unfolding arrive queue_commit_for_batch
  arrive-IsArrived m [] = record {
    queued = sym (append-nil m.queue);
    same_success = refl;
    same_writer = refl;
    same_retries = refl;
    same_election = refl;
  }
  arrive-IsArrived m (op ∷ ops) =
      let a = arrive-IsArrived (queue_commit_for_batch m op) ops in
      record {
        queued = a.queued ∙ append_assoc m.queue (op ∷ []) ops;
        same_success = a.same_success;
        same_writer = a.same_writer;
        same_retries = a.same_retries;
        same_election = a.same_election;
      }

  module _ (append_op : W → WalOp → Result (Unit {0}) × W)
      (append_batch : W → List WalOp → Result (Unit {0}) × W)
      (flush_and_sync : W → Result (Unit {0}) × W) where
    abbrev flush : WalWriter W → List WalOp → WalWriter W
    flush = flush_batch append_op append_batch flush_and_sync

    abbrev write_all : W → List WalOp → Result (Unit {0}) × W
    write_all = write_batch append_op append_batch flush_and_sync

    -- The operations are appended, and then the log is flushed and synced, and both succeed.
    abbrev pub Writes : W → List WalOp → W → Type 0
    Writes w ops w' =
        (appended : W) × (append_batch w ops ≡ (ok tt, appended))
        × (flush_and_sync appended ≡ (ok tt, w'))

    -- The append fails, and there is no sync; or the sync behind it fails.
    abbrev pub Refuses : W → List WalOp → W → Type 0
    Refuses w ops w' =
        ((e : RockDuckError) × (append_batch w ops ≡ (err e, w')))
        ⊎ ((appended : W) × (append_batch w ops ≡ (ok tt, appended))
            × (e : RockDuckError) × (flush_and_sync appended ≡ (err e, w')))

    abbrev Outcome : W → List WalOp → Result (Unit {0}) × W → Type 0
    Outcome w ops (ok u, w') = Writes w ops w'
    Outcome w ops (err e, w') = Refuses w ops w'

    write_batch-Outcome : (w : W) (ops : List WalOp) → Outcome w ops (write_all w ops)
    unfolding write_batch
    write_batch-Outcome w ops = appended (append_batch w ops) refl
      where
        synced :
            (w1 : W) (r : Result (Unit {0}) × W)
            → append_batch w ops ≡ (ok tt, w1)
            → flush_and_sync w1 ≡ r
            → Outcome w ops r
        synced w1 (ok u, w') a f = (w1, a, f)
        synced w1 (err e, w') a f = inr (w1, a, e, f)

        appended :
            (r : Result (Unit {0}) × W)
            → append_batch w ops ≡ r
            → Outcome w ops (then_sync append_op append_batch flush_and_sync r)
        appended (ok u, w1) a = synced w1 (flush_and_sync w1) a refl
        appended (err e, w1) a = inl (e, a)

    -- The queue is written by the writer, which is then in the state that the write leaves, and what
    -- arrived is queued, but not counted unless nothing was written.
    pub record IsWritten (m m' : WalWriter W) (arrived : List WalOp) : Type 0 where
      pub written :
          ((m.queue ≡ []) × (m'.writer ≡ m.writer))
          ⊎ (Writes m.writer m.queue m'.writer × (m'.queue_size ≡ 0))
      pub success : m'.flush_success ≡ true
      pub queue : m'.queue ≡ arrived

    -- The writer refuses the queue, which stands in front of what arrived.
    pub record IsRefused (m m' : WalWriter W) (arrived : List WalOp) : Type 0 where
      pub refused : Refuses m.writer m.queue m'.writer
      pub failure : m'.flush_success ≡ false
      pub queue : m'.queue ≡ m.queue ++ arrived
      pub counted : m'.queue_size ≡ length m'.queue
      pub needed : m'.flush_needed ≡ true

    flushed-cases :
        (m : WalWriter W) (op : WalOp) (ops arrived : List WalOp) (r : Result (Unit {0}) × W)
        → m.queue ≡ op ∷ ops
        → Outcome m.writer m.queue r
        → IsWritten m
            (flushed append_op append_batch flush_and_sync
              (arrive (record m { flush_success = false; queue = []; writer = r.1 }) arrived)
              (op ∷ ops)
              r.0)
            arrived
          ⊎ IsRefused m
              (flushed append_op append_batch flush_and_sync
                (arrive (record m { flush_success = false; queue = []; writer = r.1 }) arrived)
                (op ∷ ops)
                r.0)
              arrived
    unfolding requeue
    flushed-cases m op ops arrived (ok u, w) q e =
        let a =
          arrive-IsArrived (record m { flush_success = false; queue = []; writer = w }) arrived in
        inl (record {
          written = inr (subst (Writes m.writer m.queue) (sym a.same_writer) e, refl);
          success = refl;
          queue = a.queued;
        })
    flushed-cases m op ops arrived (err x, w) q e =
        let a =
          arrive-IsArrived (record m { flush_success = false; queue = []; writer = w }) arrived in
        inr (record {
          refused = subst (Refuses m.writer m.queue) (sym a.same_writer) e;
          failure = refl;
          queue = ap (λ l. (op ∷ ops) ++ l) a.queued ∙ ap (λ l. l ++ arrived) (sym q);
          counted = refl;
          needed = refl;
        })

    pub flush_batch-cases :
        (m : WalWriter W) (arrived : List WalOp)
        → IsWritten m (flush m arrived) arrived ⊎ IsRefused m (flush m arrived) arrived
    unfolding flush_batch
    flush_batch-cases m arrived = go m.queue refl
      where
        go :
            (q : List WalOp)
            → m.queue ≡ q
            → IsWritten m
                (elim q [
                  | [] ↦ arrive (record m { flush_success = true }) arrived
                  | op ∷ ops ↦
                      let (r, w) = write_all m.writer (op ∷ ops) in
                      flushed append_op append_batch flush_and_sync
                        (arrive
                          (record m { flush_success = false; queue = []; writer = w })
                          arrived)
                        (op ∷ ops)
                        r
                ])
                arrived
              ⊎ IsRefused m
                  (elim q [
                    | [] ↦ arrive (record m { flush_success = true }) arrived
                    | op ∷ ops ↦
                        let (r, w) = write_all m.writer (op ∷ ops) in
                        flushed append_op append_batch flush_and_sync
                          (arrive
                            (record m { flush_success = false; queue = []; writer = w })
                            arrived)
                          (op ∷ ops)
                          r
                  ])
                  arrived
        go [] e =
            let a = arrive-IsArrived (record m { flush_success = true }) arrived in
            inl (record {
              written = inl (e, a.same_writer);
              success = a.same_success;
              queue = a.queued ∙ ap (λ l. l ++ arrived) e;
            })
        go (op ∷ ops) e = flushed-cases m op ops arrived (write_all m.writer (op ∷ ops)) e (
            subst (λ l. Outcome m.writer l (write_all m.writer (op ∷ ops))) (sym e)
              (write_batch-Outcome m.writer (op ∷ ops)))

    Refuses-fails :
        (w w' : W) (ops : List WalOp) (u : Unit {0}) → Refuses w ops w' → (write_all w ops).0 ≢ ok u
    unfolding write_batch
    Refuses-fails w w' ops u (inl (e, h)) q =
        let k : (write_all w ops).0 ≡ err write =
          ap (λ r. (then_sync append_op append_batch flush_and_sync r).0) h in
        absurd (ground (arith, k))
    Refuses-fails w w' ops u (inr (w1, h, e, f)) q =
        let k : (write_all w ops).0 ≡ err e =
          ap (λ r. (then_sync append_op append_batch flush_and_sync r).0) h
          ∙ ap (λ (r : Result (Unit {0}) × W). r.0) f in
        absurd (ground (arith, k))

    -- A waiter is told of success by the count and the flag alone.
    pub wait_round-told :
        (m : WalWriter W) (arrivals : List (List WalOp))
        → m.queue_size ≡ 0
        → m.flush_success ≡ true
        → wait_round append_op append_batch flush_and_sync m arrivals ≡ (some (ok tt), m)
    unfolding wait_round
    wait_round-told m arrivals z s = ground arith

    -- An operation that arrives while a batch is written stays queued, and the next round of its waiter
    -- reports success and does nothing.
    pub flush_batch-late :
        (m : WalWriter W) (op : WalOp) (ops arrived : List WalOp) (u : Unit {0})
        (arrivals : List (List WalOp))
        → m.queue ≡ op ∷ ops
        → (write_all m.writer (op ∷ ops)).0 ≡ ok u
        → ((flush m arrived).queue ≡ arrived)
          × (wait_round append_op append_batch flush_and_sync (flush m arrived) arrivals
              ≡ (some (ok tt), flush m arrived))
    flush_batch-late m op ops arrived u arrivals e w = elim (flush_batch-cases m arrived) [
      | inl r ↦ (r.queue, wait_round-told (flush m arrived) arrivals (counted r.written) r.success)
      | inr r ↦ absurd (
          Refuses-fails m.writer (flush m arrived).writer m.queue u r.refused
            (ap (λ l. (write_all m.writer l).0) e ∙ w))
    ]
      where
        counted :
            ((m.queue ≡ []) × ((flush m arrived).writer ≡ m.writer))
              ⊎ (Writes m.writer m.queue (flush m arrived).writer
                  × ((flush m arrived).queue_size ≡ 0))
            → (flush m arrived).queue_size ≡ 0
        counted (inl (k, n)) = absurd (ground arith)
        counted (inr (w', z)) = z
