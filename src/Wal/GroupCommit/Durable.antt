-- ===== src/Wal/GroupCommit/Durable.antt =====
-- src/write/durability_wal.rs: what `append_durable` answers, and where the operation is then.
use rockduck.Prelude.{
  nat_eq, ℕ, zero, suc, ◌<◌, ◌≡◌, ◌⊎◌, inl, inr, refl, sym, ap, ◌∙◌, true, false, Option, some,
  List, [], ◌∷◌, ◌++◌, length, length-append, arith, if◌then◌else◌,
}
use mathlib.Core.List.{append-nil}
use mathlib.Core.Path.{subst}
use rockduck.Error.{Result, ok, err, write}
use rockduck.Wal.Op.{WalOp}
use rockduck.Wal.GroupCommit.{
  group_commit_strict, sync_policy, WalWriter, queue_commit_for_batch, note_commit, flush_batch,
  flush_attempts, flush_batch_with_retry, try_claim_leader, release_leadership, add_waiter,
  remove_waiter, with_election, wait_round, wait_for_batch_flush_strict, append_durable,
}
use rockduck.Wal.GroupCommit.Flush.{Writes, Refuses, flush_batch-cases}

module _ {W : Type 0} (append_op : W → WalOp → Result (Unit {0}) × W)
    (append_batch : W → List WalOp → Result (Unit {0}) × W)
    (flush_and_sync : W → Result (Unit {0}) × W) where
  abbrev durable :
      WalWriter W → WalOp → List (List WalOp) → Option (Result (Unit {0})) × WalWriter W
  durable = append_durable append_op append_batch flush_and_sync

  -- The writer takes group commits, and no thread leads.
  pub record IsStrict (m : WalWriter W) : Type 0 where
    pub enabled : m.config.enabled ≡ true
    pub strict : sync_policy m.config ≡ group_commit_strict
    pub free : m.election.leader_active ≡ false

  -- The state in which a caller leads, with its operation queued.
  abbrev claimed : WalWriter W → WalOp → WalWriter W
  claimed m op =
      with_election append_op append_batch flush_and_sync (queue_commit_for_batch m op)
        (record { leader_active = true; waiter_count = suc m.election.waiter_count })

  abbrev retried : WalWriter W → WalOp → List (List WalOp) → WalWriter W
  retried m op = flush_batch_with_retry append_op append_batch flush_and_sync (claimed m op)

  wait-leads :
      (m : WalWriter W) (op : WalOp) (arrivals : List (List WalOp))
      → m.election.leader_active ≡ false
      → wait_for_batch_flush_strict append_op append_batch flush_and_sync
          (queue_commit_for_batch m op)
          arrivals
        ≡ (
          some (if (retried m op arrivals).flush_success then ok tt else err write),
          with_election append_op append_batch flush_and_sync
              (retried m op arrivals)
              (remove_waiter (release_leadership (retried m op arrivals).election)),
        )
  unfolding wait_for_batch_flush_strict wait_round try_claim_leader add_waiter
      queue_commit_for_batch
  wait-leads m op arrivals f = ground (arith, length-append m.queue (op ∷ []))

  -- What a durable append answers, and what it leaves, by the flush that its caller leads.
  record IsLed (m : WalWriter W) (op : WalOp) (arrivals : List (List WalOp)) : Type 0 where
    answer :
        (durable m op arrivals).0
        ≡ some (if (retried m op arrivals).flush_success then ok tt else err write)
    writer : (durable m op arrivals).1.writer ≡ (retried m op arrivals).writer
    queue : (durable m op arrivals).1.queue ≡ (retried m op arrivals).queue

  durable-IsLed :
      (m : WalWriter W) (op : WalOp) (arrivals : List (List WalOp))
      → IsStrict m
      → IsLed m op arrivals
  unfolding append_durable note_commit
  durable-IsLed m op arrivals s = record {
    answer = ground (arith, s.enabled, s.strict, wait-leads m op arrivals s.free);
    writer = ground (arith, s.enabled, s.strict, wait-leads m op arrivals s.free);
    queue = ground (arith, s.enabled, s.strict, wait-leads m op arrivals s.free);
  }

  attempts-stale :
      (n : ℕ) (m : WalWriter W) (arrivals : List (List WalOp))
      → m.flush_success ≡ true
      → flush_attempts append_op append_batch flush_and_sync n m arrivals ≡ m
  unfolding flush_attempts
  attempts-stale zero m arrivals h = refl
  attempts-stale (suc n) m arrivals h = rw (h, flush_attempts) refl

  -- Where an earlier flush has succeeded, a commit is reported as durable while the writer is as it was
  -- and the operation is the last one of the queue.
  pub append_durable-stale :
      (m : WalWriter W) (op : WalOp) (arrivals : List (List WalOp))
      → IsStrict m
      → m.flush_success ≡ true
      → ((durable m op arrivals).0 ≡ some (ok tt))
        × ((durable m op arrivals).1.writer ≡ m.writer)
        × ((durable m op arrivals).1.queue ≡ m.queue ++ (op ∷ []))
  unfolding flush_batch_with_retry queue_commit_for_batch
  append_durable-stale m op arrivals s h =
      let l = durable-IsLed m op arrivals s in
      let q : retried m op arrivals ≡ claimed m op = attempts-stale 3 (claimed m op) arrivals h in
      (
        l.answer
            ∙ ap (λ (z : WalWriter W). some (if z.flush_success then ok tt else err write)) q
            ∙ rw h refl,
        l.writer ∙ ap (λ (z : WalWriter W). z.writer) q,
        l.queue ∙ ap (λ (z : WalWriter W). z.queue) q,
      )

  abbrev WritesAll : W → List WalOp → W → Type 0
  WritesAll = Writes append_op append_batch flush_and_sync

  abbrev RefusesAll : W → List WalOp → W → Type 0
  RefusesAll = Refuses append_op append_batch flush_and_sync

  -- The writer refuses the operations so many times, from the first state to the second.
  abbrev pub Refusals : List WalOp → ℕ → W → W → Type 0
  Refusals ops zero w w' = w ≡ w'
  Refusals ops (suc n) w w' = (w1 : W) × RefusesAll w ops w1 × Refusals ops n w1 w'

  -- The writer refuses the operations fewer than `n` times, and then writes them.
  pub record WritesWithin (ops : List WalOp) (n : ℕ) (w w' : W) : Type 0 where
    pub refusals : ℕ
    pub in_time : refusals < n
    pub last : W
    pub refused : Refusals ops refusals w last
    pub written : WritesAll last ops w'

  -- The batch is written and the queue is empty, or it is refused each time and is the queue.
  abbrev Settled : List WalOp → ℕ → W → WalWriter W → Type 0
  Settled ops n w m =
      ((m.flush_success ≡ true) × (m.queue ≡ []) × WritesWithin ops n w m.writer)
      ⊎ ((m.flush_success ≡ false) × (m.queue ≡ ops) × Refusals ops n w m.writer)

  refused-Settled :
      (ops : List WalOp) (n : ℕ) (w w1 : W) (m : WalWriter W)
      → RefusesAll w ops w1
      → Settled ops n w1 m
      → Settled ops (suc n) w m
  refused-Settled ops n w w1 m r (inl (t, q, a)) = inl (
    t,
    q,
    record {
      refusals = suc a.refusals;
      in_time = omega (arith, a.in_time);
      last = a.last;
      refused = (w1, r, a.refused);
      written = a.written;
    },
  )
  refused-Settled ops n w w1 m r (inr (t, q, a)) = inr (t, q, (w1, r, a))

  attempts-next :
      (n : ℕ) (m : WalWriter W)
      → m.flush_success ≡ false
      → flush_attempts append_op append_batch flush_and_sync (suc n) m []
        ≡ flush_attempts append_op append_batch flush_and_sync n
            (flush_batch append_op append_batch flush_and_sync m [])
            []
  unfolding flush_attempts
  attempts-next n m h = ground (arith, h)

  attempts-fresh :
      (n : ℕ) (m : WalWriter W) (op : WalOp) (ops : List WalOp)
      → m.flush_success ≡ false
      → m.queue ≡ op ∷ ops
      → Settled (op ∷ ops) n m.writer (flush_attempts append_op append_batch flush_and_sync n m [])
  unfolding flush_attempts
  attempts-fresh zero m op ops h q = inr (h, q, refl)
  attempts-fresh (suc n) m op ops h q =
      let m1 : WalWriter W = flush_batch append_op append_batch flush_and_sync m [] in
      elim (flush_batch-cases append_op append_batch flush_and_sync m []) [
        | inl r ↦
            subst (Settled (op ∷ ops) (suc n) m.writer)
              (sym (attempts-next n m h ∙ attempts-stale n m1 [] r.success))
              (inl (
                r.success,
                r.queue,
                record {
                  refusals = 0;
                  in_time = omega arith;
                  last = m.writer;
                  refused = refl;
                  written = written r.written;
                },
              ))
        | inr r ↦ subst (Settled (op ∷ ops) (suc n) m.writer) (sym (attempts-next n m h)) (
            refused-Settled (op ∷ ops) n m.writer m1.writer
              (flush_attempts append_op append_batch flush_and_sync n m1 [])
              (subst (λ l. RefusesAll m.writer l m1.writer) q r.refused)
              (attempts-fresh n m1 op ops r.failure (r.queue ∙ append-nil m.queue ∙ q)))
      ]
    where
      written :
          ((m.queue ≡ [])
              × ((flush_batch append_op append_batch flush_and_sync m []).writer ≡ m.writer))
            ⊎ (WritesAll m.writer m.queue
                  (flush_batch append_op append_batch flush_and_sync m []).writer
                × ((flush_batch append_op append_batch flush_and_sync m []).queue_size ≡ 0))
          → WritesAll m.writer
              (op ∷ ops)
              (flush_batch append_op append_batch flush_and_sync m []).writer
      written (inl (k, z)) = absurd (ground arith)
      written (inr (k, z)) =
          subst
            (λ l.
              WritesAll m.writer l (flush_batch append_op append_batch flush_and_sync m []).writer)
            q k

  -- What a durable append leaves, when the flush is settled: an answer, the queue and the writer.
  abbrev pub FreshOutcome : WalWriter W → WalOp → Type 0
  FreshOutcome m op =
      (((durable m op []).0 ≡ some (ok tt))
        × ((durable m op []).1.queue ≡ [])
        × WritesWithin (m.queue ++ (op ∷ [])) 3 m.writer (durable m op []).1.writer)
      ⊎ (((durable m op []).0 ≡ some (err write))
          × ((durable m op []).1.queue ≡ m.queue ++ (op ∷ []))
          × Refusals (m.queue ++ (op ∷ [])) 3 m.writer (durable m op []).1.writer)

  -- Where no flush has succeeded before and nothing else arrives, a durable append under the strict
  -- policy has one of two outcomes. It answers ok and empties the queue, and the writer has appended
  -- the whole queue with the operation behind it and then flushed and synced the log, at the first,
  -- second or third attempt. Or it answers with an error and keeps the operation behind the queue, and
  -- the writer has refused three attempts. The writer is in the state that these calls leave.
  pub append_durable-fresh :
      (m : WalWriter W) (op : WalOp) → IsStrict m → m.flush_success ≡ false → FreshOutcome m op
  unfolding flush_batch_with_retry queue_commit_for_batch
  append_durable-fresh m op s h = go (m.queue ++ (op ∷ [])) refl
    where
      go : (q : List WalOp) → m.queue ++ (op ∷ []) ≡ q → FreshOutcome m op
      go [] e = absurd (ground (arith, ap length e, length-append m.queue (op ∷ [])))
      go (x ∷ xs) e =
          let l = durable-IsLed m op [] s in
          elim (attempts-fresh 3 (claimed m op) x xs h e) [
            | inl (t, q, a) ↦ inl (
              l.answer ∙ rw t refl,
              l.queue ∙ q,
              subst (λ z. WritesWithin z 3 m.writer (durable m op []).1.writer) (sym e)
                  (subst (WritesWithin (x ∷ xs) 3 m.writer) (sym l.writer) a),
            )
            | inr (t, q, a) ↦ inr (
              l.answer ∙ rw t refl,
              l.queue ∙ q ∙ sym e,
              subst (λ z. Refusals z 3 m.writer (durable m op []).1.writer) (sym e)
                  (subst (Refusals (x ∷ xs) 3 m.writer) (sym l.writer) a),
            )
          ]
