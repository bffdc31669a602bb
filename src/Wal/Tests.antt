-- ===== src/Wal/Tests.antt =====
-- A log of two transactions, of which one commits.
use rockduck.Prelude.{nat_eq, ℕ, suc, ◌≡◌, refl, true, some, inl, List, [], ◌∷◌, In}
use rockduck.Error.{Result, ok}
use rockduck.Wal.Op.{
  begin_op, insert_op, commit_op, begin_payload, insert_payload, commit_payload, WalOp,
}
use rockduck.Wal.Recovery.{replay_committed_ops}
use rockduck.Wal.Recovery.Atomic.{has_commit, replay_committed_ops-has_commit}
use rockduck.Wal.Recovery.Committed.{committed_in, replay_committed_ops-committed_in}

abbrev insert_into : ℕ → WalOp
insert_into txn = record {
  op_type = insert_op;
  txn_id = txn;
  payload = insert_payload (record {
    table = [];
    pk = txn ∷ [];
    columns = [];
    wal_batch = [];
    schema_bytes = [];
    seg_id = [];
    granule_id = 0;
    offset = 0;
  });
}

abbrev log : List WalOp
log =
    record { op_type = begin_op; txn_id = 1; payload = begin_payload }
    ∷ insert_into 1
    ∷ record { op_type = begin_op; txn_id = 2; payload = begin_payload }
    ∷ insert_into 2
    ∷ insert_into 1
    ∷ record { op_type = commit_op; txn_id = 1; payload = commit_payload 1 (some 700) }
    ∷ []

-- A database that counts the operations.
abbrev count : ℕ → WalOp → Result (Unit {0}) × ℕ
count n op = (ok tt, suc n)

replayed : committed_in [] log ≡ insert_into 1 ∷ insert_into 1 ∷ []
unfolding committed_in rockduck.Wal.Recovery.Committed.open_ops
replayed = refl

replay_committed_ops-committed_in_example :
    ((replay_committed_ops count 0 log).0).committed_ops ≡ committed_in [] log
replay_committed_ops-committed_in_example =
    replay_committed_ops-committed_in count (λ db op. refl) 0 log

insert_1-In : In (insert_into 1) ((replay_committed_ops count 0 log).0).committed_ops
unfolding replay_committed_ops rockduck.Wal.Recovery.replay_each rockduck.Wal.Recovery.replay_op
insert_1-In = inl refl

replay_committed_ops-has_commit_example : has_commit 1 log ≡ true
replay_committed_ops-has_commit_example =
    replay_committed_ops-has_commit count 0 log (insert_into 1) insert_1-In
