-- ===== src/Wal/GroupCommit/Tests.antt =====
-- A log that is the list of its operations, with a writer that accepts everything.
use rockduck.Prelude.{ℕ, ◌≡◌, ◌⊎◌, refl, Bool, true, false, none, some, List, [], ◌∷◌, ◌++◌}
use rockduck.Error.{Result, ok}
use rockduck.Wal.Op.{WalOp, commit_op, commit_payload}
use rockduck.Wal.GroupCommit.{
  CasLeaderElection, WalWriter, write_batch, flush_batch, wait_round, append_durable,
}
use rockduck.Wal.GroupCommit.Flush.{IsWritten, IsRefused, flush_batch-cases, flush_batch-late}
use rockduck.Wal.GroupCommit.Durable.{
  IsStrict, FreshOutcome, append_durable-stale, append_durable-fresh,
}

abbrev append_one : List WalOp → WalOp → Result (Unit {0}) × List WalOp
append_one log op = (ok tt, log ++ (op ∷ []))

abbrev append_all : List WalOp → List WalOp → Result (Unit {0}) × List WalOp
append_all log ops = (ok tt, log ++ ops)

abbrev sync : List WalOp → Result (Unit {0}) × List WalOp
sync log = (ok tt, log)

abbrev commit_of : ℕ → WalOp
commit_of txn = record { op_type = commit_op; txn_id = txn; payload = commit_payload 1 none }

-- A writer with a queue and the flag of the last flush.
abbrev writer_with : List WalOp → Bool → WalWriter (List WalOp)
writer_with ops success = record {
  writer = [];
  config = record { enabled = true; group_commit = none };
  committed_txn = 0;
  queue = ops;
  queue_size = 0;
  flush_needed = false;
  flush_success = success;
  flush_retries = 0;
  election = record { leader_active = false; waiter_count = 0 };
}

one_accepted : (write_batch append_one append_all sync [] (commit_of 1 ∷ [])).0 ≡ ok tt
unfolding write_batch
one_accepted = refl

writer_with-IsStrict :
    (success : Bool) → IsStrict append_one append_all sync (writer_with [] success)
unfolding rockduck.Wal.GroupCommit.sync_policy
writer_with-IsStrict success = record { enabled = refl; strict = refl; free = refl }

flush_batch-cases_example :
    IsWritten append_one append_all sync
      (writer_with (commit_of 1 ∷ []) false)
      (flush_batch append_one append_all sync
        (writer_with (commit_of 1 ∷ []) false)
        (commit_of 2 ∷ []))
      (commit_of 2 ∷ [])
    ⊎ IsRefused append_one append_all sync
        (writer_with (commit_of 1 ∷ []) false)
        (flush_batch append_one append_all sync
          (writer_with (commit_of 1 ∷ []) false)
          (commit_of 2 ∷ []))
        (commit_of 2 ∷ [])
flush_batch-cases_example =
    flush_batch-cases append_one append_all sync (writer_with (commit_of 1 ∷ []) false)
      (commit_of 2 ∷ [])

-- The second commit arrives while the first is written.
flush_batch-late_example :
    ((flush_batch append_one append_all sync
        (writer_with (commit_of 1 ∷ []) false)
        (commit_of 2 ∷ [])).queue
      ≡ commit_of 2 ∷ [])
    × (wait_round append_one append_all sync
          (flush_batch append_one append_all sync
            (writer_with (commit_of 1 ∷ []) false)
            (commit_of 2 ∷ []))
          []
        ≡ (
          some (ok tt),
          flush_batch append_one append_all sync
              (writer_with (commit_of 1 ∷ []) false)
              (commit_of 2 ∷ []),
        ))
flush_batch-late_example =
    flush_batch-late append_one append_all sync (writer_with (commit_of 1 ∷ []) false) (commit_of 1)
      [] (commit_of 2 ∷ []) tt [] refl one_accepted

append_durable-stale_example :
    ((append_durable append_one append_all sync (writer_with [] true) (commit_of 3) []).0
      ≡ some (ok tt))
    × ((append_durable append_one append_all sync (writer_with [] true) (commit_of 3) []).1.writer
        ≡ [])
    × ((append_durable append_one append_all sync (writer_with [] true) (commit_of 3) []).1.queue
        ≡ commit_of 3 ∷ [])
append_durable-stale_example =
    append_durable-stale append_one append_all sync (writer_with [] true) (commit_of 3) []
      (writer_with-IsStrict true) refl

append_durable-fresh_example :
    FreshOutcome append_one append_all sync (writer_with [] false) (commit_of 3)
append_durable-fresh_example =
    append_durable-fresh append_one append_all sync (writer_with [] false) (commit_of 3)
      (writer_with-IsStrict false) refl
