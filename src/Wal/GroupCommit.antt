-- ===== src/Wal/GroupCommit.antt =====
-- src/write/durability_wal.rs and src/write/group_commit.rs: the group commit of the log writer. The
-- writer of the log crate is its three calls over a state of its own. A call during which other
-- threads may queue operations takes those as an argument. Times and the counters that are only
-- reported are left out.
pub mod Flush
pub mod Durable
mod Tests
use rockduck.Prelude.{
  nat_eq, ℕ, zero, suc, ◌+◌, ◌-◌, max, Bool, true, false, not, ◌&&◌, ◌||◌, Option, none, some, List,
  [], ◌∷◌, ◌++◌, length, leb, if◌then◌else◌, ◌==◌,
}
use rockduck.Error.{Result, ok, err, write, ◌>>=◌}
use rockduck.Wal.Op.{
  OpType, begin_op, insert_op, delete_op, update_op, checkpoint_op, compaction_op, commit_op,
  rollback_op, WalOp,
}

pub data SyncPolicy : Type 0 where
  sync_each group_commit_strict flush_only : SyncPolicy

pub record WalConfig : Type 0 where
  pub enabled : Bool
  -- the policy of the group commit configuration, if there is one
  pub group_commit : Option SyncPolicy

unfoldable pub sync_policy : WalConfig → SyncPolicy
sync_policy config = elim config.group_commit [ none ↦ group_commit_strict | some p ↦ p ]

pub record CasLeaderElection : Type 0 where
  pub leader_active : Bool
  pub waiter_count : ℕ

-- `compare_exchange`: whether the caller is the leader now.
unfoldable pub try_claim_leader : CasLeaderElection → Bool × CasLeaderElection
try_claim_leader e = (not e.leader_active, record e { leader_active = true })

unfoldable pub release_leadership : CasLeaderElection → CasLeaderElection
release_leadership e = record e { leader_active = false }

unfoldable pub add_waiter : CasLeaderElection → CasLeaderElection
add_waiter e = record e { waiter_count = suc e.waiter_count }

unfoldable pub remove_waiter : CasLeaderElection → CasLeaderElection
remove_waiter e = record e { waiter_count = e.waiter_count - 1 }

pub record WalWriter (W : Type 0) : Type 0 where
  pub writer : W
  pub config : WalConfig
  pub committed_txn : ℕ
  pub queue : List WalOp
  pub queue_size : ℕ
  pub flush_needed : Bool
  pub flush_success : Bool
  pub flush_retries : ℕ
  pub election : CasLeaderElection

abbrev pub max_flush_retries : ℕ
max_flush_retries = 3

abbrev pub first_arrivals : List (List WalOp) → List WalOp
first_arrivals [] = []
first_arrivals (a ∷ rest) = a

abbrev pub other_arrivals : List (List WalOp) → List (List WalOp)
other_arrivals [] = []
other_arrivals (a ∷ rest) = rest

abbrev pub is_commit : OpType → Bool
is_commit commit_op = true
is_commit _ = false

module _ {W : Type 0} where
  unfoldable pub queue_commit_for_batch : WalWriter W → WalOp → WalWriter W
  queue_commit_for_batch m op = record m {
    queue = m.queue ++ (op ∷ []);
    queue_size = length (m.queue ++ (op ∷ []));
    flush_needed = true;
  }

  -- Operations that other threads queue.
  unfoldable pub arrive : WalWriter W → List WalOp → WalWriter W
  arrive m [] = m
  arrive m (op ∷ ops) = arrive (queue_commit_for_batch m op) ops

  -- The batch goes back to the head of the queue.
  unfoldable pub requeue : WalWriter W → List WalOp → WalWriter W
  requeue m ops = record m {
    queue = ops ++ m.queue;
    queue_size = length (ops ++ m.queue);
    flush_success = false;
    flush_needed = true;
  }

  unfoldable pub note_commit : OpType → ℕ → WalWriter W → WalWriter W
  note_commit op_type txn_id m =
      if is_commit op_type then record m { committed_txn = max m.committed_txn txn_id } else m

  module _ (append_op : W → WalOp → Result (Unit {0}) × W)
      (append_batch : W → List WalOp → Result (Unit {0}) × W)
      (flush_and_sync : W → Result (Unit {0}) × W) where
    -- An appending call and the sync behind it; the first error ends it.
    abbrev pub then_sync : Result (Unit {0}) × W → Result (Unit {0}) × W
    then_sync (ok u, w) = flush_and_sync w
    then_sync (err e, w) = (err write, w)

    abbrev pub as_write : Result (Unit {0}) → Result (Unit {0})
    as_write (ok u) = ok tt
    as_write (err e) = err write

    unfoldable pub write_batch : W → List WalOp → Result (Unit {0}) × W
    write_batch w ops = then_sync (append_batch w ops)

    -- The end of `flush_batch`, when the batch is written or refused.
    abbrev pub flushed : WalWriter W → List WalOp → Result (Unit {0}) → WalWriter W
    flushed m ops (ok u) = record m {
      flush_retries = 0;
      flush_success = true;
      queue_size = 0;
      flush_needed = false;
    }
    flushed m ops (err e) = requeue (record m { flush_retries = suc m.flush_retries }) ops

    -- The queue is drained; while the batch is written, operations arrive.
    unfoldable pub flush_batch : WalWriter W → List WalOp → WalWriter W
    flush_batch m arrived = elim m.queue [
      | [] ↦ arrive (record m { flush_success = true }) arrived
      | op ∷ ops ↦
          let (r, w) = write_batch m.writer (op ∷ ops) in
          let drained = record m { flush_success = false; queue = []; writer = w } in
          flushed (arrive drained arrived) (op ∷ ops) r
    ]

    -- The attempts that are left, and what arrives during each.
    unfoldable pub flush_attempts : ℕ → WalWriter W → List (List WalOp) → WalWriter W
    flush_attempts zero m arrivals = m
    flush_attempts (suc n) m arrivals =
        let rest =
          flush_attempts n (flush_batch m (first_arrivals arrivals)) (other_arrivals arrivals) in
        if m.flush_success then m else rest

    unfoldable pub flush_batch_with_retry : WalWriter W → List (List WalOp) → WalWriter W
    flush_batch_with_retry = flush_attempts max_flush_retries

    abbrev pub with_election : WalWriter W → CasLeaderElection → WalWriter W
    with_election m e = record m { election = e }

    abbrev pub lead : WalWriter W → List (List WalOp) → Option (Result (Unit {0})) × WalWriter W
    lead m arrivals =
        let flushed_once = flush_batch_with_retry m arrivals in
        let released = with_election flushed_once (release_leadership flushed_once.election) in
        (some (if released.flush_success then ok tt else err write), released)

    -- One round of the loop of `wait_for_batch_flush_strict`. There is no result while the caller has
    -- to wait for another leader.
    unfoldable pub wait_round :
        WalWriter W → List (List WalOp) → Option (Result (Unit {0})) × WalWriter W
    wait_round m arrivals =
        if m.queue_size == 0 && m.flush_success
        then (some (ok tt), m)
        else (let (leader, e) = try_claim_leader m.election in
            if leader then lead (with_election m e) arrivals else (none, with_election m e))

    -- The round behind `wait_for_sync`, when the other leader has finished.
    unfoldable pub after_sync : WalWriter W → Option (Result (Unit {0}))
    after_sync m = if m.flush_success then some (ok tt) else none

    -- The wait of a caller up to its first result, or to its first wait for another leader.
    unfoldable pub wait_for_batch_flush_strict :
        WalWriter W → List (List WalOp) → Option (Result (Unit {0})) × WalWriter W
    wait_for_batch_flush_strict m arrivals =
        let (r, m') = wait_round (with_election m (add_waiter m.election)) arrivals in
        (r, elim r [ none ↦ m' | some x ↦ with_election m' (remove_waiter m'.election) ])

    -- The commit record moves `committed_txn` when the append succeeds.
    abbrev pub finish_append :
        WalOp → Option (Result (Unit {0})) × WalWriter W → Option (Result (Unit {0})) × WalWriter W
    finish_append op (none, m) = (none, m)
    finish_append op (some (err e), m) = (some (err e), m)
    finish_append op (some (ok u), m) = (some (ok tt), note_commit op.op_type op.txn_id m)

    abbrev pub append_and_sync : WalWriter W → WalOp → Option (Result (Unit {0})) × WalWriter W
    append_and_sync m op =
        let (r, w) = then_sync (append_op m.writer op) in
        (some (as_write r), record m { writer = w })

    unfoldable pub append_durable :
        WalWriter W → WalOp → List (List WalOp) → Option (Result (Unit {0})) × WalWriter W
    append_durable m op arrivals =
        if not m.config.enabled && not (is_commit op.op_type)
        then (some (ok tt), m)
        else finish_append op (elim (sync_policy m.config) [
          | sync_each ↦ append_and_sync m op
          | group_commit_strict ↦ wait_for_batch_flush_strict (queue_commit_for_batch m op) arrivals
          | flush_only ↦ append_and_sync m op
        ])

    unfoldable pub append : WalWriter W → WalOp → Result (Unit {0}) × WalWriter W
    append m op =
        if not m.config.enabled
        then (ok tt, m)
        else (let (r, w) = append_op m.writer op in
            let m' = record m { writer = w } in
            elim r [
              | ok u ↦ (ok tt, note_commit op.op_type op.txn_id m')
              | err e ↦ (err write, m')
            ])

    -- One round of the background thread, when its wait has timed out; `free` is whether it gets the lock
    -- of the writer.
    unfoldable pub flusher_round : WalWriter W → Bool → List WalOp → WalWriter W
    flusher_round m free arrived =
        let (leader, e) = try_claim_leader (add_waiter m.election) in
        let m' = with_election m e in
        let worked : WalWriter W = elim m'.queue [
          | [] ↦ arrive (record m' { queue_size = 0; flush_success = true }) arrived
          | op ∷ ops ↦
              if free
              then (let (r, w) = write_batch m'.writer (op ∷ ops) in
                  let drained = arrive (record m' { queue = []; writer = w }) arrived in
                  elim r [
                    | ok u ↦ record drained {
                      queue_size = 0;
                      flush_success = true;
                      flush_needed = false;
                    }
                    | err x ↦ requeue drained (op ∷ ops)
                  ])
              else requeue (arrive (record m' { queue = [] }) arrived) (op ∷ ops)
        ] in
        let done =
          if leader then with_election worked (release_leadership worked.election) else m' in
        with_election done (remove_waiter done.election)
