-- ===== src/Compaction/Phase.antt =====
-- src/compaction/phase.rs: the state machine of a compaction. Its state is behind a lock, and so each
-- call is one step; the clock and the codec are parameters.
pub mod Moves
use rockduck.Prelude.{
  ℕ, Bool, true, false, not, Option, none, some, List, [], Bytes, Str, if◌then◌else◌,
}
use rockduck.Error.{Result, ok, err, compaction}

pub data CompactionPhase : Type 0 where
  idle : CompactionPhase
  prepare commit cleanup : (new_seg_id : Str) (old_seg_ids : List Str) → CompactionPhase

unfoldable pub is_idle : CompactionPhase → Bool
is_idle idle = true
is_idle _ = false

pub record CompactionState : Type 0 where
  pub txn_id : ℕ
  pub phase : CompactionPhase
  pub start_time : ℕ

-- `CompactionPhaseMachine`
abbrev pub Machine : Type 0
Machine = Option CompactionState

abbrev pub new_machine : Machine
new_machine = none

unfoldable pub machine_is_idle : Machine → Bool
machine_is_idle none = true
machine_is_idle (some s) = is_idle s.phase

unfoldable pub current_phase : Machine → Option CompactionPhase
current_phase none = none
current_phase (some s) = some s.phase

unfoldable pub begin_compaction :
    Machine → ℕ → Str → List Str → (now : ℕ) → Result CompactionPhase × Machine
unfolding machine_is_idle
begin_compaction m txn_id new_seg_id old_seg_ids now =
    if not (machine_is_idle m) then (err compaction, m) else (
      ok (prepare new_seg_id old_seg_ids),
      some (record { txn_id = txn_id; phase = prepare new_seg_id old_seg_ids; start_time = now }),
    )

unfoldable pub commit_from : CompactionState → CompactionPhase → Result CompactionPhase × Machine
commit_from s (prepare new_seg_id old_seg_ids) =
    (ok (commit new_seg_id old_seg_ids), some (record s { phase = commit new_seg_id old_seg_ids }))
commit_from s _ = (err compaction, some s)

unfoldable pub commit_phase : Machine → Result CompactionPhase × Machine
unfolding commit_from
commit_phase none = (err compaction, none)
commit_phase (some s) = commit_from s s.phase

-- The last component holds the calls of `on_cleanup`, in their order.
unfoldable pub cleanup_from :
    CompactionState → CompactionPhase → Result CompactionPhase × Machine × List Str
cleanup_from s (commit new_seg_id old_seg_ids) = (
  ok (cleanup new_seg_id old_seg_ids),
  some (record s { phase = cleanup new_seg_id old_seg_ids }),
  old_seg_ids,
)
cleanup_from s _ = (err compaction, some s, [])

unfoldable pub cleanup_phase_with_callback : Machine → Result CompactionPhase × Machine × List Str
unfolding cleanup_from
cleanup_phase_with_callback none = (err compaction, none, [])
cleanup_phase_with_callback (some s) = cleanup_from s s.phase

unfoldable pub finish : Machine → Result (Unit {0}) × Machine
finish m = (ok tt, none)

module _ (deserialize : Bytes → Option CompactionState) where
  unfoldable pub restore_from_db : Machine → Bytes → Machine
  restore_from_db m data_bytes = elim (deserialize data_bytes) [
    | none ↦ m
    | some s ↦ if not (is_idle s.phase) then some s else m
  ]
