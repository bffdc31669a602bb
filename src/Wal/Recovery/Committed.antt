-- ===== src/Wal/Recovery/Committed.antt =====
-- src/write/wal_recovery.rs: the replay beside a reading of the log by itself.
use rockduck.Prelude.{
  nat_eq, ℕ, ◌≡◌, refl, sym, ap, ◌∙◌, true, List, [], ◌∷◌, ◌++◌, arith, ◌==◌, if◌then◌else◌,
}
use rockduck.Error.{Result, ok}
use rockduck.Std.HashMap
use rockduck.Wal.Op.{
  OpType, begin_op, insert_op, delete_op, update_op, checkpoint_op, compaction_op, commit_op,
  rollback_op, WalOp,
}
use rockduck.Wal.Recovery.{
  ReplayState, initial, ops_of, note_commit, apply_ops, apply_txn, replay_op, replay_each,
  replay_committed_ops,
}

-- The reference: the operations of a transaction that a stretch of the log leaves open, after
-- those that were open before it.
abbrev pub open_step : List WalOp → WalOp → List WalOp
open_step acc op = elim op.op_type [
  | insert_op ↦ acc ++ (op ∷ [])
  | delete_op ↦ acc ++ (op ∷ [])
  | update_op ↦ acc ++ (op ∷ [])
  | commit_op ↦ []
  | rollback_op ↦ []
  | _ ↦ acc
]

unfoldable pub open_ops : ℕ → List WalOp → List WalOp → List WalOp
open_ops t acc [] = acc
open_ops t acc (op ∷ log) = open_ops t (if op.txn_id == t then open_step acc op else acc) log

-- At each commit record, the operations that the log before it leaves open for its transaction.
unfoldable pub committed_in : List WalOp → List WalOp → List WalOp
committed_in before [] = []
committed_in before (op ∷ log) =
    (elim op.op_type [ commit_op ↦ open_ops op.txn_id [] before | _ ↦ [] ])
    ++ committed_in (before ++ (op ∷ [])) log

open_ops-append :
    (t : ℕ) (log : List WalOp) (acc : List WalOp) (op : WalOp)
    → open_ops t acc (log ++ (op ∷ []))
      ≡ (if op.txn_id == t then open_step (open_ops t acc log) op else open_ops t acc log)
unfolding open_ops
open_ops-append t [] acc op = refl
open_ops-append t (o ∷ log) acc op =
    open_ops-append t log (if o.txn_id == t then open_step acc o else acc) op

append_nil : (l : List WalOp) → l ++ [] ≡ l
append_nil [] = refl
append_nil (x ∷ l) = ap (◌∷◌ x) (append_nil l)

append_assoc : (a b c : List WalOp) → (a ++ b) ++ c ≡ a ++ (b ++ c)
append_assoc [] b c = refl
append_assoc (x ∷ a) b c = ap (◌∷◌ x) (append_assoc a b c)

module _ {S : Type 0} (apply : S → WalOp → Result (Unit {0}) × S) where
  -- The pending map holds what the log so far leaves open.
  pub IsOpen : ReplayState → List WalOp → Type 0
  IsOpen st before = (t : ℕ) → ops_of (HashMap.get st.pending t) ≡ open_ops t [] before

  pub apply_txn-pending :
      (st : ReplayState) (db : S) (txn : ℕ) (ops : List WalOp)
      → ((apply_txn apply st db txn ops).0).pending ≡ st.pending
  apply_txn-pending st db txn [] = refl
  apply_txn-pending st db txn (op ∷ ops) = ground arith

  pub note_commit-pending :
      (st : ReplayState) (op : WalOp)
      → (note_commit st op).pending ≡ HashMap.remove st.pending op.txn_id
  note_commit-pending st op = ground arith

  pub note_commit-committed_ops :
      (st : ReplayState) (op : WalOp) → (note_commit st op).committed_ops ≡ st.committed_ops
  note_commit-committed_ops st op = ground arith

  replay_op-IsOpen :
      (st : ReplayState) (db : S) (before : List WalOp) (op : WalOp) (k : OpType)
      → op.op_type ≡ k
      → IsOpen st before
      → IsOpen (replay_op apply st db op).0 (before ++ (op ∷ []))
  unfolding replay_op IsOpen
  replay_op-IsOpen st db before op insert_op e h t = ground (
    arith,
    h t,
    h op.txn_id,
    open_ops-append t before [] op,
    nat_eq.equals_iff op.txn_id t,
    HashMap.get-insert st.pending op.txn_id (ops_of (HashMap.get st.pending op.txn_id) ++ (op ∷ []))
        t,
  )
  replay_op-IsOpen st db before op delete_op e h t = ground (
    arith,
    h t,
    h op.txn_id,
    open_ops-append t before [] op,
    nat_eq.equals_iff op.txn_id t,
    HashMap.get-insert st.pending op.txn_id (ops_of (HashMap.get st.pending op.txn_id) ++ (op ∷ []))
        t,
  )
  replay_op-IsOpen st db before op update_op e h t = ground (
    arith,
    h t,
    h op.txn_id,
    open_ops-append t before [] op,
    nat_eq.equals_iff op.txn_id t,
    HashMap.get-insert st.pending op.txn_id (ops_of (HashMap.get st.pending op.txn_id) ++ (op ∷ []))
        t,
  )
  replay_op-IsOpen st db before op begin_op e h t = ground (
    arith,
    h t,
    h op.txn_id,
    open_ops-append t before [] op,
    nat_eq.equals_iff op.txn_id t,
    HashMap.get-insert st.pending op.txn_id (ops_of (HashMap.get st.pending op.txn_id)) t,
  )
  replay_op-IsOpen st db before op commit_op e h t = ground (
    arith,
    h t,
    h op.txn_id,
    open_ops-append t before [] op,
    nat_eq.equals_iff op.txn_id t,
    HashMap.get-remove st.pending op.txn_id t,
    apply_txn-pending (note_commit st op) db op.txn_id (ops_of (HashMap.get st.pending op.txn_id)),
    note_commit-pending st op,
  )
  replay_op-IsOpen st db before op rollback_op e h t = ground (
    arith,
    h t,
    h op.txn_id,
    open_ops-append t before [] op,
    nat_eq.equals_iff op.txn_id t,
    HashMap.get-remove st.pending op.txn_id t,
  )
  replay_op-IsOpen st db before op checkpoint_op e h t =
      ground
        (arith, h t, h op.txn_id, open_ops-append t before [] op, nat_eq.equals_iff op.txn_id t)
  replay_op-IsOpen st db before op compaction_op e h t =
      ground
        (arith, h t, h op.txn_id, open_ops-append t before [] op, nat_eq.equals_iff op.txn_id t)

  module _ (applies : (db : S) (op : WalOp) → (apply db op).0 ≡ ok tt) where
    apply_ops-true : (ops : List WalOp) (db : S) → (apply_ops apply db ops).0 ≡ true
    apply_ops-true [] db = refl
    apply_ops-true (op ∷ ops) db = ground (arith, applies db op, apply_ops-true ops (apply db op).1)

    apply_txn-committed_ops :
        (st : ReplayState) (db : S) (txn : ℕ) (ops : List WalOp)
        → ((apply_txn apply st db txn ops).0).committed_ops ≡ st.committed_ops ++ ops
    apply_txn-committed_ops st db txn [] = sym (append_nil st.committed_ops)
    apply_txn-committed_ops st db txn (op ∷ ops) = ground (arith, apply_ops-true (op ∷ ops) db)

    replay_op-committed_ops :
        (st : ReplayState) (db : S) (before : List WalOp) (op : WalOp) (k : OpType)
        → op.op_type ≡ k
        → IsOpen st before
        → ((replay_op apply st db op).0).committed_ops
          ≡ st.committed_ops
            ++ (elim op.op_type [ commit_op ↦ open_ops op.txn_id [] before | _ ↦ [] ])
    unfolding replay_op IsOpen
    replay_op-committed_ops st db before op insert_op e h =
        ground (arith, append_nil st.committed_ops)
    replay_op-committed_ops st db before op delete_op e h =
        ground (arith, append_nil st.committed_ops)
    replay_op-committed_ops st db before op update_op e h =
        ground (arith, append_nil st.committed_ops)
    replay_op-committed_ops st db before op begin_op e h =
        ground (arith, append_nil st.committed_ops)
    replay_op-committed_ops st db before op commit_op e h = ground (
      arith,
      h op.txn_id,
      apply_txn-committed_ops (note_commit st op) db op.txn_id
          (ops_of (HashMap.get st.pending op.txn_id)),
      note_commit-committed_ops st op,
    )
    replay_op-committed_ops st db before op rollback_op e h =
        ground (arith, append_nil st.committed_ops)
    replay_op-committed_ops st db before op checkpoint_op e h =
        ground (arith, append_nil st.committed_ops)
    replay_op-committed_ops st db before op compaction_op e h =
        ground (arith, append_nil st.committed_ops)

    replay_each-committed_ops :
        (log : List WalOp) (st : ReplayState) (db : S) (before : List WalOp)
        → IsOpen st before
        → ((replay_each apply st db log).0).committed_ops
          ≡ st.committed_ops ++ committed_in before log
    unfolding replay_each committed_in
    replay_each-committed_ops [] st db before h = sym (append_nil st.committed_ops)
    replay_each-committed_ops (op ∷ log) st db before h =
        let next = replay_op apply st db op in
        replay_each-committed_ops log next.0 next.1 (before ++ (op ∷ []))
          (replay_op-IsOpen st db before op op.op_type refl h)
        ∙ ap (λ l. l ++ committed_in (before ++ (op ∷ [])) log)
            (replay_op-committed_ops st db before op op.op_type refl h)
        ∙ append_assoc st.committed_ops _ _

  initial-IsOpen : IsOpen initial []
  unfolding IsOpen open_ops
  initial-IsOpen t = refl

-- When no operation fails to apply, the replay hands to the database, in the order of the log and at
-- each commit record, exactly the operations that the log before it leaves open for the transaction
-- that commits: those since its last commit or rollback.
pub replay_committed_ops-committed_in :
    {S : Type 0} (apply : S → WalOp → Result (Unit {0}) × S)
    → ((db : S) (op : WalOp) → (apply db op).0 ≡ ok tt)
    → (db : S) (log : List WalOp)
    → ((replay_committed_ops apply db log).0).committed_ops ≡ committed_in [] log
unfolding replay_committed_ops
replay_committed_ops-committed_in apply applies db log =
    replay_each-committed_ops apply applies log initial db [] (initial-IsOpen apply)
