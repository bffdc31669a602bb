-- ===== src/Wal/Recovery/Atomic.antt =====
-- src/write/wal_recovery.rs: the replayed operations and the commit records.
use mathlib.Core.Path.{subst}
use rockduck.Prelude.{
  nat_eq, ℕ, ◌≡◌, refl, ap, ◌∙◌, Bool, true, false, ◌&&◌, ◌||◌, none, some, List, [], ◌∷◌, ◌++◌,
  arith, ◌==◌, Bool-cases, inl, inr, ◌⊎◌, In, In-append-cases,
}
use rockduck.Error.{Result}
use rockduck.Std.HashMap
use rockduck.Std.HashMap.{HashMap}
use rockduck.Wal.Op.{
  OpType, begin_op, insert_op, delete_op, update_op, checkpoint_op, compaction_op, commit_op,
  rollback_op, WalOp,
}
use rockduck.Wal.Recovery.{
  ReplayState, initial, ops_of, note_commit, finish_txn, apply_ops, apply_txn, replay_op,
  replay_each, replay_committed_ops,
}
use rockduck.Wal.Recovery.Committed.{
  apply_txn-pending, note_commit-pending, note_commit-committed_ops,
}

abbrev pub is_commit : OpType → Bool
is_commit commit_op = true
is_commit _ = false

-- The log has a commit record of the transaction.
unfoldable pub has_commit : ℕ → List WalOp → Bool
has_commit t [] = false
has_commit t (op ∷ log) = is_commit op.op_type && (op.txn_id == t) || has_commit t log

has_commit-append :
    (t : ℕ) (log : List WalOp) (op : WalOp)
    → has_commit t (log ++ (op ∷ []))
      ≡ (has_commit t log || (is_commit op.op_type && (op.txn_id == t)))
unfolding has_commit
has_commit-append t [] op = ground arith
has_commit-append t (o ∷ log) op = ground (arith, has_commit-append t log op)

-- The pending operations of a transaction are its own, and every operation that was handed on is of
-- a transaction with a commit record.
record IsAtomic (st : ReplayState) (before : List WalOp) : Type 0 where
  filed : (t : ℕ) (op : WalOp) → In op (ops_of (HashMap.get st.pending t)) → op.txn_id ≡ t
  committed : (op : WalOp) → In op st.committed_ops → has_commit op.txn_id before ≡ true

later :
    (t : ℕ) (before : List WalOp) (op : WalOp)
    → has_commit t before ≡ true
    → has_commit t (before ++ (op ∷ [])) ≡ true
later t before op h = ground (arith, has_commit-append t before op)

-- The pending operations after an insertion, a removal, or neither.
filed-insert :
    (st : ReplayState) (k : ℕ) (ops : List WalOp)
    → ((t : ℕ) (op : WalOp) → In op (ops_of (HashMap.get st.pending t)) → op.txn_id ≡ t)
    → ((op : WalOp) → In op ops → op.txn_id ≡ k)
    → (t : ℕ) (op : WalOp) → In op (ops_of (HashMap.get (HashMap.insert st.pending k ops) t))
    → op.txn_id ≡ t
filed-insert st k ops f g t op i = elim (Bool-cases (k == t)) [
  | inl e ↦
      let q : HashMap.get (HashMap.insert st.pending k ops) t ≡ some ops =
        ground (arith, HashMap.get-insert st.pending k ops t) in
      let r : k ≡ t = (nat_eq.equals_iff k t).0 e in g op (subst (λ o. In op (ops_of o)) q i) ∙ r
  | inr e ↦
      let q : HashMap.get (HashMap.insert st.pending k ops) t ≡ HashMap.get st.pending t =
        ground (arith, HashMap.get-insert st.pending k ops t) in
      f t op (subst (λ o. In op (ops_of o)) q i)
]

filed-remove :
    (st : ReplayState) (k : ℕ)
    → ((t : ℕ) (op : WalOp) → In op (ops_of (HashMap.get st.pending t)) → op.txn_id ≡ t)
    → (t : ℕ) (op : WalOp) → In op (ops_of (HashMap.get (HashMap.remove st.pending k) t))
    → op.txn_id ≡ t
filed-remove st k f t op i = elim (Bool-cases (k == t)) [
  | inl e ↦
      let q : HashMap.get (HashMap.remove st.pending k) t ≡ none =
        ground (arith, HashMap.get-remove st.pending k t) in
      absurd (subst (λ o. In op (ops_of o)) q i)
  | inr e ↦
      let q : HashMap.get (HashMap.remove st.pending k) t ≡ HashMap.get st.pending t =
        ground (arith, HashMap.get-remove st.pending k t) in
      f t op (subst (λ o. In op (ops_of o)) q i)
]

module _ {S : Type 0} (apply : S → WalOp → Result (Unit {0}) × S) where
  -- An operation that is handed on after a transaction is one of before or one of its own.
  apply_txn-In :
      (st : ReplayState) (db : S) (txn : ℕ) (ops : List WalOp) (op : WalOp)
      → In op ((apply_txn apply st db txn ops).0).committed_ops
      → In op st.committed_ops ⊎ In op ops
  apply_txn-In st db txn [] op i = inl i
  apply_txn-In st db txn (o ∷ ops) op i = go (apply_ops apply db (o ∷ ops)).0 i
    where
      go :
          (success : Bool)
          → In op (finish_txn st txn (o ∷ ops) success).committed_ops
          → In op st.committed_ops ⊎ In op (o ∷ ops)
      go true j = In-append-cases op st.committed_ops (o ∷ ops) j
      go false j = inl j

  -- The state after a record, from its pending operations and those that were handed on.
  rebuilt :
      (st : ReplayState) (pending : HashMap ℕ (List WalOp)) (ops log : List WalOp)
      → st.pending ≡ pending
      → st.committed_ops ≡ ops
      → ((t : ℕ) (op : WalOp) → In op (ops_of (HashMap.get pending t)) → op.txn_id ≡ t)
      → ((op : WalOp) → In op ops → has_commit op.txn_id log ≡ true)
      → IsAtomic st log
  rebuilt st pending ops log p q f c = record {
    filed = λ t op i. f t op (subst (λ m. In op (ops_of (HashMap.get m t))) p i);
    committed = λ op i. c op (subst (In op) q i);
  }

  pushed_ops : ReplayState → WalOp → List WalOp
  pushed_ops st op = ops_of (HashMap.get st.pending op.txn_id) ++ (op ∷ [])

  push-IsAtomic :
      (st r : ReplayState) (before : List WalOp) (op : WalOp)
      → r.pending ≡ HashMap.insert st.pending op.txn_id (pushed_ops st op)
      → r.committed_ops ≡ st.committed_ops
      → IsAtomic st before
      → IsAtomic r (before ++ (op ∷ []))
  unfolding pushed_ops
  push-IsAtomic st r before op p q a =
      rebuilt r (HashMap.insert st.pending op.txn_id (pushed_ops st op)) st.committed_ops
        (before ++ (op ∷ [])) p q (filed-insert st op.txn_id (pushed_ops st op) a.filed own)
        (λ o i. later o.txn_id before op (a.committed o i))
    where
      own : (o : WalOp) → In o (pushed_ops st op) → o.txn_id ≡ op.txn_id
      own o i = elim (In-append-cases o (ops_of (HashMap.get st.pending op.txn_id)) (op ∷ []) i) [
        | inl j ↦ a.filed op.txn_id o j
        | inr j ↦ elim j [ inl e ↦ ap (λ x. x.txn_id) e | inr k ↦ absurd k ]
      ]

  replay_op-IsAtomic :
      (st : ReplayState) (db : S) (before : List WalOp) (op : WalOp) (k : OpType)
      → op.op_type ≡ k
      → IsAtomic st before
      → IsAtomic (replay_op apply st db op).0 (before ++ (op ∷ []))
  unfolding replay_op pushed_ops
  replay_op-IsAtomic st db before op insert_op e a =
      push-IsAtomic st (replay_op apply st db op).0 before op (ground arith) (ground arith) a
  replay_op-IsAtomic st db before op delete_op e a =
      push-IsAtomic st (replay_op apply st db op).0 before op (ground arith) (ground arith) a
  replay_op-IsAtomic st db before op update_op e a =
      push-IsAtomic st (replay_op apply st db op).0 before op (ground arith) (ground arith) a
  replay_op-IsAtomic st db before op begin_op e a =
      let ops = ops_of (HashMap.get st.pending op.txn_id) in
      rebuilt (replay_op apply st db op).0 (HashMap.insert st.pending op.txn_id ops)
        st.committed_ops (before ++ (op ∷ [])) (ground arith) (ground arith)
        (filed-insert st op.txn_id ops a.filed (a.filed op.txn_id))
        (λ o i. later o.txn_id before op (a.committed o i))
  replay_op-IsAtomic st db before op commit_op e a =
      let st' = note_commit st op in
      let ops = ops_of (HashMap.get st.pending op.txn_id) in
      let r = (apply_txn apply st' db op.txn_id ops).0 in
      let p : r.pending ≡ HashMap.remove st.pending op.txn_id =
        apply_txn-pending apply st' db op.txn_id ops ∙ note_commit-pending apply st op in
      let c : has_commit op.txn_id (before ++ (op ∷ [])) ≡ true =
        ground
          (arith, has_commit-append op.txn_id before op, nat_eq.equals_iff op.txn_id op.txn_id) in
      rebuilt (replay_op apply st db op).0 (HashMap.remove st.pending op.txn_id) r.committed_ops
        (before ++ (op ∷ [])) (ground (arith, p)) (ground arith) (filed-remove st op.txn_id a.filed)
        (λ o i. elim (apply_txn-In st' db op.txn_id ops o i) [
          | inl j ↦
              later o.txn_id before op
                (a.committed o (subst (In o) (note_commit-committed_ops apply st op) j))
          | inr j ↦ ap (λ t. has_commit t (before ++ (op ∷ []))) (a.filed op.txn_id o j) ∙ c
        ])
  replay_op-IsAtomic st db before op rollback_op e a =
      rebuilt (replay_op apply st db op).0 (HashMap.remove st.pending op.txn_id) st.committed_ops
        (before ++ (op ∷ [])) (ground arith) (ground arith) (filed-remove st op.txn_id a.filed)
        (λ o i. later o.txn_id before op (a.committed o i))
  replay_op-IsAtomic st db before op checkpoint_op e a =
      rebuilt (replay_op apply st db op).0 st.pending st.committed_ops (before ++ (op ∷ []))
        (ground arith) (ground arith) a.filed (λ o i. later o.txn_id before op (a.committed o i))
  replay_op-IsAtomic st db before op compaction_op e a =
      rebuilt (replay_op apply st db op).0 st.pending st.committed_ops (before ++ (op ∷ []))
        (ground arith) (ground arith) a.filed (λ o i. later o.txn_id before op (a.committed o i))

  append_one : (a b : List WalOp) (x : WalOp) → (a ++ (x ∷ [])) ++ b ≡ a ++ (x ∷ b)
  append_one [] b x = refl
  append_one (y ∷ a) b x = ap (◌∷◌ y) (append_one a b x)

  append_none : (a : List WalOp) → a ≡ a ++ []
  append_none [] = refl
  append_none (x ∷ a) = ap (◌∷◌ x) (append_none a)

  replay_each-IsAtomic :
      (log : List WalOp) (st : ReplayState) (db : S) (before : List WalOp)
      → IsAtomic st before
      → IsAtomic (replay_each apply st db log).0 (before ++ log)
  unfolding replay_each
  replay_each-IsAtomic [] st db before a = subst (IsAtomic st) (append_none before) a
  replay_each-IsAtomic (op ∷ log) st db before a =
      let next = replay_op apply st db op in
      subst (IsAtomic (replay_each apply next.0 next.1 log).0) (append_one before log op) (
        replay_each-IsAtomic log next.0 next.1 (before ++ (op ∷ []))
          (replay_op-IsAtomic st db before op op.op_type refl a))

  -- Whether operations fail to apply or not, the replay hands on no operation of a transaction that
  -- the log has no commit record of.
  pub replay_committed_ops-has_commit :
      (db : S) (log : List WalOp) (op : WalOp)
      → In op ((replay_committed_ops apply db log).0).committed_ops
      → has_commit op.txn_id log ≡ true
  unfolding replay_committed_ops
  replay_committed_ops-has_commit db log op i =
      (replay_each-IsAtomic log initial db []
          (record { filed = λ t o j. absurd j; committed = λ o j. absurd j })).committed
        op i
