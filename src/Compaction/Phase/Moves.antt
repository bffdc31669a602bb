-- ===== src/Compaction/Phase/Moves.antt =====
-- src/compaction/phase.rs: the moves of the machine as a relation, and its calls as sequences.
use mathlib.Core.Path.{subst}
use rockduck.Prelude.{
  ℕ, ◌≡◌, ◌≢◌, ◌∙◌, Option, Option-cases, Bytes, ◌⊎◌, inl, inr, refl, sym, ap, true, none, some,
  List, [], ◌∷◌, Str, arith, Bool-cases,
}
use rockduck.Compaction.Phase.{
  CompactionState, restore_from_db, CompactionPhase, idle, prepare, commit, cleanup, is_idle,
  Machine, machine_is_idle, begin_compaction, commit_phase, cleanup_phase_with_callback, finish,
  commit_from, cleanup_from,
}

-- The phase of a machine; one that holds no state is idle.
unfoldable pub phase_of : Machine → CompactionPhase
phase_of none = idle
phase_of (some s) = s.phase

-- What a compaction may do next: the segments stay the same from its start to its end, and it can
-- be given up in every phase.
pub data Move : CompactionPhase → CompactionPhase → Type 0 where
  start : (new : Str) (old : List Str) → Move idle (prepare new old)
  switch : (new : Str) (old : List Str) → Move (prepare new old) (commit new old)
  clean : (new : Str) (old : List Str) → Move (commit new old) (cleanup new old)
  leave : (p : CompactionPhase) → Move p idle

pub data Call : Type 0 where
  begin_call : (txn_id : ℕ) (new : Str) (old : List Str) (now : ℕ) → Call
  commit_call cleanup_call finish_call : Call
  restore_call : (data_bytes : Bytes) → Call

idle_is_idle : is_idle idle ≡ true
unfolding is_idle
idle_is_idle = refl

is_idle→≡ : (p : CompactionPhase) → is_idle p ≡ true → p ≡ idle
unfolding is_idle
is_idle→≡ idle h = refl
is_idle→≡ (prepare new old) h = absurd (ground arith)
is_idle→≡ (commit new old) h = absurd (ground arith)
is_idle→≡ (cleanup new old) h = absurd (ground arith)

module _ (deserialize : Bytes → Option CompactionState) where
  -- A call: the machine after it, and the segments that it has cleaned.
  unfoldable pub step : Machine → Call → Machine × List Str
  step m (begin_call txn_id new old now) = ((begin_compaction m txn_id new old now).1, [])
  step m commit_call = ((commit_phase m).1, [])
  step m cleanup_call = let (r, m', cleaned) = cleanup_phase_with_callback m in (m', cleaned)
  step m finish_call = ((finish m).1, [])
  step m (restore_call data_bytes) = (restore_from_db deserialize m data_bytes, [])

  -- What a call may do to a machine. A restore puts an unfinished compaction in the machine's place if
  -- the bytes hold one, and else leaves the machine; every other call leaves the phase or makes a move.
  abbrev pub Outcome : Machine → Call → Machine → Type 0
  Outcome m (restore_call data_bytes) m' =
      ((s : CompactionState) × (deserialize data_bytes ≡ some s) × (s.phase ≢ idle) × (m' ≡ some s))
      ⊎ (((s : CompactionState) → deserialize data_bytes ≡ some s → s.phase ≡ idle) × (m' ≡ m))
  Outcome m _ m' = (phase_of m' ≡ phase_of m) ⊎ Move (phase_of m) (phase_of m')

  restore-Outcome :
      (m : Machine) (data_bytes : Bytes)
      → Outcome m (restore_call data_bytes) (restore_from_db deserialize m data_bytes)
  unfolding restore_from_db
  restore-Outcome m data_bytes = elim (Option-cases (deserialize data_bytes)) [
    | inl e ↦ rw (e, restore_from_db) (inr ((λ s h. absurd (ground arith)), refl))
    | inr (s, e) ↦ elim (Bool-cases (is_idle s.phase)) [
      | inl k ↦ inr (
        λ t h. let q : s ≡ t = ground arith in subst (λ z. z.phase ≡ idle) q (is_idle→≡ s.phase k),
        rw (e, k, restore_from_db) refl,
      )
      | inr k ↦ inl (
        s,
        e,
        (λ q.
            let h : is_idle s.phase ≡ true = ap is_idle q ∙ idle_is_idle in absurd (ground arith)),
        rw (e, k, restore_from_db) refl,
      )
    ]
  ]

  -- Every call on the machine, restores included, has one of the outcomes that it may have.
  pub step-Outcome : (m : Machine) (c : Call) → Outcome m c (step m c).0
  unfolding step phase_of begin_compaction machine_is_idle commit_phase commit_from
      cleanup_phase_with_callback cleanup_from finish
  step-Outcome none (begin_call txn_id new old now) = inr (start new old)
  step-Outcome (some s) (begin_call txn_id new old now) = elim (Bool-cases (is_idle s.phase)) [
    | inl e ↦
        rw e
          (inr (subst (λ p. Move p (prepare new old)) (sym (is_idle→≡ s.phase e)) (start new old)))
    | inr e ↦ rw e (inl refl)
  ]
  step-Outcome none commit_call = inl refl
  step-Outcome (some s) commit_call = go s.phase refl
    where
      go :
          (p : CompactionPhase)
          → s.phase ≡ p
          → (phase_of (commit_from s p).1 ≡ p) ⊎ Move p (phase_of (commit_from s p).1)
      go idle e = inl e
      go (prepare new old) e = inr (switch new old)
      go (commit new old) e = inl e
      go (cleanup new old) e = inl e
  step-Outcome none cleanup_call = inl refl
  step-Outcome (some s) cleanup_call = go s.phase refl
    where
      go :
          (p : CompactionPhase)
          → s.phase ≡ p
          → (phase_of (cleanup_from s p).1 ≡ p) ⊎ Move p (phase_of (cleanup_from s p).1)
      go idle e = inl e
      go (prepare new old) e = inl e
      go (commit new old) e = inr (clean new old)
      go (cleanup new old) e = inl e
  step-Outcome none finish_call = inl refl
  step-Outcome (some s) finish_call = inr (leave s.phase)
  step-Outcome none (restore_call data_bytes) = restore-Outcome none data_bytes
  step-Outcome (some s) (restore_call data_bytes) = restore-Outcome (some s) data_bytes

  -- The callback runs once for each old segment and in their order, and only on a compaction that has
  -- been switched to its new segment.
  pub cleanup-old_segments :
      (m : Machine) (id : Str) (ids : List Str)
      → (step m cleanup_call).1 ≡ id ∷ ids
      → (new : Str) × (phase_of m ≡ commit new (id ∷ ids))
        × (phase_of (step m cleanup_call).0 ≡ cleanup new (id ∷ ids))
  unfolding step phase_of cleanup_phase_with_callback cleanup_from
  cleanup-old_segments none id ids h = absurd (ground arith)
  cleanup-old_segments (some s) id ids h = go s.phase h
    where
      go :
          (p : CompactionPhase)
          → (cleanup_from s p).2 ≡ id ∷ ids
          → (new : Str) × (p ≡ commit new (id ∷ ids))
            × (phase_of (cleanup_from s p).1 ≡ cleanup new (id ∷ ids))
      go idle e = absurd (ground arith)
      go (prepare new old) e = absurd (ground arith)
      go (commit new old) e = (new, ap (commit new) e, ap (cleanup new) e)
      go (cleanup new old) e = absurd (ground arith)
