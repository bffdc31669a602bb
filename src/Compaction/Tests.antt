-- ===== src/Compaction/Tests.antt =====
-- A compaction of two segments, from its start to its cleanup.
use rockduck.Prelude.{◌≡◌, refl, Option, some, none, Bytes, List, [], ◌∷◌, Str}
use rockduck.Compaction.Phase.{
  prepare, commit, cleanup, is_idle, restore_from_db, CompactionState, Machine,
}
use rockduck.Compaction.Phase.Moves.{Outcome, commit_call, restore_call, step, step-Outcome}

abbrev old_segments : List Str
old_segments = (1 ∷ []) ∷ (2 ∷ []) ∷ []

abbrev prepared : Machine
prepared = some (record { txn_id = 4; phase = prepare (3 ∷ []) old_segments; start_time = 100 })

abbrev switched : Machine
switched = some (record { txn_id = 4; phase = commit (3 ∷ []) old_segments; start_time = 100 })

-- Bytes of which one byte is a compaction in its last phase.
abbrev deserialize : Bytes → Option CompactionState
deserialize (b ∷ []) =
    some (record { txn_id = b; phase = cleanup (3 ∷ []) old_segments; start_time = 0 })
deserialize _ = none

step-Outcome_example :
    Outcome deserialize prepared commit_call (step deserialize prepared commit_call).0
step-Outcome_example = step-Outcome deserialize prepared commit_call

restored : (step deserialize prepared (restore_call (9 ∷ []))).0 ≡ deserialize (9 ∷ [])
unfolding step restore_from_db is_idle
restored = refl
