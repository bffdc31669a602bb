-- ===== src/Cdc/Log.antt =====
-- src/cdc/log.rs: the bounded buffer of captured changes.
pub mod Bound
use rockduck.Prelude.{
  ℕ, ◌+◌, Bool, Option, List, [], ◌∷◌, ◌++◌, Bytes, Str, length, leb, if◌then◌else◌,
}

pub data CdcOpType : Type 0 where
  cdc_insert cdc_update cdc_delete : CdcOpType

pub record CdcLogEntry : Type 0 where
  pub op : CdcOpType
  pub table : Str
  pub seg_id : Str
  pub pk : Bytes
  pub before : List (Str × Bytes)
  pub after : List (Str × Bytes)
  pub txn_id : ℕ
  pub ts : ℕ

pub record CdcLogBuffer : Type 0 where
  pub entries : List CdcLogEntry
  pub max_size : ℕ
  pub dropped_count : ℕ

pub data PushResult : Type 0 where
  pushed : PushResult
  buffer_full : (dropped : ℕ) → PushResult

unfoldable pub new_buffer : ℕ → CdcLogBuffer
new_buffer max_size = record { entries = []; max_size = max_size; dropped_count = 0 }

unfoldable pub push : CdcLogBuffer → CdcLogEntry → PushResult × CdcLogBuffer
push b entry =
    if leb b.max_size (length b.entries)
    then (buffer_full (b.dropped_count + 1), record b { dropped_count = b.dropped_count + 1 })
    else (pushed, record b { entries = b.entries ++ (entry ∷ []) })

unfoldable pub clear : CdcLogBuffer → CdcLogBuffer
clear b = record b { entries = [] }
