-- ===== src/Mvcc/TxnMeta.antt =====
-- src/mvcc/visibility.rs: what is kept in memory of a transaction.
use rockduck.Prelude.{nat_eq, list_eq, ℕ, Bool, false, Option, none, some, List, [], Bytes, elem}
use rockduck.Std.HashSet

abbrev pub TxnId : Type 0
TxnId = ℕ

pub data TxnStatus : Type 0 where
  active committed aborted : TxnStatus

pub record TxnMeta : Type 0 where
  pub begin_ts : ℕ
  pub commit_ts : Option ℕ
  pub status : TxnStatus
  pub read_keys : List Bytes
  pub written_keys : List Bytes
  pub is_recovered : Bool

abbrev pub new : ℕ → TxnMeta
new begin_ts = record {
  begin_ts = begin_ts;
  commit_ts = none;
  status = active;
  read_keys = [];
  written_keys = [];
  is_recovered = false;
}

unfoldable pub record_read : TxnMeta → Bytes → TxnMeta
record_read m key = record m { read_keys = HashSet.insert m.read_keys key }

unfoldable pub record_write : TxnMeta → Bytes → TxnMeta
record_write m key = record m { written_keys = HashSet.insert m.written_keys key }

unfoldable pub commit : TxnMeta → ℕ → TxnMeta
commit m commit_ts = record m { status = committed; commit_ts = some commit_ts }

unfoldable pub has_read_key : TxnMeta → Bytes → Bool
has_read_key m key = elem key m.read_keys

unfoldable pub has_written_key : TxnMeta → Bytes → Bool
has_written_key m key = elem key m.written_keys
