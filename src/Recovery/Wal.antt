-- ===== src/Recovery/Wal.antt =====
-- recovery/wal.rs: the buffered log writer.
-- The counters are `u64` and wrap; a `Write` is a parameter, since the caller chooses it.
pub mod Flush
use seerdb.Base.{
  ℕ, ◌+◌, ◌%◌, ◌≡◌, Bool, true, false, List, [], ◌∷◌, ◌++◌, length, u64_mod, if◌then◌else◌,
}
use seerdb.Storage.Format.{Crc32c}
use seerdb.Recovery.Record.{WalRecord, to_bytes}

pub data SyncPolicy : Type 0 where
  sync_all f_data_sync none : SyncPolicy

pub record WalManager : Type 0 where
  pub buffer : List ℕ
  pub sync_policy : SyncPolicy
  pub bytes_written : ℕ
  pub records_written : ℕ

unfoldable pub new : SyncPolicy → WalManager
new sync_policy = record {
  buffer = [];
  sync_policy = sync_policy;
  bytes_written = 0;
  records_written = 0;
}

-- What `std::io::Write` promises of a byte sink: a `write_all` that succeeds has accepted all its
-- bytes, which the sink may buffer, and a `flush` that succeeds has delivered all that was accepted to
-- the file. After a failure nothing is known.
pub record Writer (W : Type 0) : Type 0 where
  pub accepted : W → List ℕ
  pub delivered : W → List ℕ
  pub write_all : List ℕ → W → W × Bool
  pub flush : W → W × Bool
  pub accepted-write_all :
      (bytes : List ℕ) (w : W)
      → (write_all bytes w).1 ≡ true
      → accepted (write_all bytes w).0 ≡ accepted w ++ bytes
  pub accepted-flush : (w : W) → (flush w).1 ≡ true → accepted (flush w).0 ≡ accepted w
  pub delivered-flush : (w : W) → (flush w).1 ≡ true → delivered (flush w).0 ≡ accepted w

unfoldable pub append : Crc32c → WalManager → WalRecord → WalManager
append crc m r =
    let bytes = to_bytes crc r in
    record m {
      buffer = m.buffer ++ bytes;
      bytes_written = (m.bytes_written + length bytes) % u64_mod;
      records_written = (m.records_written + 1) % u64_mod;
    }

-- A call of `append` for each record.
unfoldable pub append_all : Crc32c → WalManager → List WalRecord → WalManager
append_all crc m [] = m
append_all crc m (r ∷ rs) = append_all crc (append crc m r) rs

abbrev is_empty : List ℕ → Bool
is_empty [] = true
is_empty (b ∷ bs) = false

-- `writer.write_all(&self.buffer)?; writer.flush()?; self.buffer.clear()`: the manager, the writer
-- and whether the call returned `Ok`.
unfoldable pub flush : {W : Type 0} → Writer W → WalManager → W → WalManager × W × Bool
flush writer m w =
    if is_empty m.buffer
    then (m, w, true)
    else let (written, wrote) = writer.write_all m.buffer w in
      let (flushed, done) = writer.flush written in
      if wrote
      then (if done then (record m { buffer = [] }, flushed, true) else (m, flushed, false))
      else (m, written, false)
