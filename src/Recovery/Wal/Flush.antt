-- ===== src/Recovery/Wal/Flush.antt =====
-- What reaches the log file through the buffered writer.
use seerdb.Base.{
  ℕ, ◌+◌, ◌%◌, ◌≡◌, refl, sym, ap, ◌∙◌, true, false, List, [], ◌∷◌, ◌++◌, All, All-append, length,
  length-append, append-nil, append_assoc, arith, ok, u64_mod, ◌⊎◌, inl, inr,
}
use seerdb.Storage.Format.{Crc32c}
use seerdb.Recovery.Record.{WalRecord, complete, to_bytes, encode_all}
use seerdb.Recovery.Record.RoundTrip.{IsEncodable, encode_all-append}
use seerdb.Recovery.Parse.{parse_records_with_status}
use seerdb.Recovery.Parse.Complete.{parse-encode_all_whole}
use seerdb.Recovery.Wal.{WalManager, Writer, append, append_all, flush, is_empty}

pub buffer-append_all :
    (crc : Crc32c) (m : WalManager) (rs : List WalRecord)
    → (append_all crc m rs).buffer ≡ m.buffer ++ encode_all crc rs
unfolding append_all append encode_all
buffer-append_all crc m [] = rw append-nil
buffer-append_all crc m (r ∷ rs) =
    buffer-append_all crc (append crc m r) rs
    ∙ append_assoc m.buffer (to_bytes crc r) (encode_all crc rs)

-- The counters of the appended records and of their bytes.
pub append_all_counts :
    (crc : Crc32c) (m : WalManager) (rs : List WalRecord)
    → ((append_all crc m rs).bytes_written % u64_mod
        ≡ (m.bytes_written + length (encode_all crc rs)) % u64_mod)
      × ((append_all crc m rs).records_written % u64_mod
          ≡ (m.records_written + length rs) % u64_mod)
unfolding append_all append encode_all
append_all_counts crc m [] = omega arith
append_all_counts crc m (r ∷ rs) =
    let rest = append_all_counts crc (append crc m r) rs in
    omega (arith, rest.0, rest.1, length-append (to_bytes crc r) (encode_all crc rs))

is_empty→nil : (bs : List ℕ) → is_empty bs ≡ true → bs ≡ []
is_empty→nil [] e = refl
is_empty→nil (b ∷ bs) e = cc

-- The file holds all that the writer had accepted, and the buffer behind it.
abbrev pub IsDelivered : {W : Type 0} → Writer W → WalManager → W → W → Type 0
IsDelivered writer m w w' =
    (writer.delivered w' ≡ writer.accepted w ++ m.buffer)
    × (writer.accepted w' ≡ writer.accepted w ++ m.buffer)

-- One of the two calls of the writer has failed: the write, or the flush behind it.
abbrev pub HasFailed : {W : Type 0} → Writer W → WalManager → W → Type 0
HasFailed writer m w =
    ((writer.write_all m.buffer w).1 ≡ false)
    ⊎ ((writer.flush (writer.write_all m.buffer w).0).1 ≡ false)

-- A flush that returns `Ok` has emptied the buffer and changed nothing else of the manager. Unless the
-- buffer was empty, in which case the writer is not touched, the bytes that the writer had accepted and
-- the buffer behind them have been delivered to the file. A flush returns an error only when the
-- writer's `write_all` or its `flush` does, and then it keeps the whole manager, so that it can be
-- retried.
pub flush_lem :
    {W : Type 0} (writer : Writer W) (m : WalManager) (w : W)
    → (((flush writer m w).2 ≡ true)
        × ((flush writer m w).0 ≡ record m { buffer = [] })
        × (((m.buffer ≡ []) × ((flush writer m w).1 ≡ w))
            ⊎ IsDelivered writer m w (flush writer m w).1))
      ⊎ (((flush writer m w).2 ≡ false) × ((flush writer m w).0 ≡ m) × HasFailed writer m w)
unfolding flush
flush_lem writer m w = ground (
  arith,
  is_empty→nil m.buffer,
  writer.accepted-write_all m.buffer w,
  writer.accepted-flush (writer.write_all m.buffer w).0,
  writer.delivered-flush (writer.write_all m.buffer w).0,
)

-- Encodable records that are appended to an empty buffer and flushed without an error to a log of
-- encodable records, of which the writer buffers nothing, are scanned back from the file, behind those
-- that the log held.
pub parse-flush :
    {W : Type 0} (crc : Crc32c) (writer : Writer W) (m : WalManager) (w : W)
    (old rs : List WalRecord)
    → All IsEncodable old
    → All IsEncodable rs
    → m.buffer ≡ []
    → writer.accepted w ≡ encode_all crc old
    → writer.delivered w ≡ encode_all crc old
    → (flush writer (append_all crc m rs) w).2 ≡ true
    → parse_records_with_status crc (writer.delivered (flush writer (append_all crc m rs) w).1)
      ≡ ok (old ++ rs, complete)
parse-flush crc writer m w old rs hold hrs empty log file done =
    ap (parse_records_with_status crc) whole
    ∙ parse-encode_all_whole crc (old ++ rs) (All-append IsEncodable old rs hold hrs)
  where
    buffered : (append_all crc m rs).buffer ≡ encode_all crc rs
    buffered = rw (buffer-append_all crc m rs, empty) refl

    whole : writer.delivered (flush writer (append_all crc m rs) w).1 ≡ encode_all crc (old ++ rs)
    whole = elim (flush_lem writer (append_all crc m rs) w) [
      | inl (_, _, inr (written, _)) ↦
          written ∙ rw (log, buffered) (sym (encode_all-append crc old rs))
      | inl (_, _, inl (nothing, same)) ↦
          ap writer.delivered same
          ∙ file
          ∙ sym (append-nil (encode_all crc old))
          ∙ ap (λ l. encode_all crc old ++ l) (sym nothing ∙ buffered)
          ∙ sym (encode_all-append crc old rs)
      | inr (failed, _, _) ↦ cc
    ]
