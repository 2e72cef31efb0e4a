-- ===== src/Recovery/Parse.antt =====
-- recovery/record.rs, `parse_records` and `parse_records_with_status`: the scan of a log file.
-- A round of the loop works on `buf[pos..]`, which the model carries in place of `pos`.
pub mod Steps
pub mod Complete
pub mod Crash
pub mod Sound
use seerdb.Base.{
  ℕ, zero, suc, Option, none, some, List, [], ◌∷◌, ◌++◌, length, drop, ltb, ◌==◌, if◌then◌else◌,
  from_le, slice, all_zero, checked_add, Result, ok, stuck, Error, ◌>>=◌,
}
use seerdb.Storage.Format.{Crc32c}
use seerdb.Recovery.Record.{WalRecord, ParseStatus, complete, incomplete, corrupt, from_bytes}

-- How a round ends: with a `return`, or with a record and the bytes that it took.
pub data Round : Type 0 where
  finished : ParseStatus → Round
  next : WalRecord → ℕ → Round

module _ (crc : Crc32c) where
  -- The body of `while pos < buf.len()`.
  unfoldable pub parse_round : List ℕ → Round
  parse_round rest =
      let len = from_le (slice rest 0 4) in
      if ltb (length rest) 4
      then finished incomplete
      else if len == 0
      then (if all_zero rest then finished incomplete else finished corrupt)
      else if ltb len 5
      then finished corrupt
      else elim (checked_add 4 len) [
        | none ↦ finished corrupt
        | some total_len ↦
            if ltb (length rest) total_len
            then finished incomplete
            else elim (from_bytes crc rest) [
              | some (wal_record, consumed) ↦ next wal_record consumed
              | none ↦ finished corrupt
            ]
      ]

  unfoldable pub parse_loop :
      ℕ → List ℕ → List WalRecord → Result Error (List WalRecord × ParseStatus)
  parse_loop fuel [] records = ok (records, complete)
  parse_loop zero (b ∷ bs) records = stuck
  parse_loop (suc fuel) (b ∷ bs) records = elim (parse_round (b ∷ bs)) [
    | finished status ↦ ok (records, status)
    | next wal_record consumed ↦
        parse_loop fuel (drop consumed (b ∷ bs)) (records ++ (wal_record ∷ []))
  ]

  -- A round that goes on takes nine bytes at least, so `buf.len()` rounds are enough.
  unfoldable pub parse_records_with_status : List ℕ → Result Error (List WalRecord × ParseStatus)
  parse_records_with_status buf = parse_loop (length buf) buf []

  unfoldable pub parse_records : List ℕ → Result Error (List WalRecord)
  parse_records buf = do parsed ← parse_records_with_status buf; ok (parsed.0)
