-- ===== src/Tests/Recovery.antt =====
-- Tests of recovery/: the log's records, scan and writer.
use seerdb.Base.{
  ℕ, ◌≡◌, ◌⊎◌, refl, sym, append_assoc, append-nil, true, false, some, List, [], ◌∷◌, ◌++◌, take,
  zeros, arith, ok, to_le, from_le,
}
use seerdb.Recovery.Record.{
  WalRecord, ParseStatus, complete, incomplete, corrupt, to_bytes, from_bytes, encode_all,
  type_code, type_of_code, new_put,
}
use seerdb.Recovery.Record.RoundTrip.{wal_record_from_bytes-to_bytes, IsEncodable}
use seerdb.Recovery.Record.Decode.{wal_record_from_bytes_sound}
use seerdb.Recovery.Parse.{parse_round, parse_loop, parse_records_with_status}
use seerdb.Recovery.Parse.Complete.{parse-encode_all-zeros}
use seerdb.Recovery.Parse.Crash.{parse-take-encode_all, whole_records, cut_status}
use seerdb.Recovery.Parse.Sound.{Reads, parse_records_sound}
use seerdb.Recovery.Wal
use seerdb.Recovery.Wal.{WalManager, Writer, append_all, flush, sync_all}
use seerdb.Recovery.Wal.Flush.{IsDelivered, HasFailed, flush_lem, parse-flush}
use seerdb.Tests.Fixtures.{
  crc, put_record, delete_record, two_records, put_record-IsEncodable, delete_record-IsEncodable,
  two_records-IsEncodable,
}

-- `put(b"\x07", b"\x09")` and its bytes.
new_put_test : new_put (7 ∷ []) (9 ∷ []) ≡ put_record
unfolding new_put to_le
new_put_test = refl

to_bytes_test :
    to_bytes crc delete_record ≡ 10 ∷ 0 ∷ 0 ∷ 0 ∷ 12 ∷ 1 ∷ 0 ∷ 0 ∷ 0 ∷ 7 ∷ 20 ∷ 0 ∷ 0 ∷ 0 ∷ []
unfolding to_bytes type_code to_le
to_bytes_test = refl

-- The bytes of `delete_record`, written out.
abbrev delete_bytes : List ℕ
delete_bytes = 10 ∷ 0 ∷ 0 ∷ 0 ∷ 12 ∷ 1 ∷ 0 ∷ 0 ∷ 0 ∷ 7 ∷ 20 ∷ 0 ∷ 0 ∷ 0 ∷ []

from_bytes_test : from_bytes crc delete_bytes ≡ some (delete_record, 14)
unfolding from_bytes type_of_code from_le
from_bytes_test = refl

-- One flipped byte in a complete record is corruption, a missing one is a torn tail.
corrupt_test :
    parse_records_with_status crc (10 ∷ 0 ∷ 0 ∷ 0 ∷ 12 ∷ 1 ∷ 0 ∷ 0 ∷ 0 ∷ 6 ∷ 20 ∷ 0 ∷ 0 ∷ 0 ∷ [])
    ≡ ok ([], corrupt)
unfolding parse_records_with_status parse_loop parse_round from_bytes type_of_code from_le
corrupt_test = refl

torn_test : parse_records_with_status crc (take 9 delete_bytes) ≡ ok ([], incomplete)
unfolding parse_records_with_status parse_loop parse_round from_le
torn_test = refl

wal_record_from_bytes-to_bytes_example :
    from_bytes crc (to_bytes crc put_record ++ (1 ∷ 2 ∷ [])) ≡ some (put_record, 19)
wal_record_from_bytes-to_bytes_example =
    wal_record_from_bytes-to_bytes crc put_record (1 ∷ 2 ∷ []) put_record-IsEncodable.fits

wal_record_from_bytes_sound_example :
    IsEncodable delete_record
    × (◌≡◌ {A = ℕ} 14 14)
    × (delete_bytes ≡ to_bytes crc delete_record ++ [])
wal_record_from_bytes_sound_example =
    wal_record_from_bytes_sound crc delete_bytes (ground arith) from_bytes_test

-- A cut inside the second record.
parse-take-encode_all_example :
    parse_records_with_status crc (take 25 (encode_all crc two_records))
    ≡ ok (whole_records crc 25 two_records, cut_status crc 25 two_records)
parse-take-encode_all_example = parse-take-encode_all crc 25 two_records two_records-IsEncodable

cut_test :
    (whole_records crc 25 two_records ≡ put_record ∷ [])
    × (cut_status crc 25 two_records ≡ incomplete)
unfolding whole_records cut_status to_bytes to_le
cut_test = (refl, refl)

parse_records_sound_example :
    (rs : List WalRecord) × (status : ParseStatus) × (parse_records_with_status crc
        (delete_bytes ++ (5 ∷ []))
      ≡ ok (rs, status))
    × Reads crc (delete_bytes ++ (5 ∷ [])) rs status
parse_records_sound_example = parse_records_sound crc (delete_bytes ++ (5 ∷ [])) (ground arith)

parse-encode_all-zeros_example :
    parse_records_with_status crc (encode_all crc two_records ++ zeros 4096)
    ≡ ok (two_records, incomplete)
parse-encode_all-zeros_example =
    parse-encode_all-zeros crc two_records 4096 two_records-IsEncodable (omega arith)

-- A file behind a buffer: the bytes of the file, and those that are not flushed yet.
abbrev buffered : Writer (List ℕ × List ℕ)
buffered = record {
  accepted = λ w. w.0 ++ w.1;
  delivered = λ w. w.0;
  write_all = λ bytes w. ((w.0, w.1 ++ bytes), true);
  flush = λ w. ((w.0 ++ w.1, []), true);
  accepted-write_all = λ bytes w e. sym (append_assoc (w.0) (w.1) bytes);
  accepted-flush = λ w e. append-nil (w.0 ++ w.1);
  delivered-flush = λ w e. refl;
}

never_flushed : (w : List ℕ × List ℕ) (bytes : List ℕ) → false ≡ true → bytes ≡ w.0 ++ w.1
never_flushed w bytes e = cc

-- A disk that is full when the buffer is flushed.
abbrev full_disk : Writer (List ℕ × List ℕ)
full_disk = record {
  accepted = λ w. w.0 ++ w.1;
  delivered = λ w. w.0;
  write_all = λ bytes w. ((w.0, w.1 ++ bytes), true);
  flush = λ w. (w, false);
  accepted-write_all = λ bytes w e. sym (append_assoc (w.0) (w.1) bytes);
  accepted-flush = λ w e. refl;
  delivered-flush = λ w e. never_flushed w (w.0) e;
}

abbrev empty_manager : WalManager
empty_manager = record {
  buffer = [];
  sync_policy = sync_all;
  bytes_written = 0;
  records_written = 0;
}

parse-flush_example :
    parse_records_with_status crc (
      (flush buffered
        (append_all crc empty_manager (delete_record ∷ []))
        (encode_all crc (put_record ∷ []), [])).1.0)
    ≡ ok (two_records, complete)
parse-flush_example =
    parse-flush crc buffered empty_manager (encode_all crc (put_record ∷ []), []) (put_record ∷ [])
      (delete_record ∷ []) (put_record-IsEncodable, tt) (delete_record-IsEncodable, tt) refl
      (append-nil (encode_all crc (put_record ∷ []))) refl
      (unfold flush append_all Wal.append to_bytes to_le in refl)

-- A buffer of one byte.
abbrev one_byte : WalManager
one_byte = record empty_manager { buffer = 1 ∷ [] }

flush_lem_example :
    (((flush buffered one_byte (2 ∷ [], 3 ∷ [])).2 ≡ true)
      × ((flush buffered one_byte (2 ∷ [], 3 ∷ [])).0 ≡ empty_manager)
      × (((◌≡◌ {A = List ℕ} (1 ∷ []) [])
            × ((flush buffered one_byte (2 ∷ [], 3 ∷ [])).1 ≡ (2 ∷ [], 3 ∷ [])))
          ⊎ IsDelivered buffered one_byte
              (2 ∷ [], 3 ∷ [])
              (flush buffered one_byte (2 ∷ [], 3 ∷ [])).1))
    ⊎ (((flush buffered one_byte (2 ∷ [], 3 ∷ [])).2 ≡ false)
        × ((flush buffered one_byte (2 ∷ [], 3 ∷ [])).0 ≡ one_byte)
        × HasFailed buffered one_byte (2 ∷ [], 3 ∷ []))
flush_lem_example = flush_lem buffered one_byte (2 ∷ [], 3 ∷ [])

flush_test : flush buffered one_byte (2 ∷ [], 3 ∷ []) ≡ (empty_manager, (2 ∷ 3 ∷ 1 ∷ [], []), true)
unfolding flush
flush_test = refl

failed_flush_test : flush full_disk one_byte (2 ∷ [], []) ≡ (one_byte, (2 ∷ [], 1 ∷ []), false)
unfolding flush
failed_flush_test = refl
