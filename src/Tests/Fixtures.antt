-- ===== src/Tests/Fixtures.antt =====
-- The values that the tests share: a checksum, records of the log and a manifest.
use seerdb.Base.{ℕ, ◌+◌, ◌%◌, refl, List, [], ◌∷◌, replicate, All, arith, u32_mod}
use seerdb.Storage.Format.{Crc32c, IsDatabaseId}
use seerdb.Storage.Format.Manifest
use seerdb.Storage.Format.Manifest.{Manifest}
use seerdb.Recovery.Record.{WalRecord, put_v2, delete_v2}
use seerdb.Recovery.Record.RoundTrip.{IsEncodable}

abbrev pub byte_sum : List ℕ → ℕ
byte_sum [] = 0
byte_sum (b ∷ bs) = b + byte_sum bs

-- A stand-in for CRC-32C: the sum of the bytes.
abbrev pub crc : Crc32c
crc = record { checksum = λ bytes. byte_sum bytes % u32_mod; checksum-lt = λ bytes. omega arith }

-- `put(b"\x07", b"\x09")`
abbrev pub put_record : WalRecord
put_record = record { record_type = put_v2; payload = 1 ∷ 0 ∷ 0 ∷ 0 ∷ 7 ∷ 1 ∷ 0 ∷ 0 ∷ 0 ∷ 9 ∷ [] }

-- `delete(b"\x07")`
abbrev pub delete_record : WalRecord
delete_record = record { record_type = delete_v2; payload = 1 ∷ 0 ∷ 0 ∷ 0 ∷ 7 ∷ [] }

abbrev pub two_records : List WalRecord
two_records = put_record ∷ delete_record ∷ []

pub put_record-IsEncodable : IsEncodable put_record
put_record-IsEncodable = record { bytes = ground arith; fits = omega arith }

pub delete_record-IsEncodable : IsEncodable delete_record
delete_record-IsEncodable = record { bytes = ground arith; fits = omega arith }

pub two_records-IsEncodable : All IsEncodable two_records
two_records-IsEncodable = (put_record-IsEncodable, (delete_record-IsEncodable, tt))

abbrev pub a_database_id : List ℕ
a_database_id = replicate 16 5

pub a_database_id-IsDatabaseId : IsDatabaseId a_database_id
a_database_id-IsDatabaseId = record { size = refl; bytes = ground arith }

abbrev pub a_manifest : Manifest
a_manifest = record {
  database_id = a_database_id;
  history_id = 11;
  generation_id = 3;
  commit_id = 4;
  page_size = 4096;
  root_page_id = 2;
  pmt_checkpoint_id = 6;
  wal_segment = 0;
  wal_offset = 0;
  mutation_count = 1;
  digest = 99;
  format_version = 2;
}

pub a_manifest-InRange : Manifest.InRange a_manifest
a_manifest-InRange = record {
  database_id = a_database_id-IsDatabaseId;
  history_id = omega arith;
  generation_id = omega arith;
  commit_id = omega arith;
  page_size = omega arith;
  root_page_id = omega arith;
  pmt_checkpoint_id = omega arith;
  wal_segment = omega arith;
  wal_offset = omega arith;
  mutation_count = omega arith;
  digest = omega arith;
}
