-- ===== src/Tests/Blob.antt =====
-- Tests of blob/: the record format.
use seerdb.Base.{◌≡◌, refl, none, some, [], ◌∷◌, ◌++◌, arith, replicate, from_le}
use seerdb.Blob.Record.{BlobRecord, to_bytes, from_bytes}
use seerdb.Blob.Record.RoundTrip.{blob_record_from_bytes-to_bytes}
use seerdb.Tests.Fixtures.{crc}

abbrev a_record : BlobRecord
a_record = record { key_prefix = replicate 8 1; value = 10 ∷ 20 ∷ 30 ∷ [] }

blob_record_from_bytes-to_bytes_example :
    from_bytes crc (to_bytes crc a_record ++ (0 ∷ [])) ≡ some a_record
blob_record_from_bytes-to_bytes_example =
    blob_record_from_bytes-to_bytes crc a_record (0 ∷ []) refl (omega arith)

-- A damaged value is not returned.
damaged_test :
    from_bytes crc (replicate 8 1 ++ (3 ∷ 0 ∷ 0 ∷ 0 ∷ 10 ∷ 20 ∷ 31 ∷ 71 ∷ 0 ∷ 0 ∷ 0 ∷ [])) ≡ none
unfolding from_bytes from_le
damaged_test = refl
