-- ===== src/Db/WalPayload/Limits.antt =====
-- Which validated mutations the log can hold: the record's length field counts key and value
-- together, and `validate_wal_put_lengths` bounds them one by one.
use seerdb.Base.{
  ℕ, ◌+◌, ◌%◌, ◌<◌, ◌^◌, ◌≤◌, ◌≡◌, ◌↔◌, List, ◌++◌, length, All, IsByte, All-append, arith, to_le,
  to_le-IsByte, some, ok, u32_mod,
}
use seerdb.Storage.Format.{Crc32c}
use seerdb.Recovery.Record.{WalRecord, RecordType, type_code, to_bytes, from_bytes, new_put}
use seerdb.Recovery.Record.RoundTrip.{IsEncodable, wal_record_from_bytes-to_bytes, checked, sum}
use seerdb.Recovery.Record.Decode.{wal_record_from_bytes_sound}
use seerdb.Db.WalPayload.{validate_wal_put_lengths}
use seerdb.Db.WalPayload.RoundTrip.{payload_size}

type_code-IsByte : (t : RecordType) → IsByte (type_code t)
unfolding type_code
type_code-IsByte t = ground arith

to_bytes-IsByte :
    (crc : Crc32c) (r : WalRecord) → All IsByte r.payload → All IsByte (to_bytes crc r)
unfolding to_bytes
to_bytes-IsByte crc r h =
    All-append IsByte (to_le 4 ((1 + length r.payload + 4) % u32_mod)) (checked crc r ++ sum crc r)
      (to_le-IsByte 4 _)
      (All-append IsByte (checked crc r) (sum crc r) (type_code-IsByte r.record_type, h)
        (to_le-IsByte 4 (crc.checksum (checked crc r))))

new_put-IsByte :
    (key value : List ℕ)
    → All IsByte key
    → All IsByte value
    → All IsByte (new_put key value).payload
unfolding new_put
new_put-IsByte key value hk hv =
    All-append IsByte (to_le 4 _) _ (to_le-IsByte 4 _)
      (All-append IsByte key _ hk (All-append IsByte (to_le 4 _) value (to_le-IsByte 4 _) hv))

validate-eq-ok :
    (key value : List ℕ)
    → validate_wal_put_lengths key value ≡ ok tt
    → (length key ≤ 4032) × (length value < 2 ^ 32)
unfolding validate_wal_put_lengths
validate-eq-ok key value e = ground arith

-- The record of a validated put is read back from the log exactly if key and value together leave
-- room for the 13 bytes that the length field counts with them.
pub put_readable_iff :
    (crc : Crc32c) (key value rest : List ℕ)
    → All IsByte key
    → All IsByte value
    → All IsByte rest
    → validate_wal_put_lengths key value ≡ ok tt
    → (from_bytes crc (to_bytes crc (new_put key value) ++ rest)
        ≡ some (new_put key value, length key + length value + 17))
      ↔ (length key + length value + 13 < 2 ^ 32)
put_readable_iff crc key value rest hk hv hr valid =
    let r = new_put key value in
    let (k, v) = validate-eq-ok key value valid in
    let size = payload_size key value (omega arith) v in
    let all : All IsByte (to_bytes crc r ++ rest) =
      All-append IsByte (to_bytes crc r) rest
        (to_bytes-IsByte crc r (new_put-IsByte key value hk hv)) hr in
    (
      λ e.
          let h : IsEncodable r =
            (wal_record_from_bytes_sound crc (to_bytes crc r ++ rest) all e).0 in
          omega (arith, h.fits, size),
      λ fits.
          let n : length r.payload + 9 ≡ length key + length value + 17 = omega (arith, size) in
          rw n at (wal_record_from_bytes-to_bytes crc r rest (omega (arith, size))),
    )
