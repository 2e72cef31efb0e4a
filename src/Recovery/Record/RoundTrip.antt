-- ===== src/Recovery/Record/RoundTrip.antt =====
-- A WAL record is read back from its encoding, whatever follows it.
use seerdb.Base.{
  ℕ, ◌+◌, ◌-◌, ◌%◌, ◌<◌, ◌^◌, ◌≤◌, ◌≡◌, refl, sym, ap, ◌∙◌, some, List, [], ◌∷◌, ◌++◌, append_assoc,
  length, length-append, get_or, All, IsByte, arith, to_le, from_le, slice, from_le-to_le,
  length-to_le, slice-append, u32_mod, ltb-false, ==_refl,
}
use seerdb.Storage.Format.{Crc32c}
use seerdb.Recovery.Record.{
  WalRecord, RecordType, type_code, type_of_code, to_bytes, from_bytes, encode_all,
}

-- The bytes are bytes, and the length field can hold the length.
pub record IsEncodable (r : WalRecord) : Type 0 where
  pub bytes : All IsByte r.payload
  pub fits : length r.payload + 5 < 2 ^ 32

pub type_of_code-type_code : (t : RecordType) → type_of_code (type_code t) ≡ some t
unfolding type_code type_of_code
type_of_code-type_code t = ground arith

module _ (crc : Crc32c) (r : WalRecord) where
  abbrev pub checked : List ℕ
  checked = type_code r.record_type ∷ r.payload

  abbrev pub sum : List ℕ
  sum = to_le 4 (crc.checksum checked)

  pub length-to_bytes : length (to_bytes crc r) ≡ length r.payload + 9
  unfolding to_bytes
  length-to_bytes = omega (
    arith,
    length-append (to_le 4 ((1 + length r.payload + 4) % u32_mod)) (checked ++ sum),
    length-append checked sum,
    length-to_le 4 ((1 + length r.payload + 4) % u32_mod),
    length-to_le 4 (crc.checksum checked),
  )

  module _ (rest : List ℕ) (fits : length r.payload + 5 < 2 ^ 32) where
    pub to_bytes_parts :
        to_bytes crc r ++ rest ≡ to_le 4 (length r.payload + 5) ++ (checked ++ (sum ++ rest))
    unfolding to_bytes
    to_bytes_parts =
        let len : (1 + length r.payload + 4) % u32_mod ≡ length r.payload + 5 = omega arith in
        rw len (simp append_assoc)

    pub length_field : from_le (slice (to_bytes crc r ++ rest) 0 4) ≡ length r.payload + 5
    length_field =
        rw to_bytes_parts (unfold to_le in from_le-to_le 4 (length r.payload + 5) (omega arith))

    type_field : get_or (to_bytes crc r ++ rest) 4 0 ≡ type_code r.record_type
    unfolding to_le
    type_field = rw to_bytes_parts refl

    payload_field : slice (to_bytes crc r ++ rest) 5 (length r.payload + 5) ≡ r.payload
    unfolding to_le
    payload_field = rw to_bytes_parts (
        slice-append 5 (length r.payload + 5)
          (to_le 4 (length r.payload + 5) ++ (type_code r.record_type ∷ [])) r.payload (sum ++ rest)
          refl (omega arith))

    checked_field : slice (to_bytes crc r ++ rest) 4 (length r.payload + 5) ≡ checked
    checked_field = rw to_bytes_parts (
        slice-append 4 (length r.payload + 5) (to_le 4 (length r.payload + 5)) checked (sum ++ rest)
          (sym (length-to_le 4 _)) (omega arith))

    sum_field :
        from_le (slice (to_bytes crc r ++ rest) (length r.payload + 5) (length r.payload + 9))
        ≡ crc.checksum checked
    sum_field = rw to_bytes_parts (
        ap from_le (
          rw (← append_assoc (to_le 4 (length r.payload + 5)) checked (sum ++ rest)) (
            slice-append (length r.payload + 5) (length r.payload + 9)
              (to_le 4 (length r.payload + 5) ++ checked) sum rest (unfold to_le in omega arith)
              (omega (arith, length-to_le 4 (crc.checksum checked)))))
        ∙ from_le-to_le 4 _ (crc.checksum-lt checked))

    pub length_whole : length r.payload + 9 ≤ length (to_bytes crc r ++ rest)
    length_whole = omega (arith, length-append (to_bytes crc r) rest, length-to_bytes)

    -- A record whose payload leaves the length field below 2 ^ 32 is read back from the front of the
    -- buffer, whatever follows it.
    pub wal_record_from_bytes-to_bytes :
        from_bytes crc (to_bytes crc r ++ rest) ≡ some (r, length r.payload + 9)
    unfolding from_bytes
    wal_record_from_bytes-to_bytes =
        let total : 4 + (length r.payload + 5) ≡ length r.payload + 9 = omega arith in
        let front : length r.payload + 9 - 4 ≡ length r.payload + 5 = omega arith in
        rw (
          type_field,
          type_of_code-type_code r.record_type,
          length_field,
          total,
          front,
          sum_field,
          checked_field,
          payload_field,
          ==_refl (crc.checksum checked),
          ltb-false (length (to_bytes crc r ++ rest)) 4 (omega (arith, length_whole)),
          ltb-false (length (to_bytes crc r ++ rest)) (length r.payload + 9) length_whole,
          ltb-false (length r.payload + 5) 5 (omega arith),
        )

pub encode_all-append :
    (crc : Crc32c) (rs ss : List WalRecord)
    → encode_all crc (rs ++ ss) ≡ encode_all crc rs ++ encode_all crc ss
unfolding encode_all
encode_all-append crc [] ss = refl
encode_all-append crc (r ∷ rs) ss =
    ap (λ b. to_bytes crc r ++ b) (encode_all-append crc rs ss)
    ∙ sym (append_assoc (to_bytes crc r) (encode_all crc rs) (encode_all crc ss))
