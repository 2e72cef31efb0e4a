-- ===== src/Blob/Record/RoundTrip.antt =====
-- A blob record is read back from the front of a file, and only from intact bytes.
use seerdb.Base.{
  ℕ, ◌+◌, ◌-◌, ◌%◌, ◌<◌, ◌^◌, ◌≡◌, refl, sym, ap, ◌∙◌, some, List, [], ◌++◌, append_assoc, length,
  length-append, length-to_le, take-append_left, arith, slice, slice-append, from_le, to_le,
  from_le-to_le, ==_refl, ltb-false, u32_mod, checked_add,
}
use seerdb.Storage.Format.{Crc32c}
use seerdb.Blob.Record.{BlobRecord, content, to_bytes, from_bytes}

module _ (crc : Crc32c) (r : BlobRecord) (rest : List ℕ) (size : length r.key_prefix ≡ 8)
    (fits : length r.value < 2 ^ 32) where
  abbrev len_field : List ℕ
  len_field = to_le 4 (length r.value)

  abbrev sum : List ℕ
  sum = to_le 4 (crc.checksum (content r))

  content_parts : content r ≡ r.key_prefix ++ (len_field ++ r.value)
  unfolding content
  content_parts = let n : length r.value % u32_mod ≡ length r.value = omega arith in rw n

  length-content : length (content r) ≡ 12 + length r.value
  length-content =
      ap (length {A = ℕ}) content_parts
      ∙ omega (
        arith,
        length-append r.key_prefix (len_field ++ r.value),
        length-append len_field r.value,
        length-to_le 4 (length r.value),
        size,
      )

  whole : to_bytes crc r ++ rest ≡ r.key_prefix ++ (len_field ++ (r.value ++ (sum ++ rest)))
  unfolding to_bytes
  whole =
      append_assoc (content r) sum rest
      ∙ ap (λ b. b ++ (sum ++ rest)) content_parts
      ∙ append_assoc r.key_prefix (len_field ++ r.value) (sum ++ rest)
      ∙ ap (λ b. r.key_prefix ++ b) (append_assoc len_field r.value (sum ++ rest))

  length-whole : length (to_bytes crc r ++ rest) ≡ 16 + length r.value + length rest
  unfolding to_bytes
  length-whole = omega (
    arith,
    length-append (content r ++ sum) rest,
    length-append (content r) sum,
    length-content,
    length-to_le 4 (crc.checksum (content r)),
  )

  prefix_slice : slice (to_bytes crc r ++ rest) 0 8 ≡ r.key_prefix
  prefix_slice =
      ap (λ b. slice b 0 8) whole
      ∙ take-append_left 8 r.key_prefix (len_field ++ (r.value ++ (sum ++ rest))) (sym size)

  len_slice : from_le (slice (to_bytes crc r ++ rest) 8 12) ≡ length r.value
  len_slice =
      ap (λ b. from_le (slice b 8 12)) whole
      ∙ ap from_le (
          slice-append 8 12 r.key_prefix len_field (r.value ++ (sum ++ rest)) (sym size)
            (omega (arith, length-to_le 4 (length r.value))))
      ∙ from_le-to_le 4 (length r.value) fits

  value_slice : slice (to_bytes crc r ++ rest) 12 (12 + length r.value) ≡ r.value
  value_slice =
      ap (λ b. slice b 12 (12 + length r.value))
        (whole ∙ sym (append_assoc r.key_prefix len_field (r.value ++ (sum ++ rest))))
      ∙ slice-append 12 (12 + length r.value) (r.key_prefix ++ len_field) r.value (sum ++ rest)
          (omega
            (arith, length-append r.key_prefix len_field, length-to_le 4 (length r.value), size))
          refl

  sum_slice :
      from_le (slice (to_bytes crc r ++ rest) (16 + length r.value - 4) (16 + length r.value))
      ≡ crc.checksum (content r)
  unfolding to_bytes
  sum_slice =
      ap (λ b. from_le (slice b (16 + length r.value - 4) (16 + length r.value)))
        (append_assoc (content r) sum rest)
      ∙ ap from_le (
          slice-append (16 + length r.value - 4) (16 + length r.value) (content r) sum rest
            (omega (arith, length-content))
            (omega (arith, length-to_le 4 (crc.checksum (content r)))))
      ∙ from_le-to_le 4 (crc.checksum (content r)) (crc.checksum-lt (content r))

  content-slice : slice (to_bytes crc r ++ rest) 0 (16 + length r.value - 4) ≡ content r
  unfolding to_bytes
  content-slice =
      ap (λ b. slice b 0 (16 + length r.value - 4)) (append_assoc (content r) sum rest)
      ∙ slice-append 0 (16 + length r.value - 4) [] (content r) (sum ++ rest) refl
          (omega (arith, length-content))

  total_fits : checked_add 16 (length r.value) ≡ some (16 + length r.value)
  total_fits = ground arith

  -- A record with a prefix of eight bytes and a value below 4 GiB is read back from the front of a
  -- file, whatever follows it.
  pub blob_record_from_bytes-to_bytes : from_bytes crc (to_bytes crc r ++ rest) ≡ some r
  unfolding from_bytes
  blob_record_from_bytes-to_bytes =
      rw
        (
          len_slice,
          length-whole,
          ltb-false (16 + length r.value + length rest) 16 (omega arith),
          total_fits,
          length-whole,
          ltb-false (16 + length r.value + length rest) (16 + length r.value) (omega arith),
          sum_slice,
          content-slice,
          ==_refl (crc.checksum (content r)),
          prefix_slice,
          len_slice,
          value_slice,
        )
        refl
