-- ===== src/Blob/Record.antt =====
-- blob/record.rs: the wire format of one record of a blob file.
pub mod RoundTrip
use seerdb.Base.{
  ℕ, ◌+◌, ◌-◌, ◌%◌, not, Option, none, some, List, ◌++◌, length, take, ltb, ◌==◌, if◌then◌else◌,
  to_le, from_le, slice, checked_add, u32_mod,
}
use seerdb.Storage.Format.{Crc32c}

-- `key_prefix` is an array of eight bytes.
pub record BlobRecord : Type 0 where
  pub key_prefix : List ℕ
  pub value : List ℕ

abbrev pub overhead_size : ℕ
overhead_size = 8 + 4 + 4

unfoldable pub serialized_size : BlobRecord → ℕ
serialized_size r = overhead_size + length r.value

-- The bytes that the checksum covers.
unfoldable pub content : BlobRecord → List ℕ
content r = r.key_prefix ++ (to_le 4 (length r.value % u32_mod) ++ r.value)

module _ (crc : Crc32c) where
  unfoldable pub to_bytes : BlobRecord → List ℕ
  to_bytes r = content r ++ to_le 4 (crc.checksum (content r))

  unfoldable pub from_bytes : List ℕ → Option BlobRecord
  from_bytes buf =
      let len = from_le (slice buf 8 12) in
      if ltb (length buf) overhead_size then none else elim (checked_add overhead_size len) [
        | none ↦ none
        | some total_size ↦
            if ltb (length buf) total_size
            then none
            else if not (
                from_le (slice buf (total_size - 4) total_size)
                == crc.checksum (slice buf 0 (total_size - 4)))
            then none
            else some (record { key_prefix = slice buf 0 8; value = slice buf 12 (12 + len) })
      ]
