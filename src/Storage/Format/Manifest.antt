-- ===== src/Storage/Format/Manifest.antt =====
-- storage/format.rs, `Manifest`: the authoritative root descriptor and its 256-byte slot.
pub mod RoundTrip
pub mod Decode
pub mod Order
use seerdb.Base.{
  ℕ, ◌<◌, ◌^◌, ◌≡◌, not, ◌||◌, ◌&&◌, Bool, String, Option, none, some, List, [], ◌∷◌, ◌++◌, ◌==◌,
  ltb, list_eq, if◌then◌else◌, to_le, from_le, slice, zeros, all_zero, Result, ok, err, true,
}
use seerdb.Storage.Format.{Crc32c, format_version, valid_page_size, DatabaseId, IsDatabaseId}

abbrev pub manifest_slot_size : ℕ
manifest_slot_size = 256

-- b"SEERMNF1"
abbrev pub manifest_magic : List ℕ
manifest_magic = 0x53 ∷ 0x45 ∷ 0x45 ∷ 0x52 ∷ 0x4d ∷ 0x4e ∷ 0x46 ∷ 0x31 ∷ []

pub record Manifest : Type 0 where
  pub database_id : DatabaseId
  pub history_id : ℕ
  pub generation_id : ℕ
  pub commit_id : ℕ
  pub page_size : ℕ
  pub root_page_id : ℕ
  pub pmt_checkpoint_id : ℕ
  pub wal_segment : ℕ
  pub wal_offset : ℕ
  pub mutation_count : ℕ
  pub digest : ℕ
  pub format_version : ℕ

-- The widths of the fields.
pub record InRange (m : Manifest) : Type 0 where
  pub database_id : IsDatabaseId m.database_id
  pub history_id : m.history_id < 2 ^ 64
  pub generation_id : m.generation_id < 2 ^ 64
  pub commit_id : m.commit_id < 2 ^ 64
  pub page_size : m.page_size < 2 ^ 32
  pub root_page_id : m.root_page_id < 2 ^ 64
  pub pmt_checkpoint_id : m.pmt_checkpoint_id < 2 ^ 64
  pub wal_segment : m.wal_segment < 2 ^ 64
  pub wal_offset : m.wal_offset < 2 ^ 64
  pub mutation_count : m.mutation_count < 2 ^ 64
  pub digest : m.digest < 2 ^ 32

-- What a reader accepts: the current version and a valid page size.
pub record IsCurrent (m : Manifest) : Type 0 where
  pub version : m.format_version ≡ format_version
  pub page_size : valid_page_size m.page_size ≡ true

-- Bytes 0 to 100 of the slot.
unfoldable pub fields : Manifest → List ℕ
fields m =
    manifest_magic
    ++ (to_le 4 m.format_version
        ++ (to_le 4 m.page_size
            ++ (m.database_id
                ++ (to_le 8 m.history_id
                    ++ (to_le 8 m.generation_id
                        ++ (to_le 8 m.commit_id
                            ++ (to_le 8 m.root_page_id
                                ++ (to_le 8 m.pmt_checkpoint_id
                                    ++ (to_le 8 m.wal_segment
                                        ++ (to_le 8 m.wal_offset
                                            ++ (to_le 8 m.mutation_count
                                                ++ to_le 4 m.digest)))))))))))

-- Bytes 0 to 252, which the checksum covers; those from 100 on are reserved.
unfoldable pub body : Manifest → List ℕ
body m = fields m ++ zeros 152

-- The descriptor that stands in a slot.
unfoldable pub read : List ℕ → Manifest
read bytes = record {
  database_id = slice bytes 16 32;
  history_id = from_le (slice bytes 32 40);
  generation_id = from_le (slice bytes 40 48);
  commit_id = from_le (slice bytes 48 56);
  page_size = from_le (slice bytes 12 16);
  root_page_id = from_le (slice bytes 56 64);
  pmt_checkpoint_id = from_le (slice bytes 64 72);
  wal_segment = from_le (slice bytes 72 80);
  wal_offset = from_le (slice bytes 80 88);
  mutation_count = from_le (slice bytes 88 96);
  digest = from_le (slice bytes 96 100);
  format_version = from_le (slice bytes 8 12);
}

module _ (crc : Crc32c) where
  unfoldable pub to_bytes : Manifest → List ℕ
  to_bytes m = body m ++ to_le 4 (crc.checksum (body m))

  -- The argument is a 256-byte array, so the `try_into` conversions of its parts cannot fail.
  unfoldable pub from_bytes : List ℕ → Result String (Option Manifest)
  from_bytes bytes =
      let manifest = read bytes in
      if all_zero bytes
      then ok none
      else if not (list_eq (slice bytes 0 8) manifest_magic)
      then err "invalid manifest magic"
      else if not (from_le (slice bytes 252 256) == crc.checksum (slice bytes 0 252))
      then err "manifest checksum mismatch"
      else if not (manifest.format_version == format_version)
          || not (valid_page_size manifest.page_size)
      then err "unsupported manifest format"
      else ok (some manifest)

unfoldable pub is_newer_than : Manifest → Manifest → Bool
is_newer_than m other =
    ltb other.generation_id m.generation_id
    || (m.generation_id == other.generation_id && ltb other.commit_id m.commit_id)
