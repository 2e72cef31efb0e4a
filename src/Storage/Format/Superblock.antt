-- ===== src/Storage/Format/Superblock.antt =====
-- storage/format.rs, `Superblock`: the fixed-size sector that names a database.
pub mod RoundTrip
use seerdb.Base.{
  ℕ, ◌<◌, ◌^◌, ◌≡◌, not, ◌||◌, Option, none, some, List, [], ◌∷◌, ◌++◌, ◌==◌, list_eq, true,
  if◌then◌else◌, to_le, from_le, slice, zeros,
}
use seerdb.Storage.Format.{Crc32c, format_version, valid_page_size, DatabaseId, IsDatabaseId}

-- b"SEERDBSB"
abbrev pub superblock_magic : List ℕ
superblock_magic = 0x53 ∷ 0x45 ∷ 0x45 ∷ 0x52 ∷ 0x44 ∷ 0x42 ∷ 0x53 ∷ 0x42 ∷ []

pub record Superblock : Type 0 where
  pub database_id : DatabaseId
  pub history_id : ℕ
  pub page_size : ℕ
  pub format_version : ℕ

pub record InRange (s : Superblock) : Type 0 where
  pub database_id : IsDatabaseId s.database_id
  pub history_id : s.history_id < 2 ^ 64
  pub page_size : s.page_size < 2 ^ 32

unfoldable pub new : DatabaseId → ℕ → ℕ → Option Superblock
new database_id history_id page_size =
    if not (valid_page_size page_size)
    then none
    else some (record {
      database_id = database_id;
      history_id = history_id;
      page_size = page_size;
      format_version = format_version;
    })

-- The 40 bytes that the checksum covers.
unfoldable pub body : Superblock → List ℕ
body s =
    superblock_magic
    ++ (to_le 4 s.format_version
        ++ (to_le 4 s.page_size ++ (s.database_id ++ to_le 8 s.history_id)))

module _ (crc : Crc32c) where
  unfoldable pub to_bytes : Superblock → List ℕ
  to_bytes s = body s ++ (to_le 4 (crc.checksum (body s)) ++ zeros 4052)

  unfoldable pub from_bytes : List ℕ → Option Superblock
  from_bytes bytes =
      if not (list_eq (slice bytes 0 8) superblock_magic)
      then none
      else if not (from_le (slice bytes 40 44) == crc.checksum (slice bytes 0 40))
      then none
      else let version = from_le (slice bytes 8 12) in
        let page_size = from_le (slice bytes 12 16) in
        if not (version == format_version) || not (valid_page_size page_size)
        then none
        else some (record {
          database_id = slice bytes 16 32;
          history_id = from_le (slice bytes 32 40);
          page_size = page_size;
          format_version = version;
        })
