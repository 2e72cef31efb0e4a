-- ===== src/Storage/Format.antt =====
-- storage/format.rs: what its three formats share.
-- `crc32c::crc32c` is a parameter. A fixed-size array is a list, and an identity that wraps a
-- `u64` (`HistoryId`, `GenerationId`, `CommitId`, `PmtCheckpointId`, `SnapshotId`) is a number.
pub mod CommitRecord
pub mod Superblock
pub mod Manifest
use Prim.Native.Nat.{bit_and}
use seerdb.Base.{
  ℕ, ◌-◌, ◌<◌, ◌^◌, ◌≡◌, Bool, ◌&&◌, List, [], ◌∷◌, length, All, IsByte, ltb, leb, ◌==◌, sym, to_le,
  from_le, to_le-from_le,
}

-- The checksum of the crc32c crate: a function into 32 bits.
pub record Crc32c : Type 0 where
  pub checksum : List ℕ → ℕ
  pub checksum-lt : (bytes : List ℕ) → checksum bytes < 2 ^ 32

abbrev pub format_version : ℕ
format_version = 2

-- `page_size >= 512 && page_size.is_power_of_two()`
unfoldable pub valid_page_size : ℕ → Bool
valid_page_size page_size =
    leb 512 page_size && (ltb 0 page_size && bit_and page_size (page_size - 1) == 0)

-- An array of 16 bytes.
abbrev pub DatabaseId : Type 0
DatabaseId = List ℕ

pub record IsDatabaseId (id : DatabaseId) : Type 0 where
  pub size : length id ≡ 16
  pub bytes : All IsByte id

pub id-to_le : (id : DatabaseId) → IsDatabaseId id → id ≡ to_le 16 (from_le id)
id-to_le id h = sym (rw h.size at (to_le-from_le id h.bytes))
