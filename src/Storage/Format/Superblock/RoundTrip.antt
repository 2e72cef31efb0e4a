-- ===== src/Storage/Format/Superblock/RoundTrip.antt =====
-- A superblock that `Superblock::new` made is read back from its sector.
use seerdb.Base.{
  ℕ, ◌<◌, ◌^◌, ◌≡◌, refl, sym, some, true, List, length, arith, to_le, slice, zeros, from_le-to_le,
  take-append_left, ==_refl, slice-append,
}
use seerdb.Storage.Format.{Crc32c, id-to_le, IsDatabaseId, valid_page_size}
use seerdb.Storage.Format.Superblock.{
  Superblock, InRange, new, body, to_bytes, from_bytes, superblock_magic,
}

module _ (crc : Crc32c) (s : Superblock) (h : InRange s) where
  length-body : length (body s) ≡ 40
  unfolding body to_le
  length-body = rw (id-to_le s.database_id h.database_id) refl

  checksum_field : slice (to_bytes crc s) 40 44 ≡ to_le 4 (crc.checksum (body s))
  unfolding to_bytes
  checksum_field =
      slice-append 40 44 (body s) (to_le 4 (crc.checksum (body s))) (zeros 4052) (sym length-body)
        (unfold to_le in refl)

  body_field : slice (to_bytes crc s) 0 40 ≡ body s
  unfolding to_bytes
  body_field = take-append_left 40 (body s) _ (sym length-body)

  magic_field : slice (to_bytes crc s) 0 8 ≡ superblock_magic
  unfolding to_bytes body
  magic_field = refl

  version_field : slice (to_bytes crc s) 8 12 ≡ to_le 4 s.format_version
  unfolding to_bytes body to_le
  version_field = refl

  page_size_field : slice (to_bytes crc s) 12 16 ≡ to_le 4 s.page_size
  unfolding to_bytes body to_le
  page_size_field = refl

  id_field : slice (to_bytes crc s) 16 32 ≡ s.database_id
  unfolding to_bytes body to_le
  id_field = rw (id-to_le s.database_id h.database_id) refl

  history_field : slice (to_bytes crc s) 32 40 ≡ to_le 8 s.history_id
  unfolding to_bytes body to_le
  history_field = rw (id-to_le s.database_id h.database_id) refl

  pub from_bytes-to_bytes :
      s.format_version ≡ 2
      → valid_page_size s.page_size ≡ true
      → from_bytes crc (to_bytes crc s) ≡ some s
  unfolding from_bytes
  from_bytes-to_bytes version page_size = rw (
    magic_field,
    checksum_field,
    body_field,
    from_le-to_le 4 _ (crc.checksum-lt (body s)),
    ==_refl (crc.checksum (body s)),
    version_field,
    page_size_field,
    id_field,
    history_field,
    version,
    from_le-to_le 4 2 (omega arith),
    from_le-to_le 4 _ h.page_size,
    page_size,
    from_le-to_le 8 _ h.history_id,
  )

-- What `Superblock::new` makes of a 16-byte identity, a history ID and a page size that fit their
-- widths is read back from its sector.
pub superblock_from_bytes-new :
    (crc : Crc32c) (id : List ℕ) (history_id page_size : ℕ) {s : Superblock}
    → IsDatabaseId id
    → history_id < 2 ^ 64
    → page_size < 2 ^ 32
    → new id history_id page_size ≡ some s
    → from_bytes crc (to_bytes crc s) ≡ some s
unfolding new
superblock_from_bytes-new crc id history_id page_size {s} hid hh hp e =
    let same : s.database_id ≡ id = ground arith in
    from_bytes-to_bytes crc s
      (record { database_id = rw same hid; history_id = ground arith; page_size = ground arith })
      (ground arith) (ground arith)
