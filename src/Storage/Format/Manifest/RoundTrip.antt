-- ===== src/Storage/Format/Manifest/RoundTrip.antt =====
-- A manifest is read back from the slot that `Manifest::to_bytes` fills.
use seerdb.Base.{
  length-append, length-to_le, ◌<◌, ◌^◌, ◌≡◌, refl, sym, some, false, length, arith, to_le, from_le,
  slice, zeros, from_le-to_le, all_zero, ==_refl, take-append_left, drop-append_left, ok,
}
use seerdb.Storage.Format.{Crc32c, id-to_le}
use seerdb.Storage.Format.Manifest.{
  Manifest, InRange, IsCurrent, manifest_magic, fields, body, read, to_bytes, from_bytes,
}

module _ (crc : Crc32c) (m : Manifest) (h : InRange m) where
  length-body : length (body m) ≡ 252
  unfolding body fields to_le zeros
  length-body = rw (id-to_le m.database_id h.database_id) refl

  pub length-to_bytes : length (to_bytes crc m) ≡ 256
  unfolding to_bytes
  length-to_bytes = omega (
    arith,
    length-append (body m) (to_le 4 (crc.checksum (body m))),
    length-body,
    length-to_le 4 (crc.checksum (body m)),
  )

  pub slice-to_bytes-body : slice (to_bytes crc m) 0 252 ≡ body m
  unfolding to_bytes
  slice-to_bytes-body = take-append_left 252 (body m) _ (sym length-body)

  pub slice-to_bytes_checksum : slice (to_bytes crc m) 252 256 ≡ to_le 4 (crc.checksum (body m))
  unfolding to_bytes to_le
  slice-to_bytes_checksum =
      rw (drop-append_left 252 (body m) (to_le 4 (crc.checksum (body m))) (sym length-body)) refl

  magic_field : slice (to_bytes crc m) 0 8 ≡ manifest_magic
  unfolding to_bytes body fields to_le
  magic_field = refl

  not_zero : all_zero (to_bytes crc m) ≡ false
  unfolding to_bytes body fields
  not_zero = refl

  -- Every field is read from where it was written.
  read_fields : read (to_bytes crc m) ≡ record {
    database_id = m.database_id;
    history_id = from_le (to_le 8 m.history_id);
    generation_id = from_le (to_le 8 m.generation_id);
    commit_id = from_le (to_le 8 m.commit_id);
    page_size = from_le (to_le 4 m.page_size);
    root_page_id = from_le (to_le 8 m.root_page_id);
    pmt_checkpoint_id = from_le (to_le 8 m.pmt_checkpoint_id);
    wal_segment = from_le (to_le 8 m.wal_segment);
    wal_offset = from_le (to_le 8 m.wal_offset);
    mutation_count = from_le (to_le 8 m.mutation_count);
    digest = from_le (to_le 4 m.digest);
    format_version = from_le (to_le 4 m.format_version);
  }
  unfolding read to_bytes body fields to_le
  read_fields = rw (id-to_le m.database_id h.database_id) refl

  pub read-to_bytes : m.format_version < 2 ^ 32 → read (to_bytes crc m) ≡ m
  read-to_bytes version = rw (
    read_fields,
    from_le-to_le 8 _ h.history_id,
    from_le-to_le 8 _ h.generation_id,
    from_le-to_le 8 _ h.commit_id,
    from_le-to_le 4 _ h.page_size,
    from_le-to_le 8 _ h.root_page_id,
    from_le-to_le 8 _ h.pmt_checkpoint_id,
    from_le-to_le 8 _ h.wal_segment,
    from_le-to_le 8 _ h.wal_offset,
    from_le-to_le 8 _ h.mutation_count,
    from_le-to_le 4 _ h.digest,
    from_le-to_le 4 _ version,
  )

  -- A manifest whose fields fit their widths, of the current format and with a valid page size, is
  -- read back from its slot.
  pub manifest_from_bytes-to_bytes : IsCurrent m → from_bytes crc (to_bytes crc m) ≡ ok (some m)
  unfolding from_bytes
  manifest_from_bytes-to_bytes current = rw (
    not_zero,
    magic_field,
    slice-to_bytes_checksum,
    slice-to_bytes-body,
    from_le-to_le 4 _ (crc.checksum-lt (body m)),
    ==_refl (crc.checksum (body m)),
    read-to_bytes (omega (arith, current.version)),
    current.version,
    current.page_size,
  )
