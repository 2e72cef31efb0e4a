-- ===== src/Storage/Format/Manifest/Decode.antt =====
-- What `Manifest::from_bytes` has checked when it returns a manifest.
use seerdb.Base.{
  ℕ, ◌≡◌, refl, ap, ◌∙◌, none, some, true, List, [], ◌∷◌, ◌++◌, length, arith, from_le, slice,
  zeros, take, drop, All, IsByte, ◌↔◌, All-take, All-drop, list_eq, list_eq→eq, all_zero,
  all_zero-zeros, ok, drop-field, drop-slice, from_le-slice-lt, append_assoc, length-slice,
}
use seerdb.Storage.Format.{Crc32c, valid_page_size}
use seerdb.Storage.Format.Manifest.{
  Manifest, InRange, IsCurrent, manifest_magic, fields, read, from_bytes,
}

read-InRange : (bytes : List ℕ) → All IsByte bytes → length bytes ≡ 256 → InRange (read bytes)
unfolding read
read-InRange bytes all size = record {
  database_id = record {
    size = length-slice bytes 16 32 16 refl (omega arith);
    bytes = All-take IsByte 16 (drop 16 bytes) (All-drop IsByte 16 bytes all);
  };
  history_id = from_le-slice-lt bytes 32 40 8 all refl (omega arith);
  generation_id = from_le-slice-lt bytes 40 48 8 all refl (omega arith);
  commit_id = from_le-slice-lt bytes 48 56 8 all refl (omega arith);
  page_size = from_le-slice-lt bytes 12 16 4 all refl (omega arith);
  root_page_id = from_le-slice-lt bytes 56 64 8 all refl (omega arith);
  pmt_checkpoint_id = from_le-slice-lt bytes 64 72 8 all refl (omega arith);
  wal_segment = from_le-slice-lt bytes 72 80 8 all refl (omega arith);
  wal_offset = from_le-slice-lt bytes 80 88 8 all refl (omega arith);
  mutation_count = from_le-slice-lt bytes 88 96 8 all refl (omega arith);
  digest = from_le-slice-lt bytes 96 100 4 all refl (omega arith);
}

-- The described bytes determine the manifest, and it determines them.
fields-read :
    (bytes : List ℕ)
    → All IsByte bytes
    → length bytes ≡ 256
    → slice bytes 0 8 ≡ manifest_magic
    → bytes ≡ fields (read bytes) ++ drop 100 bytes
unfolding fields read
fields-read bytes all size magic =
    drop-slice bytes 0 8 (omega arith) (
      drop-field bytes 8 12 4 all refl (omega arith) (
        drop-field bytes 12 16 4 all refl (omega arith) (
          drop-slice bytes 16 32 (omega arith) (
            drop-field bytes 32 40 8 all refl (omega arith) (
              drop-field bytes 40 48 8 all refl (omega arith) (
                drop-field bytes 48 56 8 all refl (omega arith) (
                  drop-field bytes 56 64 8 all refl (omega arith) (
                    drop-field bytes 64 72 8 all refl (omega arith) (
                      drop-field bytes 72 80 8 all refl (omega arith) (
                        drop-field bytes 80 88 8 all refl (omega arith) (
                          drop-field bytes 88 96 8 all refl (omega arith)
                            (drop-field bytes 96 100 4 all refl (omega arith) refl))))))))))))
    ∙ rw magic (simp append_assoc)

-- The tests of `from_bytes` on the way to a manifest.
from_bytes-eq-some :
    (crc : Crc32c) (bytes : List ℕ) {m : Manifest}
    → from_bytes crc bytes ≡ ok (some m)
    → (list_eq (slice bytes 0 8) manifest_magic ≡ true)
      × (from_le (slice bytes 252 256) ≡ crc.checksum (slice bytes 0 252))
      × ((read bytes).format_version ≡ 2)
      × (valid_page_size (read bytes).page_size ≡ true)
      × (m ≡ read bytes)
unfolding from_bytes
from_bytes-eq-some crc bytes e = ground arith

-- A slot of 256 bytes that decodes to a manifest holds a current one whose fields fit their
-- widths; its first 100 bytes are that manifest's fields, and its last four the checksum of the
-- 252 before them.
pub manifest_from_bytes_sound :
    (crc : Crc32c) (bytes : List ℕ) {m : Manifest}
    → All IsByte bytes
    → length bytes ≡ 256
    → from_bytes crc bytes ≡ ok (some m)
    → IsCurrent m
      × InRange m
      × (bytes ≡ fields m ++ drop 100 bytes)
      × (from_le (slice bytes 252 256) ≡ crc.checksum (take 252 bytes))
manifest_from_bytes_sound crc bytes all size e =
    let (magic, checksum, version, page_size, same) = from_bytes-eq-some crc bytes e in
    rw same (
      record { version = version; page_size = page_size },
      read-InRange bytes all size,
      fields-read bytes all size (list_eq→eq _ _ magic),
      checksum,
    )

all_zero→zeros : (bytes : List ℕ) → all_zero bytes ≡ true → bytes ≡ zeros (length bytes)
unfolding zeros
all_zero→zeros [] e = refl
all_zero→zeros (b ∷ bs) e = ground (arith, all_zero→zeros bs)

from_bytes-eq-none :
    (crc : Crc32c) (bytes : List ℕ) → from_bytes crc bytes ≡ ok none → all_zero bytes ≡ true
unfolding from_bytes
from_bytes-eq-none crc bytes e = ground arith

-- A 256-byte slot is reported as empty exactly when all its bytes are zero: a damaged slot never is.
pub manifest_from_bytes_empty_iff :
    (crc : Crc32c) (bytes : List ℕ)
    → length bytes ≡ 256
    → (from_bytes crc bytes ≡ ok none) ↔ (bytes ≡ zeros 256)
manifest_from_bytes_empty_iff crc bytes size = (
  λ e. all_zero→zeros bytes (from_bytes-eq-none crc bytes e) ∙ ap zeros size,
  λ e. rw e (unfold from_bytes in rw (all_zero-zeros 256)),
)
