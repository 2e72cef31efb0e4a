-- ===== src/Storage/Format/CommitRecord/RoundTrip.antt =====
-- `CommitRecord::to_bytes` and `CommitRecord::from_bytes` are inverse to one another.
use seerdb.Base.{
  ℕ, ◌↔◌, ◌≡◌, refl, ◌∙◌, some, List, length, All, IsByte, arith, to_le, from_le, slice,
  from_le-to_le, from_le-slice-lt, drop-field, drop_all, append-nil,
}
use seerdb.Storage.Format.CommitRecord.{CommitRecord, InRange, to_bytes, from_bytes}

module _ (r : CommitRecord) where
  pub length-to_bytes : length (to_bytes r) ≡ 40
  unfolding to_bytes to_le
  length-to_bytes = refl

  version_field : slice (to_bytes r) 0 4 ≡ to_le 4 2
  unfolding to_bytes to_le
  version_field = refl

  commit_field : slice (to_bytes r) 4 12 ≡ to_le 8 r.commit_id
  unfolding to_bytes to_le
  commit_field = refl

  generation_field : slice (to_bytes r) 12 20 ≡ to_le 8 r.generation_id
  unfolding to_bytes to_le
  generation_field = refl

  root_field : slice (to_bytes r) 20 28 ≡ to_le 8 r.root_page_id
  unfolding to_bytes to_le
  root_field = refl

  count_field : slice (to_bytes r) 28 36 ≡ to_le 8 r.mutation_count
  unfolding to_bytes to_le
  count_field = refl

  digest_field : slice (to_bytes r) 36 40 ≡ to_le 4 r.digest
  unfolding to_bytes to_le
  digest_field = refl

  pub from_bytes-to_bytes : InRange r → from_bytes (to_bytes r) ≡ some r
  unfolding from_bytes
  from_bytes-to_bytes h = rw (
    length-to_bytes,
    version_field,
    commit_field,
    generation_field,
    root_field,
    count_field,
    digest_field,
    from_le-to_le 4 2 (omega arith),
    from_le-to_le 8 _ h.commit_id,
    from_le-to_le 8 _ h.generation_id,
    from_le-to_le 8 _ h.root_page_id,
    from_le-to_le 8 _ h.mutation_count,
    from_le-to_le 4 _ h.digest,
  )

-- What a successful decode has checked and read.
from_bytes-eq-some :
    (bytes : List ℕ) {r : CommitRecord}
    → from_bytes bytes ≡ some r
    → (length bytes ≡ 40)
      × (from_le (slice bytes 0 4) ≡ 2)
      × (r.commit_id ≡ from_le (slice bytes 4 12))
      × (r.generation_id ≡ from_le (slice bytes 12 20))
      × (r.root_page_id ≡ from_le (slice bytes 20 28))
      × (r.mutation_count ≡ from_le (slice bytes 28 36))
      × (r.digest ≡ from_le (slice bytes 36 40))
unfolding from_bytes
from_bytes-eq-some bytes e = ground arith

module _ (bytes : List ℕ) (all : All IsByte bytes) {r : CommitRecord}
    (e : from_bytes bytes ≡ some r) where
  pub from_bytes-InRange : InRange r
  from_bytes-InRange =
      let (size, version, commit, generation, root, count, digest) = from_bytes-eq-some bytes e in
      record {
        commit_id = rw commit (from_le-slice-lt bytes 4 12 8 all refl (omega arith));
        generation_id = rw generation (from_le-slice-lt bytes 12 20 8 all refl (omega arith));
        root_page_id = rw root (from_le-slice-lt bytes 20 28 8 all refl (omega arith));
        mutation_count = rw count (from_le-slice-lt bytes 28 36 8 all refl (omega arith));
        digest = rw digest (from_le-slice-lt bytes 36 40 4 all refl (omega arith));
      }

  pub to_bytes-from_bytes : bytes ≡ to_bytes r
  unfolding to_bytes
  to_bytes-from_bytes =
      let (size, version, commit, generation, root, count, digest) = from_bytes-eq-some bytes e in
      rw (← version, commit, generation, root, count, digest)
        (drop-field bytes 0 4 4 all refl (omega arith) (
            drop-field bytes 4 12 8 all refl (omega arith) (
              drop-field bytes 12 20 8 all refl (omega arith) (
                drop-field bytes 20 28 8 all refl (omega arith) (
                  drop-field bytes 28 36 8 all refl (omega arith) (
                    drop-field bytes 36 40 4 all refl (omega arith)
                      (drop_all 40 bytes (omega arith)))))))
          ∙ rw append-nil)

-- On byte strings, a decode succeeds exactly on the encodings of records whose fields fit their
-- widths, and returns the record that was encoded.
pub commit_record_from_bytes_iff :
    (bytes : List ℕ) (r : CommitRecord)
    → All IsByte bytes
    → (from_bytes bytes ≡ some r) ↔ ((bytes ≡ to_bytes r) × InRange r)
commit_record_from_bytes_iff bytes r all = (
  λ e. (to_bytes-from_bytes bytes all e, from_bytes-InRange bytes all e),
  λ p. rw p.0 (from_bytes-to_bytes r p.1),
)
