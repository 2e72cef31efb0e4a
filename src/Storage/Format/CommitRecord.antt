-- ===== src/Storage/Format/CommitRecord.antt =====
-- storage/format.rs, `CommitRecord`: the payload of a WAL commit envelope.
pub mod RoundTrip
use seerdb.Base.{
  ℕ, ◌<◌, ◌^◌, not, Option, none, some, List, ◌++◌, length, ◌==◌, if◌then◌else◌, to_le, from_le,
  slice,
}
use seerdb.Storage.Format.{format_version}

pub record CommitRecord : Type 0 where
  pub commit_id : ℕ
  pub generation_id : ℕ
  pub root_page_id : ℕ
  pub mutation_count : ℕ
  pub digest : ℕ

-- The widths of the fields: four `u64` and a `u32`.
pub record InRange (r : CommitRecord) : Type 0 where
  pub commit_id : r.commit_id < 2 ^ 64
  pub generation_id : r.generation_id < 2 ^ 64
  pub root_page_id : r.root_page_id < 2 ^ 64
  pub mutation_count : r.mutation_count < 2 ^ 64
  pub digest : r.digest < 2 ^ 32

abbrev pub serialized_size : ℕ
serialized_size = 40

unfoldable pub to_bytes : CommitRecord → List ℕ
to_bytes r =
    to_le 4 format_version
    ++ (to_le 8 r.commit_id
        ++ (to_le 8 r.generation_id
            ++ (to_le 8 r.root_page_id ++ (to_le 8 r.mutation_count ++ to_le 4 r.digest))))

unfoldable pub from_bytes : List ℕ → Option CommitRecord
from_bytes bytes =
    if not (length bytes == serialized_size)
    then none
    else if not (from_le (slice bytes 0 4) == format_version)
    then none
    else some (record {
      commit_id = from_le (slice bytes 4 12);
      generation_id = from_le (slice bytes 12 20);
      root_page_id = from_le (slice bytes 20 28);
      mutation_count = from_le (slice bytes 28 36);
      digest = from_le (slice bytes 36 40);
    })
