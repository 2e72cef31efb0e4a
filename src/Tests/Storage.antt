-- ===== src/Tests/Storage.antt =====
-- Tests of storage/: the durable formats.
use seerdb.Base.{
  ℕ, ◌≡◌, ◌↔◌, refl, true, false, some, List, [], ◌∷◌, ◌++◌, take, drop, replicate, slice, arith,
  ok, from_le, to_le,
}
use seerdb.Storage.Format.{valid_page_size}
use seerdb.Storage.Format.CommitRecord
use seerdb.Storage.Format.CommitRecord.{CommitRecord}
use seerdb.Storage.Format.CommitRecord.RoundTrip.{commit_record_from_bytes_iff}
use seerdb.Storage.Format.Manifest
use seerdb.Storage.Format.Manifest.{Manifest, is_newer_than}
use seerdb.Storage.Format.Manifest.RoundTrip.{manifest_from_bytes-to_bytes}
use seerdb.Storage.Format.Manifest.Decode.{manifest_from_bytes_sound}
use seerdb.Storage.Format.Manifest.Order.{is_newer_than_trans}
use seerdb.Tests.Fixtures.{crc, a_manifest, a_manifest-InRange}

abbrev a_commit : CommitRecord
a_commit = record {
  commit_id = 4;
  generation_id = 3;
  root_page_id = 2;
  mutation_count = 1;
  digest = 99;
}

abbrev a_commit-InRange : CommitRecord.InRange a_commit
a_commit-InRange = record {
  commit_id = omega arith;
  generation_id = omega arith;
  root_page_id = omega arith;
  mutation_count = omega arith;
  digest = omega arith;
}

page_size_test :
    (valid_page_size 4096 ≡ true) × (valid_page_size 4095 ≡ false) × (valid_page_size 256 ≡ false)
unfolding valid_page_size
page_size_test = (refl, refl, refl)

-- The bytes of `a_commit`, written out.
abbrev a_commit_bytes : List ℕ
a_commit_bytes =
    (2 ∷ 0 ∷ 0 ∷ 0 ∷ 4 ∷ replicate 7 0)
    ++ ((3 ∷ replicate 7 0)
        ++ ((2 ∷ replicate 7 0) ++ ((1 ∷ replicate 7 0) ++ (99 ∷ 0 ∷ 0 ∷ 0 ∷ []))))

a_commit_bytes_test : CommitRecord.to_bytes a_commit ≡ a_commit_bytes
unfolding CommitRecord.to_bytes to_le
a_commit_bytes_test = refl

commit_record_from_bytes_iff_example :
    (CommitRecord.from_bytes a_commit_bytes ≡ some a_commit)
    ↔ ((a_commit_bytes ≡ CommitRecord.to_bytes a_commit) × CommitRecord.InRange a_commit)
commit_record_from_bytes_iff_example =
    commit_record_from_bytes_iff a_commit_bytes a_commit (ground arith)

manifest_from_bytes-to_bytes_example :
    Manifest.from_bytes crc (Manifest.to_bytes crc a_manifest) ≡ ok (some a_manifest)
manifest_from_bytes-to_bytes_example =
    manifest_from_bytes-to_bytes crc a_manifest a_manifest-InRange
      (record { version = refl; page_size = unfold valid_page_size in refl })

-- The slot that holds `a_manifest`, written out.
abbrev a_slot : List ℕ
a_slot =
    (0x53 ∷ 0x45 ∷ 0x45 ∷ 0x52 ∷ 0x4d ∷ 0x4e ∷ 0x46 ∷ 0x31 ∷ [])
    ++ ((2 ∷ 0 ∷ 0 ∷ 0 ∷ 0 ∷ 16 ∷ 0 ∷ 0 ∷ [])
        ++ (replicate 16 5
            ++ ((11 ∷ replicate 7 0)
                ++ ((3 ∷ replicate 7 0)
                    ++ ((4 ∷ replicate 7 0)
                        ++ ((2 ∷ replicate 7 0)
                            ++ ((6 ∷ replicate 7 0)
                                ++ (replicate 16 0
                                    ++ ((1 ∷ replicate 7 0)
                                        ++ ((99 ∷ replicate 155 0)
                                            ++ (0x21 ∷ 3 ∷ 0 ∷ 0 ∷ [])))))))))))

manifest_test : Manifest.from_bytes crc a_slot ≡ ok (some a_manifest)
unfolding Manifest.from_bytes Manifest.read valid_page_size from_le
manifest_test = refl

manifest_from_bytes_sound_example :
    Manifest.IsCurrent a_manifest
    × Manifest.InRange a_manifest
    × (a_slot ≡ Manifest.fields a_manifest ++ drop 100 a_slot)
    × (from_le (slice a_slot 252 256) ≡ crc.checksum (take 252 a_slot))
manifest_from_bytes_sound_example =
    manifest_from_bytes_sound crc a_slot (ground arith) refl manifest_test

-- The successor of `a_manifest` in the same generation, and in the next one.
abbrev next_commit : Manifest
next_commit = record a_manifest { commit_id = 5 }

abbrev next_generation : Manifest
next_generation = record a_manifest { generation_id = 4; commit_id = 1 }

is_newer_than_trans_example : is_newer_than next_generation a_manifest ≡ true
is_newer_than_trans_example =
    is_newer_than_trans next_generation next_commit a_manifest (unfold is_newer_than in refl)
      (unfold is_newer_than in refl)
