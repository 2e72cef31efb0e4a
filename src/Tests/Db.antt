-- ===== src/Tests/Db.antt =====
-- Tests of db/: the log's payloads, its analysis and its reconciliation.
use seerdb.Base.{
  ℕ, ◌+◌, ◌<◌, ◌^◌, ◌≡◌, ◌↔◌, refl, true, false, none, some, List, [], ◌∷◌, ◌++◌, length, take, All,
  IsByte, arith, ok, err, to_le, from_le, corruption,
}
use seerdb.Storage.Format.CommitRecord
use seerdb.Storage.Format.CommitRecord.{CommitRecord}
use seerdb.Recovery.Record.{
  WalRecord, ParseStatus, complete, to_bytes, from_bytes, encode_all, type_code, type_of_code,
  new_put, new_commit, commit_record,
}
use seerdb.Recovery.Parse.{parse_round, parse_loop, parse_records_with_status}
use seerdb.Db.WalPayload.{decode_put_payload, validate_wal_key_length, validate_wal_put_lengths}
use seerdb.Db.WalPayload.RoundTrip.{decode_put_payload-new_put}
use seerdb.Db.WalPayload.Limits.{put_readable_iff}
use seerdb.Db.WalRecovery.{
  WalAnalysis, analyze_wal_bytes, reconcile_wal, scan_records, scan_record, close_scan,
  closing_commit, check_authority, digest_records, digest_from, extend_digest, is_refused, kind,
}
use seerdb.Db.WalRecovery.Boundary.{committed_prefix}
use seerdb.Db.WalRecovery.Reconcile.{reconcile_sound, reconcile_idempotent}
use seerdb.Tests.Fixtures.{crc, put_record, delete_record}

decode_put_payload-new_put_example :
    decode_put_payload true (new_put (7 ∷ []) (9 ∷ [])).payload ≡ ok (7 ∷ [], 9 ∷ [])
decode_put_payload-new_put_example =
    decode_put_payload-new_put (7 ∷ []) (9 ∷ []) (omega arith) (omega arith)

-- The legacy layout has lengths of two bytes.
legacy_put_test :
    decode_put_payload false (1 ∷ 0 ∷ 7 ∷ 2 ∷ 0 ∷ 9 ∷ 8 ∷ []) ≡ ok (7 ∷ [], 9 ∷ 8 ∷ [])
unfolding decode_put_payload from_le
legacy_put_test = refl

truncated_put_test :
    decode_put_payload true (1 ∷ 0 ∷ 0 ∷ 0 ∷ 7 ∷ 2 ∷ 0 ∷ 0 ∷ 0 ∷ 9 ∷ [])
    ≡ err (corruption "WAL v2 put value is truncated")
unfolding decode_put_payload from_le
truncated_put_test = refl

put_readable_iff_example :
    (from_bytes crc (to_bytes crc (new_put (7 ∷ []) (9 ∷ [])) ++ (3 ∷ []))
      ≡ some (new_put (7 ∷ []) (9 ∷ []), 1 + 1 + 17))
    ↔ (1 + 1 + 13 < 2 ^ 32)
put_readable_iff_example =
    put_readable_iff crc (7 ∷ []) (9 ∷ []) (3 ∷ []) (ground arith) (ground arith) (ground arith)
      (unfold validate_wal_put_lengths validate_wal_key_length in refl)

-- The envelope that closes the one mutation `put_record`, the first commit of the history.
abbrev commit_entry : WalRecord
commit_entry = new_commit (record {
  commit_id = 1;
  generation_id = 1;
  root_page_id = 2;
  mutation_count = 1;
  digest = digest_records crc (put_record ∷ []);
})

-- A committed put, and a delete without a commit.
abbrev a_log : List ℕ
a_log = encode_all crc (put_record ∷ commit_entry ∷ delete_record ∷ [])

analyze_test :
    analyze_wal_bytes crc none a_log
    ≡ ok (record { status = complete; last_commit_end = 68; has_unpublished_commit = true })
unfolding analyze_wal_bytes encode_all to_bytes from_bytes type_code type_of_code to_le from_le
    parse_records_with_status parse_loop parse_round scan_records scan_record kind close_scan
    closing_commit check_authority digest_records digest_from extend_digest commit_record new_commit
    CommitRecord.to_bytes CommitRecord.from_bytes
analyze_test = refl

a_log-IsByte : All IsByte a_log
unfolding encode_all to_bytes type_code to_le new_commit CommitRecord.to_bytes digest_records
    digest_from extend_digest
a_log-IsByte = ground arith

-- Reconciliation drops the delete that no commit closes.
reconcile_test : reconcile_wal crc none a_log ≡ ok (take 68 a_log)
unfolding reconcile_wal is_refused encode_all to_bytes type_code to_le new_commit
    CommitRecord.to_bytes digest_records digest_from extend_digest
reconcile_test = rw analyze_test refl

reconcile_sound_example :
    (a : WalAnalysis) × (analyze_wal_bytes crc none a_log ≡ ok a)
    × (take 68 a_log ≡ take a.last_commit_end a_log)
    × (length (take 68 a_log) ≡ a.last_commit_end)
    × (analyze_wal_bytes crc none (take 68 a_log) ≡ ok (record a { status = complete }))
    × (rs : List WalRecord) × (status : ParseStatus) × (parse_records_with_status crc a_log
        ≡ ok (rs, status))
    × (take 68 a_log ≡ encode_all crc (committed_prefix rs))
reconcile_sound_example = reconcile_sound crc none a_log a_log-IsByte reconcile_test

reconcile_idempotent_example : reconcile_wal crc none (take 68 a_log) ≡ ok (take 68 a_log)
reconcile_idempotent_example = reconcile_idempotent crc none a_log a_log-IsByte reconcile_test
