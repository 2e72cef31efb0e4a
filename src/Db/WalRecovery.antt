-- ===== src/Db/WalRecovery.antt =====
-- db/wal_recovery.rs: the analysis of a retained log against the selected manifest, and its
-- reconciliation. Files are their bytes; I/O errors, which end the call, are left out.
pub mod Boundary
pub mod Reconcile
use seerdb.Base.{
  ℕ, ◌+◌, Bool, true, false, not, ◌||◌, Option, none, some, List, [], ◌∷◌, ◌++◌, length, take, ltb,
  leb, ◌==◌, if◌then◌else◌, checked_add, to_le, Result, Error, ok, err, corruption, ok_or, ◌>>=◌,
  ◌>>◌,
}
use seerdb.Storage.Format.{Crc32c}
use seerdb.Storage.Format.CommitRecord.{CommitRecord}
use seerdb.Storage.Format.Manifest.{Manifest}
use seerdb.Recovery.Record.{
  RecordType, put, delete, commit, put_v2, delete_v2, WalRecord, ParseStatus, corrupt, to_bytes,
  commit_record,
}
use seerdb.Recovery.Parse.{parse_records_with_status}

pub record WalAnalysis : Type 0 where
  pub status : ParseStatus
  pub last_commit_end : ℕ
  pub has_unpublished_commit : Bool

-- The part of a record that the scan branches on: `is_mutation`, or a commit envelope.
pub data Kind : Type 0 where
  mutation commit_envelope other : Kind

unfoldable pub kind : RecordType → Kind
kind put = mutation
kind delete = mutation
kind put_v2 = mutation
kind delete_v2 = mutation
kind commit = commit_envelope
kind _ = other

module _ (crc : Crc32c) where
  unfoldable pub extend_digest : ℕ → WalRecord → ℕ
  extend_digest current r = crc.checksum (to_le 4 current ++ to_bytes crc r)

  -- `records.iter().fold(0, extend_digest)`
  unfoldable pub digest_from : ℕ → List WalRecord → ℕ
  digest_from digest [] = digest
  digest_from digest (r ∷ rs) = digest_from (extend_digest digest r) rs

  unfoldable pub digest_records : List WalRecord → ℕ
  digest_records rs = digest_from 0 rs

  -- The commit envelope of a record, if it closes these pending mutations.
  unfoldable pub closing_commit : List WalRecord → WalRecord → Result Error CommitRecord
  closing_commit pending r = do
    c ← ok_or (commit_record r) (corruption "invalid WAL commit envelope")
    if not (c.mutation_count == length pending) || not (c.digest == digest_records pending)
        then err (corruption "WAL commit does not match its mutation prefix")
        else ok c

-- The comparison of a commit with the authority: whether it is ahead of it.
unfoldable pub check_authority : Option Manifest → CommitRecord → Result Error Bool
check_authority none c = ok (ltb 0 c.generation_id || ltb 0 c.commit_id)
check_authority (some current) c =
    if ltb c.generation_id current.generation_id
    then (if ltb current.commit_id c.commit_id
        then err (corruption "WAL commit frontier is inconsistent with manifest")
        else ok false)
    else if c.generation_id == current.generation_id
    then (if not (c.commit_id == current.commit_id)
          || (not (c.root_page_id == current.root_page_id)
              || (not (c.mutation_count == current.mutation_count)
                  || not (c.digest == current.digest)))
        then err (corruption "WAL commit disagrees with authoritative manifest")
        else ok false)
    else if leb c.commit_id current.commit_id
    then err (corruption "WAL commit frontier is inconsistent with manifest")
    else ok true

-- The variables of the loop of `analyze_wal_bytes`.
pub record Scan : Type 0 where
  pub pending : List WalRecord
  pub last_commit_end : ℕ
  pub has_unpublished_commit : Bool
  pub offset : ℕ

abbrev pub start : Scan
start = record { pending = []; last_commit_end = 0; has_unpublished_commit = false; offset = 0 }

module _ (crc : Crc32c) (current_manifest : Option Manifest) where
  unfoldable pub close_scan : Scan → WalRecord → ℕ → Result Error Scan
  close_scan s r offset = do
    c ← closing_commit crc s.pending r
    ahead ← check_authority current_manifest c
    ok (record {
      pending = [];
      last_commit_end = offset;
      has_unpublished_commit = s.has_unpublished_commit || ahead;
      offset = offset;
    })

  -- One round of `for record in &records`.
  unfoldable pub scan_record : Scan → WalRecord → Result Error Scan
  scan_record s r = do
    offset ←
        ok_or (checked_add s.offset (length (to_bytes crc r)))
          (corruption "WAL record offset overflow")
    elim (kind r.record_type) [
      | mutation ↦ ok (record s { pending = s.pending ++ (r ∷ []); offset = offset })
      | commit_envelope ↦ close_scan s r offset
      | other ↦ ok (record s { offset = offset })
    ]

  unfoldable pub scan_records : Scan → List WalRecord → Result Error Scan
  scan_records s [] = ok s
  scan_records s (r ∷ rs) = do t ← scan_record s r; scan_records t rs

  unfoldable pub analyze_wal_bytes : List ℕ → Result Error WalAnalysis
  analyze_wal_bytes bytes = do
    parsed ← parse_records_with_status crc bytes
    s ← scan_records start parsed.0
    ok (record {
      status = parsed.1;
      last_commit_end = s.last_commit_end;
      has_unpublished_commit = s.has_unpublished_commit;
    })

  -- `analysis.status == Corrupt && current_manifest.is_none()`
  unfoldable pub is_refused : ParseStatus → Bool
  is_refused corrupt = elim current_manifest [ none ↦ true | some m ↦ false ]
  is_refused _ = false

  -- The bytes of the log file after `reconcile_wal`: `set_len(keep_len)`.
  unfoldable pub reconcile_wal : List ℕ → Result Error (List ℕ)
  reconcile_wal bytes = do
    analysis ← analyze_wal_bytes bytes
    if is_refused analysis.status
        then err (corruption "invalid complete WAL record")
        else (if leb (length bytes) analysis.last_commit_end
            then ok bytes
            else ok (take analysis.last_commit_end bytes))

  unfoldable pub wal_has_unpublished_commits : List ℕ → Result Error Bool
  wal_has_unpublished_commits bytes = do
    analysis ← analyze_wal_bytes bytes
    if is_refused analysis.status
        then err (corruption "invalid complete WAL record")
        else ok analysis.has_unpublished_commit
