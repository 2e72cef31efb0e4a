-- ===== src/Db/WalRecovery/Reconcile.antt =====
-- Reconciliation keeps the log up to its last commit, and nothing else changes.
use seerdb.Base.{
  ℕ, ◌≤◌, ◌≡◌, sym, ap, ◌∙◌, Option, List, ◌++◌, append_assoc, length, length-append, take,
  length-take, ◌⊎◌, take-append_left, take_all, All, All-append_left, IsByte, arith, ok, >>=-eq-ok,
  inl, inr,
}
use seerdb.Storage.Format.{Crc32c}
use seerdb.Storage.Format.Manifest.{Manifest}
use seerdb.Recovery.Record.{WalRecord, ParseStatus, complete, encode_all}
use seerdb.Recovery.Record.RoundTrip.{IsEncodable, encode_all-append}
use seerdb.Recovery.Parse.{parse_records_with_status}
use seerdb.Recovery.Parse.Complete.{parse-encode_all_whole}
use seerdb.Recovery.Parse.Sound.{parse_records_sound}
use seerdb.Db.WalRecovery.{
  WalAnalysis, start, scan_records, analyze_wal_bytes, reconcile_wal, is_refused,
}
use seerdb.Db.WalRecovery.Boundary.{boundary, committed_prefix}

module _ (crc : Crc32c) (current : Option Manifest) where
  -- The log up to the last commit, alone.
  pub record IsCommittedPart (bytes : List ℕ) (a : WalAnalysis) : Type 0 where
    pub fits : a.last_commit_end ≤ length bytes
    pub same :
        analyze_wal_bytes crc current (take a.last_commit_end bytes)
        ≡ ok (record a { status = complete })

  pub record IsCut (bytes : List ℕ) (a : WalAnalysis) : Type 0 where
    pub records : List WalRecord
    pub status : ParseStatus
    pub parsed : parse_records_with_status crc bytes ≡ ok (records, status)
    pub committed : take a.last_commit_end bytes ≡ encode_all crc (committed_prefix records)
    pub part : IsCommittedPart bytes a

  IsCut-of :
      (bytes : List ℕ) (rs : List WalRecord) (status : ParseStatus) (tail : List ℕ)
      {a : WalAnalysis}
      → parse_records_with_status crc bytes ≡ ok (rs, status)
      → bytes ≡ encode_all crc rs ++ tail
      → All IsEncodable rs
      → analyze_wal_bytes crc current bytes ≡ ok a
      → IsCut bytes a
  unfolding analyze_wal_bytes
  IsCut-of bytes rs status tail {a} parsed whole encodable e =
      let (t, scans, final) = >>=-eq-ok (scan_records crc current start rs) _ (rw parsed at e) in
      let (front, back, m, b) = boundary crc current rs scans in
      let last : a.last_commit_end ≡ length (encode_all crc front) =
        ground (arith, b.last, b.at_offset, b.bytes) in
      let split : bytes ≡ encode_all crc front ++ (encode_all crc back ++ tail) =
        whole
        ∙ rw (b.split, encode_all-append)
            (append_assoc (encode_all crc front) (encode_all crc back) tail) in
      let kept : take a.last_commit_end bytes ≡ encode_all crc front =
        ap (take a.last_commit_end) split
        ∙ take-append_left a.last_commit_end (encode_all crc front) (encode_all crc back ++ tail)
            last in
      record {
        records = rs;
        status = status;
        parsed = parsed;
        committed = kept ∙ ap (encode_all crc) b.committed;
        part = record {
          fits = omega (
            arith,
            ap (length {A = ℕ}) split,
            last,
            length-append (encode_all crc front) (encode_all crc back ++ tail),
          );
          same =
              rw
                (
                  kept,
                  parse-encode_all_whole crc front
                      (All-append_left IsEncodable front back (rw b.split at encodable)),
                  b.runs,
                )
                (ground (arith, b.last, b.unpublished));
        };
      }

  analysis-IsCut :
      (bytes : List ℕ) {a : WalAnalysis}
      → All IsByte bytes
      → analyze_wal_bytes crc current bytes ≡ ok a
      → IsCut bytes a
  analysis-IsCut bytes all e =
      let (rs, status, parsed, found) = parse_records_sound crc bytes all in
      IsCut-of bytes rs status found.tail parsed found.split found.encodable e

  reconcile_kept :
      (bytes : List ℕ) {kept : List ℕ} (a : WalAnalysis)
      → analyze_wal_bytes crc current bytes ≡ ok a
      → reconcile_wal crc current bytes ≡ ok kept
      → (kept ≡ take a.last_commit_end bytes)
        ⊎ ((kept ≡ bytes) × (length bytes ≤ a.last_commit_end))
  unfolding reconcile_wal
  reconcile_kept bytes a analyzed e = ground arith

  -- A log that reconciliation accepts is cut to the end of its last commit: with the records that
  -- the log's bytes parse to, what is kept is the encoding of those up to the last one of type
  -- `Commit`, and nothing if none has it. What is kept parses completely, and its analysis finds the same boundary and the same unpublished commits.
  pub reconcile_sound :
      (bytes : List ℕ) {kept : List ℕ}
      → All IsByte bytes
      → reconcile_wal crc current bytes ≡ ok kept
      → (a : WalAnalysis) × (analyze_wal_bytes crc current bytes ≡ ok a)
        × (kept ≡ take a.last_commit_end bytes)
        × (length kept ≡ a.last_commit_end)
        × (analyze_wal_bytes crc current kept ≡ ok (record a { status = complete }))
        × (rs : List WalRecord) × (status : ParseStatus) × (parse_records_with_status crc bytes
            ≡ ok (rs, status))
        × (kept ≡ encode_all crc (committed_prefix rs))
  unfolding reconcile_wal
  reconcile_sound bytes {kept} all e =
      let (a, analyzed, _) = >>=-eq-ok (analyze_wal_bytes crc current bytes) _ e in
      let found = analysis-IsCut bytes all analyzed in
      let cut : kept ≡ take a.last_commit_end bytes = elim (reconcile_kept bytes a analyzed e) [
        | inl cut ↦ cut
        | inr (whole, long) ↦ whole ∙ sym (take_all a.last_commit_end bytes long)
      ] in
      (
        a,
        analyzed,
        cut,
        ap (length {A = ℕ}) cut
            ∙ length-take a.last_commit_end bytes
            ∙ omega (arith, found.part.fits),
        ap (analyze_wal_bytes crc current) cut ∙ found.part.same,
        found.records,
        found.status,
        found.parsed,
        cut ∙ found.committed,
      )

  -- A reconciled log is left as it is.
  pub reconcile_idempotent :
      (bytes : List ℕ) {kept : List ℕ}
      → All IsByte bytes
      → reconcile_wal crc current bytes ≡ ok kept
      → reconcile_wal crc current kept ≡ ok kept
  unfolding reconcile_wal is_refused
  reconcile_idempotent bytes {kept} all e =
      let (a, analyzed, cut, size, again, rs, status, parsed, committed) =
        reconcile_sound bytes all e in
      ground (arith, again, size)
