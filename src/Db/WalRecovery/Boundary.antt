-- ===== src/Db/WalRecovery/Boundary.antt =====
-- The end of the last commit lies between two records, and the records before it decide it.
use seerdb.Base.{
  ◌+◌, ◌≡◌, Bool, true, false, ◌||◌, if◌then◌else◌, refl, sym, ap, ◌∙◌, ◌⊎◌, inl, inr, Option, List,
  [], ◌∷◌, ◌++◌, length, length-append, arith, ok, >>=-eq-ok, append-nil,
}
use seerdb.Storage.Format.{Crc32c}
use seerdb.Storage.Format.Manifest.{Manifest}
use seerdb.Recovery.Record.{
  RecordType, pmt_update, page_alloc, page_dealloc, blob_append, txn_commit, txn_abort, checkpoint,
  put, delete, commit, put_v2, delete_v2, WalRecord, to_bytes, encode_all,
}
use seerdb.Db.WalRecovery.{
  kind, mutation, commit_envelope, other, Scan, start, close_scan, scan_record, scan_records,
}

is_commit : RecordType → Bool
is_commit commit = true
is_commit _ = false

has_commit : List WalRecord → Bool
has_commit [] = false
has_commit (r ∷ rs) = is_commit r.record_type || has_commit rs

-- The records up to the last one of type `Commit`, which is among them.
unfoldable pub committed_prefix : List WalRecord → List WalRecord
unfolding is_commit has_commit
committed_prefix [] = []
committed_prefix (r ∷ rs) =
    let rest = committed_prefix rs in
    if is_commit r.record_type || has_commit rs then r ∷ rest else []

no_commit→committed_prefix :
    (rs : List WalRecord) → has_commit rs ≡ false → committed_prefix rs ≡ []
unfolding committed_prefix has_commit
no_commit→committed_prefix [] e = refl
no_commit→committed_prefix (r ∷ rs) e = ground arith

kind-is_commit :
    (t : RecordType)
    → ((kind t ≡ commit_envelope) × (is_commit t ≡ true))
      ⊎ (((kind t ≡ mutation) ⊎ (kind t ≡ other)) × (is_commit t ≡ false))
unfolding kind is_commit
kind-is_commit pmt_update = inr (inr refl, refl)
kind-is_commit page_alloc = inr (inr refl, refl)
kind-is_commit page_dealloc = inr (inr refl, refl)
kind-is_commit blob_append = inr (inr refl, refl)
kind-is_commit txn_commit = inr (inr refl, refl)
kind-is_commit txn_abort = inr (inr refl, refl)
kind-is_commit checkpoint = inr (inr refl, refl)
kind-is_commit put = inr (inl refl, refl)
kind-is_commit delete = inr (inl refl, refl)
kind-is_commit commit = inl (refl, refl)
kind-is_commit put_v2 = inr (inl refl, refl)
kind-is_commit delete_v2 = inr (inl refl, refl)

module _ (crc : Crc32c) (current : Option Manifest) where
  -- A round moves the offset behind its record, and exactly a commit moves the boundary there.
  scan_record_lem :
      (s : Scan) (r : WalRecord) {t : Scan}
      → scan_record crc current s r ≡ ok t
      → (t.offset ≡ s.offset + length (to_bytes crc r))
        × (((is_commit r.record_type ≡ true) × (t.last_commit_end ≡ t.offset))
            ⊎ ((is_commit r.record_type ≡ false)
                × (t.last_commit_end ≡ s.last_commit_end)
                × (t.has_unpublished_commit ≡ s.has_unpublished_commit)))
  unfolding scan_record close_scan
  scan_record_lem s r e = ground (arith, kind-is_commit r.record_type)

  -- Where a scan found its last commit: after `front`, in the state `at`.
  pub record IsBoundary (s : Scan) (rs : List WalRecord) (t : Scan) (front : List WalRecord)
      (back : List WalRecord) (m : Scan) : Type 0 where
    pub committed : front ≡ committed_prefix rs
    pub split : rs ≡ front ++ back
    pub runs : scan_records crc current s front ≡ ok m
    pub last : m.last_commit_end ≡ t.last_commit_end
    pub unpublished : m.has_unpublished_commit ≡ t.has_unpublished_commit
    pub at_offset : m.last_commit_end ≡ m.offset
    pub bytes : m.offset ≡ s.offset + length (encode_all crc front)

  abbrev pub Boundary : Scan → List WalRecord → Scan → Type 0
  Boundary s rs t =
      (front : List WalRecord) × (back : List WalRecord) × (m : Scan) × IsBoundary s rs t front back
        m

  scan_records-Boundary :
      (s : Scan) (rs : List WalRecord) {t : Scan}
      → scan_records crc current s rs ≡ ok t
      → ((has_commit rs ≡ false)
          × (t.last_commit_end ≡ s.last_commit_end)
          × (t.has_unpublished_commit ≡ s.has_unpublished_commit))
        ⊎ ((has_commit rs ≡ true) × Boundary s rs t)
  unfolding scan_records encode_all has_commit committed_prefix
  scan_records-Boundary s [] e = inl (refl, ground arith, ground arith)
  scan_records-Boundary s (r ∷ rs) {t} e =
      let (u, step, more) =
        >>=-eq-ok (scan_record crc current s r) (λ v. scan_records crc current v rs) e in
      let (moved, kinds) = scan_record_lem s r step in
      elim (scan_records-Boundary u rs more) [
        | inl (none_left, last, unpublished) ↦ elim kinds [
          | inl (commits, closed) ↦ inr (
            ground arith,
            (
              r ∷ [],
              rs,
              u,
              record {
                committed = rw (commits, no_commit→committed_prefix rs none_left);
                split = refl;
                runs = rw (step);
                last = sym last;
                unpublished = sym unpublished;
                at_offset = closed;
                bytes = rw append-nil moved;
              },
            ),
          )
          | inr (plain, same, flag) ↦ inl (ground arith, last ∙ same, unpublished ∙ flag)
        ]
        | inr (later, (front, back, m, b)) ↦ inr (
          ground arith,
          (
            r ∷ front,
            back,
            m,
            record {
              committed = ground (arith, b.committed);
              split = ap (λ l. r ∷ l) b.split;
              runs = rw (step) b.runs;
              last = b.last;
              unpublished = b.unpublished;
              at_offset = b.at_offset;
              bytes =
                  omega
                    (arith, b.bytes, moved, length-append (to_bytes crc r) (encode_all crc front));
            },
          ),
        )
      ]

  -- A whole scan finds its boundary, which is the start if there is no commit.
  pub boundary :
      (rs : List WalRecord) {t : Scan}
      → scan_records crc current start rs ≡ ok t
      → Boundary start rs t
  boundary rs {t} e = elim (scan_records-Boundary start rs e) [
    | inl (none_left, last, unpublished) ↦ (
      [],
      rs,
      start,
      record {
        committed = sym (no_commit→committed_prefix rs none_left);
        split = refl;
        runs = unfold scan_records in refl;
        last = sym last;
        unpublished = sym unpublished;
        at_offset = refl;
        bytes = unfold encode_all in omega arith;
      },
    )
    | inr (_, b) ↦ b
  ]
