-- ===== src/Db/WalReplay/Commits.antt =====
-- Recovery applies exactly the mutations of the unpublished commits.
use seerdb.Base.{
  ℕ, ◌+◌, ◌%◌, ◌≡◌, refl, sym, ap, ◌∙◌, Bool, true, false, Option, some, List, [], ◌∷◌, ◌++◌,
  append-nil, append_assoc, length, All, ==_refl, u64_mod, Result, Error, ok, ◌>>=◌, >>=-assoc,
  >>=-cong, ◌==◌,
}
use seerdb.Storage.Format.{Crc32c}
use seerdb.Storage.Format.CommitRecord
use seerdb.Storage.Format.CommitRecord.{CommitRecord}
use seerdb.Storage.Format.CommitRecord.RoundTrip
use seerdb.Storage.Format.Manifest.{Manifest}
use seerdb.Recovery.Record.{WalRecord, to_bytes, encode_all, new_commit, commit_record}
use seerdb.Recovery.Record.RoundTrip.{IsEncodable}
use seerdb.Recovery.Parse.Complete.{parse-encode_all_whole}
use seerdb.Db.WalRecovery.{kind, mutation, closing_commit, digest_records}
use seerdb.Db.WalReplay.InOrder.{apply_in_order, apply_pending-append, apply_pending-in_order}
use seerdb.Db.WalReplay.{
  Applier, Replay, RecoverySummary, is_published, apply_pending, commit_pending, replay_record,
  replay_records, replay_parsed, recover_from_wal,
}

-- Mutations and the commit that closes them.
pub record Group : Type 0 where
  pub mutations : List WalRecord
  pub commit : CommitRecord

-- The mutation records of the groups, in the order of the log.
unfoldable pub mutations_of : List Group → List WalRecord
mutations_of [] = []
mutations_of (g ∷ gs) = g.mutations ++ mutations_of gs

unfoldable pub log_of : List Group → List WalRecord
log_of [] = []
log_of (g ∷ gs) = g.mutations ++ (new_commit g.commit ∷ log_of gs)

abbrev pub IsMutation : WalRecord → Type 0
IsMutation r = kind r.record_type ≡ mutation

-- A commit of these mutations that the authority has not published.
pub record IsUnpublished (crc : Crc32c) (current : Option Manifest) (g : Group) : Type 0 where
  pub mutations : All IsMutation g.mutations
  pub in_range : CommitRecord.InRange g.commit
  pub count : g.commit.mutation_count ≡ length g.mutations
  pub digest : g.commit.digest ≡ digest_records crc g.mutations
  pub ahead : is_published current g.commit ≡ ok false

module _ {S : Type 0} (applier : Applier S) where
  module _ (crc : Crc32c) (current : Option Manifest) where
    abbrev offset_after : ℕ → List WalRecord → ℕ
    offset_after n [] = n
    offset_after n (r ∷ rs) = offset_after ((n + length (to_bytes crc r)) % u64_mod) rs

    replay_record-mutation :
        (s : Replay S) (m : WalRecord)
        → IsMutation m
        → replay_record applier crc current s m
          ≡ ok (record s {
            pending = s.pending ++ (m ∷ []);
            offset = (s.offset + length (to_bytes crc m)) % u64_mod;
          })
    unfolding replay_record
    replay_record-mutation s m h = rw (h, replay_record)

    closing_commit-new_commit :
        (g : Group)
        → IsUnpublished crc current g
        → closing_commit crc g.mutations (new_commit g.commit) ≡ ok g.commit
    unfolding closing_commit commit_record new_commit
    closing_commit-new_commit g h =
        let counts : (g.commit.mutation_count == length g.mutations) ≡ true =
          rw h.count (==_refl (length g.mutations)) in
        let digests : (g.commit.digest == digest_records crc g.mutations) ≡ true =
          rw h.digest (==_refl (digest_records crc g.mutations)) in
        rw (RoundTrip.from_bytes-to_bytes g.commit h.in_range, counts, digests) refl

    -- A commit that is not published applies what it closes.
    replay_record-commit :
        (s : Replay S) (g : Group)
        → IsUnpublished crc current g
        → s.pending ≡ g.mutations
        → replay_record applier crc current s (new_commit g.commit)
          ≡ commit_pending applier crc current s g.commit
              ((s.offset + length (to_bytes crc (new_commit g.commit))) % u64_mod)
              false
    unfolding replay_record kind
    replay_record-commit s g h e =
        let next : ℕ = (s.offset + length (to_bytes crc (new_commit g.commit))) % u64_mod in
        let step : CommitRecord → Result Error (Replay S) = λ c.
          is_published current c >>= λ published.
          commit_pending applier crc current s c next published in
        unfold new_commit in
        ap (λ l. closing_commit crc l (new_commit g.commit) >>= step) e
        ∙ ap (λ x. x >>= step) (closing_commit-new_commit g h)
        ∙ ap (λ y. y >>= λ published. commit_pending applier crc current s g.commit next published)
            h.ahead

    -- Mutations are only collected.
    replay_records-mutations :
        (s : Replay S) (ms rest : List WalRecord)
        → All IsMutation ms
        → replay_records applier crc current s (ms ++ rest)
          ≡ replay_records applier crc current
              (record s { pending = s.pending ++ ms; offset = offset_after s.offset ms })
              rest
    unfolding replay_records
    replay_records-mutations s [] rest h = rw append-nil refl
    replay_records-mutations s (m ∷ ms) rest h =
        let next : ℕ = (s.offset + length (to_bytes crc m)) % u64_mod in
        let t : Replay S = record s { pending = s.pending ++ (m ∷ []); offset = next } in
        let round : replay_record applier crc current s m ≡ ok t = replay_record-mutation s m h.0 in
        ap (λ x. x >>= λ u. replay_records applier crc current u (ms ++ rest)) round
        ∙ replay_records-mutations t ms rest h.1
        ∙ ap
            (λ l.
              replay_records applier crc current
                (record s { pending = l; offset = offset_after next ms }) rest)
            (append_assoc s.pending (m ∷ []) ms)

    -- The candidate that a replay has reached.
    abbrev result : Replay S → Result Error (S × Bool)
    result s = ok (s.store, s.blob_changed)

    abbrev after_commit : Replay S → Group → S × Bool → Replay S
    after_commit s g applied = record {
      store = applied.0;
      pending = [];
      last_commit = some g.commit;
      last_commit_offset = s.offset;
      blob_changed = applied.1;
      offset = (s.offset + length (to_bytes crc (new_commit g.commit))) % u64_mod;
    }

    -- From the commit of a group on.
    replay_records-commit :
        (s : Replay S) (g : Group) (rest : List WalRecord)
        → IsUnpublished crc current g
        → s.pending ≡ g.mutations
        → (replay_records applier crc current s (new_commit g.commit ∷ rest) >>= result) ≡ (
            apply_pending applier s.pending s.store s.blob_changed >>= λ a.
            replay_records applier crc current (after_commit s g a) rest >>= result)
    unfolding replay_records commit_pending
    replay_records-commit s g rest h e =
        let go : Replay S → Result Error (Replay S) =
          λ u. replay_records applier crc current u rest in
        let applied : Result Error (S × Bool) =
          apply_pending applier s.pending s.store s.blob_changed in
        ap (λ x. (x >>= go) >>= result) (replay_record-commit s g h e)
        ∙ >>=-assoc (applied >>= λ a. ok (after_commit s g a)) go result
        ∙ >>=-assoc applied (λ a. ok (after_commit s g a)) (λ u. go u >>= result)

    replay_records-log_of :
        (s : Replay S) (gs : List Group) (tail : List WalRecord)
        → s.pending ≡ []
        → All (IsUnpublished crc current) gs
        → All IsMutation tail
        → (replay_records applier crc current s (log_of gs ++ tail) >>= result)
          ≡ apply_pending applier (mutations_of gs) s.store s.blob_changed
    unfolding log_of mutations_of
    replay_records-log_of s [] tail empty h ht =
        ap (λ l. replay_records applier crc current s l >>= result) (sym (append-nil tail))
        ∙ ap (λ x. x >>= result) (replay_records-mutations s tail [] ht)
        ∙ unfold replay_records apply_pending in refl
    replay_records-log_of s (g ∷ gs) tail empty h ht =
        let rest : List WalRecord = log_of gs ++ tail in
        let ms : List WalRecord = g.mutations in
        let n : ℕ = offset_after s.offset ms in
        let t : Replay S = record s { pending = ms; offset = n } in
        let collected : s.pending ++ ms ≡ ms = rw empty refl in
        ap (λ l. replay_records applier crc current s l >>= result)
          (append_assoc ms (new_commit g.commit ∷ log_of gs) tail)
        ∙ ap (λ x. x >>= result)
            (replay_records-mutations s ms (new_commit g.commit ∷ rest) h.0.mutations)
        ∙ ap
            (λ l.
              replay_records applier crc current (record s { pending = l; offset = n })
                (new_commit g.commit ∷ rest)
              >>= result)
            collected
        ∙ replay_records-commit t g rest h.0 refl
        ∙ >>=-cong (apply_pending applier ms s.store s.blob_changed)
            (λ a. replay_records applier crc current (after_commit t g a) rest >>= result)
            (λ a. apply_pending applier (mutations_of gs) (a.0) (a.1))
            (λ a. replay_records-log_of (after_commit t g a) gs tail refl h.1 ht)
        ∙ sym (apply_pending-append applier ms (mutations_of gs) s.store s.blob_changed)

    -- What recovery made of the candidate.
    abbrev pub recovered : RecoverySummary S → Result Error (S × Bool)
    recovered s = ok (s.store, s.blob_changed)

    -- The log holds encodable groups that are not published, and mutations without a commit behind
    -- them. Recovery is the in-order application of the groups' mutation records to the store, each
    -- decoded and applied to what the one before it left, and of none of the rest. It fails as that
    -- fails, and it reports a changed blob image exactly when one of the applications does.
    pub recover_from_wal-log_of :
        (gs : List Group) (tail : List WalRecord) (store : S)
        → All (IsUnpublished crc current) gs
        → All IsMutation tail
        → All IsEncodable (log_of gs ++ tail)
        → (recover_from_wal applier crc current (encode_all crc (log_of gs ++ tail)) store
            >>= recovered)
          ≡ apply_in_order applier (mutations_of gs) store
    unfolding recover_from_wal replay_parsed
    recover_from_wal-log_of gs tail store h ht encodable =
        ap (λ x. (x >>= λ parsed. replay_parsed applier crc current store parsed) >>= recovered)
          (parse-encode_all_whole crc (log_of gs ++ tail) encodable)
        ∙ >>=-assoc (replay_records applier crc current _ (log_of gs ++ tail)) _ recovered
        ∙ replay_records-log_of _ gs tail refl h ht
        ∙ apply_pending-in_order applier (mutations_of gs) store
