-- ===== src/Db/WalReplay.antt =====
-- db/wal_recovery.rs, `recover_from_wal`: the replay of the log's committed mutations.
-- The B-tree and the blob manager are one candidate state, changed through the interface of
-- db/mutation.rs; an error ends the recovery, and the candidate is dropped.
pub mod InOrder
pub mod Commits
use seerdb.Base.{
  ℕ, ◌+◌, ◌%◌, Bool, true, false, not, ◌||◌, Option, none, some, List, [], ◌∷◌, ◌++◌, length, ltb,
  leb, ◌==◌, if◌then◌else◌, u64_mod, Result, Error, ok, err, corruption, ◌>>=◌,
}
use seerdb.Storage.Format.{Crc32c}
use seerdb.Storage.Format.CommitRecord.{CommitRecord}
use seerdb.Storage.Format.Manifest.{Manifest}
use seerdb.Recovery.Record.{
  RecordType, put, delete, commit, put_v2, delete_v2, WalRecord, ParseStatus, corrupt, complete,
  incomplete, to_bytes,
}
use seerdb.Recovery.Parse.{parse_records_with_status}
use seerdb.Db.WalPayload.{decode_put_payload, decode_delete_payload}
use seerdb.Db.WalRecovery.{kind, mutation, commit_envelope, other, closing_commit}

pub data Mutation : Type 0 where
  put_key : List ℕ → List ℕ → Mutation
  delete_key : List ℕ → Mutation

-- `mutation::apply`: the new candidate, and whether the blob image changed.
pub record Applier (S : Type 0) : Type 0 where
  pub apply : Mutation → S → Result Error (S × Bool)

-- The mutation of a record, as the applier's match decodes it.
unfoldable pub decode_mutation : WalRecord → Result Error Mutation
decode_mutation r = elim (r.record_type) [
  | put ↦ decode_put_payload false r.payload >>= λ p. ok (put_key (p.0) (p.1))
  | put_v2 ↦ decode_put_payload true r.payload >>= λ p. ok (put_key (p.0) (p.1))
  | delete ↦ decode_delete_payload false r.payload >>= λ key. ok (delete_key key)
  | delete_v2 ↦ decode_delete_payload true r.payload >>= λ key. ok (delete_key key)
  | commit ↦ err (corruption "commit record appeared in WAL mutation prefix")
  | _ ↦ err (corruption "non-mutation passed to WAL applier")
]

-- The comparison with the authority: whether a commit is published already.
unfoldable pub is_published : Option Manifest → CommitRecord → Result Error Bool
is_published none c = ok false
is_published (some current) c =
    if ltb c.generation_id current.generation_id
    then (if ltb current.commit_id c.commit_id
        then err (corruption "WAL commit frontier is inconsistent with manifest")
        else ok true)
    else if c.generation_id == current.generation_id
    then (if not (c.commit_id == current.commit_id)
        then err (corruption "WAL commit frontier is inconsistent with manifest")
        else if not (c.root_page_id == current.root_page_id)
            || (not (c.mutation_count == current.mutation_count)
                || not (c.digest == current.digest))
        then err (corruption "WAL commit disagrees with authoritative manifest")
        else ok true)
    else if leb c.commit_id current.commit_id
    then err (corruption "WAL commit frontier is inconsistent with manifest")
    else ok false

-- The variables of the loop, the candidate among them.
pub record Replay (S : Type 0) : Type 0 where
  pub store : S
  pub pending : List WalRecord
  pub last_commit : Option CommitRecord
  pub last_commit_offset : ℕ
  pub blob_changed : Bool
  pub offset : ℕ

pub record RecoverySummary (S : Type 0) : Type 0 where
  pub store : S
  pub last_commit : Option CommitRecord
  pub last_commit_offset : ℕ
  pub blob_changed : Bool

module _ {S : Type 0} (applier : Applier S) where
  -- `for mutation in pending.drain(..)`
  unfoldable pub apply_pending : List WalRecord → S → Bool → Result Error (S × Bool)
  apply_pending [] store blob_changed = ok (store, blob_changed)
  apply_pending (r ∷ rs) store blob_changed = decode_mutation r >>= λ m.
      applier.apply m store >>= λ applied. apply_pending rs (applied.0) (blob_changed || applied.1)

  module _ (crc : Crc32c) (current_manifest : Option Manifest) where
    -- What a commit does to the candidate, once it closes its prefix.
    unfoldable pub commit_pending : Replay S → CommitRecord → ℕ → Bool → Result Error (Replay S)
    commit_pending s c next true = ok (record s { pending = []; offset = next })
    commit_pending s c next false = apply_pending s.pending s.store s.blob_changed >>= λ applied.
        ok (record {
          store = applied.0;
          pending = [];
          last_commit = some c;
          last_commit_offset = s.offset;
          blob_changed = applied.1;
          offset = next;
        })

    -- One round of `for record in &records`.
    unfoldable pub replay_record : Replay S → WalRecord → Result Error (Replay S)
    replay_record s r =
        let next = (s.offset + length (to_bytes crc r)) % u64_mod in
        elim (kind r.record_type) [
          | mutation ↦ ok (record s { pending = s.pending ++ (r ∷ []); offset = next })
          | commit_envelope ↦ closing_commit crc s.pending r >>= λ c.
              is_published current_manifest c >>= λ published. commit_pending s c next published
          | other ↦ ok (record s { offset = next })
        ]

    unfoldable pub replay_records : Replay S → List WalRecord → Result Error (Replay S)
    replay_records s [] = ok s
    replay_records s (r ∷ rs) = replay_record s r >>= λ t. replay_records t rs

    unfoldable pub replay_parsed :
        S → List WalRecord × ParseStatus → Result Error (RecoverySummary S)
    replay_parsed store (records, corrupt) = err (corruption "invalid complete WAL record")
    replay_parsed store (records, _) =
        replay_records
          (record {
            store = store;
            pending = [];
            last_commit = none;
            last_commit_offset = 0;
            blob_changed = false;
            offset = 0;
          })
          records
        >>= λ s. ok (record {
          store = s.store;
          last_commit = s.last_commit;
          last_commit_offset = s.last_commit_offset;
          blob_changed = s.blob_changed;
        })

    unfoldable pub recover_from_wal : List ℕ → S → Result Error (RecoverySummary S)
    recover_from_wal wal_data store =
        parse_records_with_status crc wal_data >>= λ parsed. replay_parsed store parsed
