-- ===== src/Db/Batch.antt =====
-- db/batch.rs, `commit_batch_at`: the guards before a batch is prepared and installed.
-- `Engine` is what the batch and the transactions use of the rest of `DB`.
use seerdb.Base.{
  ℕ, Bool, not, Option, none, some, List, [], ◌∷◌, ◌==◌, if◌then◌else◌, Pair, Result, ok, err,
  stuck, ◌>>◌, Error, serialization_conflict, invalid_argument,
}

-- `BatchMutation` of db/transaction.rs.
pub data BatchMutation : Type 0 where
  put : (key value : List ℕ) → BatchMutation
  delete : (key : List ℕ) → BatchMutation

-- `DurabilityStatus`, of which the commit is used.
pub record DurabilityStatus : Type 0 where
  pub commit_id : ℕ
  pub write_fenced : Bool

-- What `commit_batch_at` and the transactions call, with no assumption on it: `prepare_and_install` is
-- `prepare_batch` and `install_batch`, the `_at` reads are those of the snapshot with this ID, and
-- `release_root` is the release of a retained root.
pub record Engine (D : Type 0) : Type 0 where
  pub commit_id : D → ℕ
  pub pending_mutations : D → ℕ
  pub check_writable : D → Result Error (Unit {0})
  pub check_maintenance_idle : D → Result Error (Unit {0})
  pub durability_status : D → DurabilityStatus
  pub prepare_and_install : D → List BatchMutation → D × Result Error DurabilityStatus
  pub get_at : D → ℕ → List ℕ → Result Error (Option (List ℕ))
  pub range_at : D → ℕ → List ℕ → List ℕ → Result Error (List (Pair (List ℕ) (List ℕ)))
  pub release_root : D → ℕ → D × Result Error (Unit {0})

module _ {D : Type 0} (db : Engine D) where
  -- What the guards refuse; `ok` of a status is an empty batch.
  unfoldable pub admit : D → ℕ → List BatchMutation → Result Error (Option DurabilityStatus)
  admit d expected_commit mutations =
      db.check_writable d
      >> (db.check_maintenance_idle d
          >> (if not (db.commit_id d == expected_commit)
              then err (serialization_conflict expected_commit (db.commit_id d))
              else elim mutations [
                | [] ↦ ok (some (db.durability_status d))
                | m ∷ ms ↦
                    if not (db.pending_mutations d == 0)
                    then err (
                        invalid_argument
                          "commit_batch requires a clean pending generation; flush or discard pending mutations first")
                    else ok none
              ]))

  unfoldable pub commit_batch_at : D → ℕ → List BatchMutation → D × Result Error DurabilityStatus
  commit_batch_at d expected_commit mutations = elim (admit d expected_commit mutations) [
    | stuck ↦ (d, stuck)
    | err e ↦ (d, err e)
    | ok answer ↦ elim answer [
      | some status ↦ (d, ok status)
      | none ↦ db.prepare_and_install d mutations
    ]
  ]

  unfoldable pub commit_batch : D → List BatchMutation → D × Result Error DurabilityStatus
  commit_batch d mutations = commit_batch_at d (db.commit_id d) mutations
