-- ===== src/Tests/Transaction.antt =====
-- Tests of db/transaction.rs over a database that keeps two rows and counts its commits.
use seerdb.Base.{
  ℕ, ◌+◌, ◌≡◌, refl, false, some, none, List, [], ◌∷◌, Pair, lookup, without, ok, err,
  serialization_conflict,
}
use seerdb.Btree.Order.{compare_keys}
use seerdb.Db.Batch.{put, delete, DurabilityStatus, Engine, commit_batch_at, admit}
use seerdb.Db.Transaction.{
  bytes_key, active, committed, BatchTransaction, get, range, scan, tree_insert, collect, overlay,
  check_active, attempted_commit, commit, abort, release, release_lease, after_publish, published,
}
use seerdb.Db.Transaction.Overlay.{view_after}
use seerdb.Db.Transaction.Reads.{get-view_after, range-get}
use seerdb.Db.Transaction.States.{abort_called, done, next, IsSettled, Steps-IsSettled}
use seerdb.Db.Transaction.Conflict.{commit_on_base}

abbrev two_rows : List (Pair (List ℕ) (List ℕ))
two_rows = record { at = 1 ∷ []; held = 10 ∷ [] } ∷ record { at = 2 ∷ []; held = 20 ∷ [] } ∷ []

abbrev status_of : ℕ → DurabilityStatus
status_of d = record { commit_id = d; write_fenced = false }

-- The database is the number of its commits.
abbrev counting : Engine ℕ
counting = record {
  commit_id = λ d. d;
  pending_mutations = λ d. 0;
  check_writable = λ d. ok tt;
  check_maintenance_idle = λ d. ok tt;
  durability_status = status_of;
  prepare_and_install = λ d ms. (d + 1, ok (status_of (d + 1)));
  get_at = λ d s key. ok (lookup key two_rows);
  range_at = λ d s start end. ok two_rows;
  release_root = λ d s. (d, ok tt);
}

abbrev writer : BatchTransaction
writer = record {
  base_commit = 5;
  snapshot_id = 9;
  lease = some (record { snapshot_id = 9; released = false });
  mutations = put (3 ∷ []) (30 ∷ []) ∷ delete (1 ∷ []) ∷ put (3 ∷ []) (31 ∷ []) ∷ [];
  state = active;
}

abbrev other : BatchTransaction
other = record writer { mutations = delete (2 ∷ []) ∷ [] }

get_test :
    (get counting writer 5 (3 ∷ []) ≡ ok (some (31 ∷ [])))
    × (get counting writer 5 (1 ∷ []) ≡ ok none)
unfolding get check_active scan lookup
get_test = (refl, refl)

range_test :
    range counting writer 5 (1 ∷ []) (9 ∷ [])
    ≡ ok (record { at = 2 ∷ []; held = 20 ∷ [] } ∷ record { at = 3 ∷ []; held = 31 ∷ [] } ∷ [])
unfolding range check_active collect overlay tree_insert compare_keys without
range_test = refl

writer_commits : (commit counting writer 5).transaction.state ≡ committed
unfolding commit check_active attempted_commit published commit_batch_at admit after_publish release
    release_lease
writer_commits = refl

get-view_after_example :
    get counting writer 5 (1 ∷ []) ≡ ok (view_after writer.mutations (1 ∷ []) (some (10 ∷ [])))
unfolding lookup
get-view_after_example = get-view_after counting writer 5 (1 ∷ []) (some (10 ∷ [])) refl refl

range-get_example :
    (seen : List (Pair (List ℕ) (List ℕ))) × (range counting writer 5 (1 ∷ []) (9 ∷ []) ≡ ok seen)
    × (get counting writer 5 (3 ∷ []) ≡ ok (lookup (3 ∷ []) seen))
unfolding lookup compare_keys
range-get_example =
    range-get counting writer 5 (1 ∷ []) (9 ∷ []) (3 ∷ []) two_rows refl refl (refl, (refl, tt))
      refl refl

abbrev committed_writer : BatchTransaction
committed_writer = (commit counting writer 5).transaction

Steps-IsSettled_example :
    IsSettled committed_writer ((abort counting committed_writer 6).transaction)
unfolding commit check_active attempted_commit published commit_batch_at admit after_publish release
    release_lease
Steps-IsSettled_example =
    Steps-IsSettled counting committed_writer ((abort counting committed_writer 6).transaction) refl
      (next committed_writer _ _ (abort_called committed_writer 6) (done _))

commit_on_base_example :
    (counting.commit_id 5 ≡ writer.base_commit)
    × ((s : DurabilityStatus) × ((commit_batch_at counting 5 5 writer.mutations).1 ≡ ok s))
commit_on_base_example = commit_on_base counting writer 5 refl writer_commits

-- The second transaction fails with a conflict and stays active.
other_conflicts :
    (commit counting other (commit counting writer 5).database).result
    ≡ err (serialization_conflict 5 6)
unfolding commit check_active attempted_commit published commit_batch_at admit after_publish release
    release_lease
other_conflicts = refl
