-- ===== src/Tests/Retention.antt =====
-- Tests of db/retention_state.rs: a durable root and two that are not.
use seerdb.Base.{
  ◌≡◌, refl, true, [], ◌∷◌, contains, insert, number_key, lookup, put, without, ok, err, u64_max,
  invalid_argument,
}
use seerdb.Storage.Retention
use seerdb.Storage.Retention.{RetentionRegistry, insert_root, remove_root, take_root}
use seerdb.Db.RetentionState.{
  RetentionState, Storage, load, extend, collect_offsets, replace_protected_offsets,
  install_offsets, insert_ephemeral, any_root, insert_manifest, persisted, remove_snapshot, forget,
  unregistered,
}
use seerdb.Db.RetentionState.Protected.{
  inserted, inserted_ephemeral, Reach, opened, step, held_by_any, remove_snapshot_protects,
}
use seerdb.Db.RetentionState.Account.{
  Account, opening, insert_call, insert_ephemeral_call, remove_call, credit, takes,
  Account-protected_offsets,
}
use seerdb.Tests.Fixtures.{a_manifest}

-- Files that never fail.
abbrev sound_files : Storage
sound_files = record { persist = λ g. ok tt; remove_blob = λ id. ok tt }

abbrev opened_state : RetentionState
opened_state = install_offsets (load Retention.new []) []

abbrev durable_state : RetentionState
durable_state = (insert_manifest sound_files opened_state a_manifest (4096 ∷ 8192 ∷ [])).0

abbrev pinned_state : RetentionState
pinned_state = (insert_ephemeral durable_state a_manifest (8192 ∷ [])).0

pinned_state-Reach : Reach sound_files pinned_state
pinned_state-Reach =
    step durable_state pinned_state
      (step opened_state durable_state (opened Retention.new [] [])
        (inserted opened_state a_manifest (4096 ∷ 8192 ∷ [])))
      (inserted_ephemeral durable_state a_manifest (8192 ∷ []))

-- The durable root goes; the page that both held stays protected.
remove_test : (remove_snapshot sound_files pinned_state 1).0.protected_offsets ≡ 8192 ∷ []
unfolding Retention.new load install_offsets replace_protected_offsets collect_offsets extend insert
    contains insert_manifest persisted insert_root insert_ephemeral any_root put without lookup
    remove_snapshot remove_root take_root forget unregistered
remove_test = refl

-- Both inserts, and the removal of the durable root.
abbrev removed_state : RetentionState
removed_state = (remove_snapshot sound_files pinned_state 1).0

removed_state-Account :
    Account sound_files removed_state (record { at = u64_max; held = 8192 ∷ [] } ∷ [])
unfolding Retention.new load install_offsets replace_protected_offsets collect_offsets extend insert
    contains insert_manifest persisted insert_root insert_ephemeral any_root put without lookup
    remove_snapshot remove_root take_root forget unregistered credit takes
removed_state-Account = remove_call pinned_state _ 1 (
    insert_ephemeral_call durable_state _ a_manifest (8192 ∷ [])
      (insert_call opened_state [] a_manifest (4096 ∷ 8192 ∷ []) (opening Retention.new [] [])))

Account-protected_offsets_example :
    contains 4096 removed_state.protected_offsets
    ≡ held_by_any 4096 (record { at = u64_max; held = 8192 ∷ [] } ∷ [])
Account-protected_offsets_example =
    Account-protected_offsets sound_files removed_state
      (record { at = u64_max; held = 8192 ∷ [] } ∷ []) 4096 removed_state-Account

remove_snapshot_protects_example :
    contains 8192 (remove_snapshot sound_files pinned_state 1).0.protected_offsets ≡ true
unfolding Retention.new load install_offsets replace_protected_offsets collect_offsets extend insert
    contains insert_manifest persisted insert_root insert_ephemeral any_root put without lookup
remove_snapshot_protects_example =
    remove_snapshot_protects sound_files pinned_state 1 u64_max 8192 (8192 ∷ []) pinned_state-Reach
      refl refl refl

-- A blob image that cannot be removed: the root is forgotten, so that a second try cannot succeed.
abbrev locked_files : Storage
locked_files = record {
  persist = λ g. ok tt;
  remove_blob = λ id. err (invalid_argument "permission denied");
}

retry_test :
    ((remove_snapshot locked_files pinned_state 1).1 ≡ err (invalid_argument "permission denied"))
    × ((remove_snapshot sound_files (remove_snapshot locked_files pinned_state 1).0 1).1
        ≡ err (invalid_argument "unknown retained snapshot"))
unfolding Retention.new load install_offsets replace_protected_offsets collect_offsets extend insert
    contains insert_manifest persisted insert_root insert_ephemeral any_root put without lookup
    remove_snapshot remove_root take_root forget unregistered
retry_test = (refl, refl)
