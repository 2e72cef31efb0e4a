-- ===== src/Db/RetentionState/Account.antt =====
-- db/retention_state.rs: the protected offsets against an account of the calls.
use seerdb.Base.{
  ℕ, ◌≡◌, refl, ap, ◌∙◌, Bool, true, false, ◌||◌, none, some, List, Pair, lookup, put, without,
  contains, ◌==◌, Result, ok, err, stuck, Error, number_key, Bool-cases, Option-cases, inl, inr,
}
use seerdb.Storage.Format.Manifest.{Manifest}
use seerdb.Storage.Retention.{RetentionRegistry, insert_root, remove_root}
use seerdb.Db.RetentionState.{
  RetentionState, Storage, load, replace_protected_offsets, install_offsets, insert_ephemeral,
  persisted, insert_manifest, forget, unregistered, remove_snapshot, any_root,
}
use seerdb.Db.RetentionState.Protected.{
  Reach, opened, step, inserted, inserted_ephemeral, removed, held_by_any, Reach-IsUnion,
}

-- The account after an insert: the snapshot that the caller was given holds its offsets.
unfoldable pub credit : List (Pair ℕ (List ℕ)) → Result Error ℕ → List ℕ → List (Pair ℕ (List ℕ))
credit held (ok id) offsets = put id offsets held
credit held _ offsets = held

abbrev is_ok : Result Error (Unit {0}) → Bool
is_ok (ok u) = true
is_ok _ = false

-- Whether a removal takes: the root is an ephemeral one, or a registered one that the registry was
-- made durable without.
unfoldable pub takes : Storage → RetentionState → ℕ → Bool
takes files s id = elim (lookup id s.ephemeral_roots) [
  | some root ↦ true
  | none ↦ elim ((remove_root s.registry id).1) [
    | none ↦ false
    | some root ↦ is_ok (files.persist (remove_root s.registry id).0)
  ]
]

-- The account after a removal.
abbrev pub debit : List (Pair ℕ (List ℕ)) → Bool → ℕ → List (Pair ℕ (List ℕ))
debit held true id = without id held
debit held false id = held

-- A run of the calls with its account: the offsets of the loaded roots, those of every snapshot that an
-- insert returned, and no longer those of a snapshot whose removal took.
pub data Account (files : Storage) : RetentionState → List (Pair ℕ (List ℕ)) → Type 0 where
  opening :
      (registry : RetentionRegistry) (protected : List ℕ) (offsets : List (Pair ℕ (List ℕ)))
      → Account files (install_offsets (load registry protected) offsets) offsets
  insert_call :
      (s : RetentionState) (held : List (Pair ℕ (List ℕ))) (manifest : Manifest) (offsets : List ℕ)
      → Account files s held
      → Account files
          (insert_manifest files s manifest offsets).0
          (credit held (insert_manifest files s manifest offsets).1 offsets)
  insert_ephemeral_call :
      (s : RetentionState) (held : List (Pair ℕ (List ℕ))) (manifest : Manifest) (offsets : List ℕ)
      → Account files s held
      → Account files
          (insert_ephemeral s manifest offsets).0
          (credit held (insert_ephemeral s manifest offsets).1 offsets)
  remove_call :
      (s : RetentionState) (held : List (Pair ℕ (List ℕ))) (id : ℕ)
      → Account files s held
      → Account files (remove_snapshot files s id).0 (debit held (takes files s id) id)

module _ (files : Storage) where
  Account-Reach :
      {s : RetentionState} {held : List (Pair ℕ (List ℕ))} → Account files s held → Reach files s
  Account-Reach (opening registry protected offsets) = opened registry protected offsets
  Account-Reach (insert_call s held manifest offsets a) =
      step s _ (Account-Reach a) (inserted s manifest offsets)
  Account-Reach (insert_ephemeral_call s held manifest offsets a) =
      step s _ (Account-Reach a) (inserted_ephemeral s manifest offsets)
  Account-Reach (remove_call s held id a) = step s _ (Account-Reach a) (removed s id)

  persisted-credit :
      (s : RetentionState) (g : RetentionRegistry) (id : ℕ) (offsets : List ℕ)
      (r : Result Error (Unit {0}))
      → (persisted s g id offsets r).0.offsets_by_snapshot
        ≡ credit s.offsets_by_snapshot (persisted s g id offsets r).1 offsets
  unfolding persisted credit replace_protected_offsets
  persisted-credit s g id offsets (ok u) = refl
  persisted-credit s g id offsets (err e) = refl
  persisted-credit s g id offsets stuck = refl

  insert_manifest-credit :
      (s : RetentionState) (manifest : Manifest) (offsets : List ℕ)
      → (insert_manifest files s manifest offsets).0.offsets_by_snapshot
        ≡ credit s.offsets_by_snapshot (insert_manifest files s manifest offsets).1 offsets
  unfolding insert_manifest credit
  insert_manifest-credit s manifest offsets =
      elim (Option-cases ((insert_root s.registry manifest).1)) [
        | inl overflow ↦ rw (overflow, insert_manifest) refl
        | inr (id, e) ↦
            rw (e, insert_manifest)
              (persisted-credit s ((insert_root s.registry manifest).0) id offsets
                (files.persist ((insert_root s.registry manifest).0)))
      ]

  insert_ephemeral-credit :
      (s : RetentionState) (manifest : Manifest) (offsets : List ℕ)
      → (insert_ephemeral s manifest offsets).0.offsets_by_snapshot
        ≡ credit s.offsets_by_snapshot (insert_ephemeral s manifest offsets).1 offsets
  unfolding insert_ephemeral credit replace_protected_offsets
  insert_ephemeral-credit s manifest offsets =
      elim (Bool-cases (
        s.next_ephemeral_snapshot_id == 0
        || any_root s.next_ephemeral_snapshot_id s.registry.roots)) [
          | inl refused ↦ rw refused refl
          | inr free ↦ rw free refl
        ]

  unregistered-debit :
      (s : RetentionState) (g : RetentionRegistry) (id : ℕ) (r : Result Error (Unit {0}))
      → (unregistered files s g id r).0.offsets_by_snapshot
        ≡ debit s.offsets_by_snapshot (is_ok r) id
  unfolding unregistered forget replace_protected_offsets
  unregistered-debit s g id (ok u) = refl
  unregistered-debit s g id (err e) = refl
  unregistered-debit s g id stuck = refl

  remove_snapshot-debit :
      (s : RetentionState) (id : ℕ)
      → (remove_snapshot files s id).0.offsets_by_snapshot
        ≡ debit s.offsets_by_snapshot (takes files s id) id
  unfolding remove_snapshot takes forget replace_protected_offsets
  remove_snapshot-debit s id = elim (Option-cases (lookup id s.ephemeral_roots)) [
    | inr (root, e) ↦ rw (e, remove_snapshot, takes) refl
    | inl e ↦ elim (Option-cases ((remove_root s.registry id).1)) [
      | inl unknown ↦ rw (e, remove_snapshot, takes, unknown) refl
      | inr (root, found) ↦
          rw (e, remove_snapshot, takes, found)
            (unregistered-debit s ((remove_root s.registry id).0) id
              (files.persist ((remove_root s.registry id).0)))
    ]
  ]

  Account-offsets_by_snapshot :
      {s : RetentionState} {held : List (Pair ℕ (List ℕ))}
      → Account files s held
      → s.offsets_by_snapshot ≡ held
  unfolding install_offsets replace_protected_offsets
  Account-offsets_by_snapshot (opening registry protected offsets) = refl
  Account-offsets_by_snapshot (insert_call s held manifest offsets a) =
      insert_manifest-credit s manifest offsets
      ∙ ap (λ h. credit h ((insert_manifest files s manifest offsets).1) offsets)
          (Account-offsets_by_snapshot a)
  Account-offsets_by_snapshot (insert_ephemeral_call s held manifest offsets a) =
      insert_ephemeral-credit s manifest offsets
      ∙ ap (λ h. credit h ((insert_ephemeral s manifest offsets).1) offsets)
          (Account-offsets_by_snapshot a)
  Account-offsets_by_snapshot (remove_call s held id a) =
      remove_snapshot-debit s id
      ∙ ap (λ h. debit h (takes files s id) id) (Account-offsets_by_snapshot a)

-- Take any run of inserts, ephemeral inserts and removals from a load and an installation of offsets,
-- whatever the file operations return, and keep an account of it: the installed offsets, with those of
-- each insert under the ID that it returned, and without those of each snapshot that was removed (an
-- ephemeral root, or a registered one without which the registry was made durable). A page offset is
-- protected exactly when a snapshot of the account holds it.
pub Account-protected_offsets :
    (files : Storage) (s : RetentionState) (held : List (Pair ℕ (List ℕ))) (offset : ℕ)
    → Account files s held
    → contains offset s.protected_offsets ≡ held_by_any offset held
Account-protected_offsets files s held offset a =
    Reach-IsUnion files s offset (Account-Reach files a)
    ∙ ap (held_by_any offset) (Account-offsets_by_snapshot files a)
