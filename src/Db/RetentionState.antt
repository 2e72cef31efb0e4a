-- ===== src/Db/RetentionState.antt =====
-- db/retention_state.rs, `RetentionState`: which physical pages the retained roots protect.
-- `Storage` says what the file operations of a call return; the files themselves are left out, and so is
-- the mutex around the protected offsets. A map by snapshot is an association list.
pub mod Protected
pub mod Account
use seerdb.Base.{
  ℕ, ◌+◌, ◌-◌, ◌≡◌, Bool, true, false, not, ◌&&◌, ◌||◌, Option, none, some, List, [], ◌∷◌, ◌++◌,
  ◌==◌, if◌then◌else◌, u64_max, contains, insert, Pair, number_key, lookup, without, put, Result,
  ok, err, stuck, ◌>>=◌, ◌>>◌, Error, wal, invalid_argument,
}
use seerdb.Storage.Format.Manifest.{Manifest}
use seerdb.Storage.Retention.{RetainedRoot, RetentionRegistry, insert_root, remove_root}

pub record RetentionState : Type 0 where
  pub registry : RetentionRegistry
  pub ephemeral_roots : List (Pair ℕ RetainedRoot)
  pub next_ephemeral_snapshot_id : ℕ
  pub protected_offsets : List ℕ
  pub offsets_by_snapshot : List (Pair ℕ (List ℕ))

-- `persist` of a registry, and the removal of a root's blob image when it has one.
pub record Storage : Type 0 where
  pub persist : RetentionRegistry → Result Error (Unit {0})
  pub remove_blob : ℕ → Result Error (Unit {0})

-- `load`, with the registry read from its file, if there is one.
unfoldable pub load : RetentionRegistry → List ℕ → RetentionState
load registry protected_offsets = record {
  registry = registry;
  ephemeral_roots = [];
  next_ephemeral_snapshot_id = u64_max;
  protected_offsets = protected_offsets;
  offsets_by_snapshot = [];
}

-- `protected.extend(offsets)`
unfoldable pub extend : List ℕ → List ℕ → List ℕ
extend [] protected = protected
extend (offset ∷ offsets) protected = extend offsets (insert offset protected)

-- `for offsets in self.offsets_by_snapshot.values()`
unfoldable pub collect_offsets : List (Pair ℕ (List ℕ)) → List ℕ → List ℕ
collect_offsets [] protected = protected
collect_offsets (p ∷ ps) protected = collect_offsets ps (extend p.held protected)

unfoldable pub replace_protected_offsets : RetentionState → RetentionState
replace_protected_offsets s = record s {
  protected_offsets = collect_offsets s.offsets_by_snapshot [];
}

unfoldable pub install_offsets : RetentionState → List (Pair ℕ (List ℕ)) → RetentionState
install_offsets s offsets_by_snapshot =
    replace_protected_offsets (record s { offsets_by_snapshot = offsets_by_snapshot })

-- `roots().iter().any(|root| root.snapshot_id == snapshot_id)`
unfoldable pub any_root : ℕ → List RetainedRoot → Bool
any_root snapshot_id [] = false
any_root snapshot_id (r ∷ rs) = r.snapshot_id == snapshot_id || any_root snapshot_id rs

abbrev root_of : ℕ → Manifest → RetainedRoot
root_of snapshot_id manifest = record { snapshot_id = snapshot_id; manifest = manifest }

unfoldable pub insert_ephemeral :
    RetentionState → Manifest → List ℕ → RetentionState × Result Error ℕ
insert_ephemeral s manifest offsets =
    let snapshot_id = s.next_ephemeral_snapshot_id in
    if snapshot_id == 0 || any_root snapshot_id s.registry.roots
    then (s, err (wal "ephemeral snapshot ID overflow"))
    else (
      replace_protected_offsets (record s {
        next_ephemeral_snapshot_id = snapshot_id - 1;
        ephemeral_roots = put snapshot_id (root_of snapshot_id manifest) s.ephemeral_roots;
        offsets_by_snapshot = put snapshot_id offsets s.offsets_by_snapshot;
      }),
      ok snapshot_id,
    )

-- The new registry is installed when it is durable.
unfoldable pub persisted :
    RetentionState
    → RetentionRegistry
    → ℕ
    → List ℕ
    → Result Error (Unit {0})
    → RetentionState × Result Error ℕ
persisted s candidate snapshot_id offsets (ok u) = (
  replace_protected_offsets (record s {
    registry = candidate;
    offsets_by_snapshot = put snapshot_id offsets s.offsets_by_snapshot;
  }),
  ok snapshot_id,
)
persisted s candidate snapshot_id offsets (err e) = (s, err e)
persisted s candidate snapshot_id offsets stuck = (s, stuck)

unfoldable pub forget : RetentionState → ℕ → RetentionState
forget s snapshot_id =
    replace_protected_offsets
      (record s { offsets_by_snapshot = without snapshot_id s.offsets_by_snapshot })

module _ (files : Storage) where
  unfoldable pub insert_manifest :
      RetentionState → Manifest → List ℕ → RetentionState × Result Error ℕ
  insert_manifest s manifest offsets =
      let (candidate, found) = insert_root s.registry manifest in
      elim found [
        | none ↦ (s, err (wal "snapshot ID overflow"))
        | some snapshot_id ↦ persisted s candidate snapshot_id offsets (files.persist candidate)
      ]

  -- A durable root is forgotten when the registry without it is durable.
  unfoldable pub unregistered :
      RetentionState
      → RetentionRegistry
      → ℕ
      → Result Error (Unit {0})
      → RetentionState × Result Error (Unit {0})
  unregistered s candidate snapshot_id (ok u) =
      (forget (record s { registry = candidate }) snapshot_id, files.remove_blob snapshot_id)
  unregistered s candidate snapshot_id (err e) = (s, err e)
  unregistered s candidate snapshot_id stuck = (s, stuck)

  unfoldable pub remove_snapshot : RetentionState → ℕ → RetentionState × Result Error (Unit {0})
  remove_snapshot s snapshot_id =
      let (candidate, found) = remove_root s.registry snapshot_id in
      elim (lookup snapshot_id s.ephemeral_roots) [
        | some root ↦ (
          forget (record s { ephemeral_roots = without snapshot_id s.ephemeral_roots }) snapshot_id,
          files.remove_blob root.snapshot_id,
        )
        | none ↦ elim found [
          | none ↦ (s, err (invalid_argument "unknown retained snapshot"))
          | some root ↦ unregistered s candidate snapshot_id (files.persist candidate)
        ]
      ]
