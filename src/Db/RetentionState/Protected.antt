-- ===== src/Db/RetentionState/Protected.antt =====
-- db/retention_state.rs: the protected offsets are those that some retained root holds.
use seerdb.Base.{
  ℕ, ◌≡◌, refl, ◌∙◌, Bool, true, false, ◌||◌, some, List, [], ◌∷◌, ◌==◌, contains, insert,
  contains-insert, Pair, number_key, lookup, lookup-without, Result, ok, err, stuck, Error, arith,
  Bool-cases, Option-cases, inl, inr,
}
use seerdb.Storage.Format.Manifest.{Manifest}
use seerdb.Storage.Retention.{RetentionRegistry, insert_root, remove_root}
use seerdb.Db.RetentionState.{
  RetentionState, Storage, load, extend, collect_offsets, replace_protected_offsets,
  install_offsets, insert_ephemeral, persisted, insert_manifest, forget, unregistered,
  remove_snapshot, any_root,
}

-- Some snapshot holds the offset.
abbrev pub held_by_any : ℕ → List (Pair ℕ (List ℕ)) → Bool
held_by_any offset [] = false
held_by_any offset (p ∷ ps) = contains offset p.held || held_by_any offset ps

contains-extend :
    (o : ℕ) (offsets protected : List ℕ)
    → contains o (extend offsets protected) ≡ (contains o offsets || contains o protected)
unfolding contains extend
contains-extend o [] protected = refl
contains-extend o (x ∷ xs) protected =
    ground (arith, contains-extend o xs (insert x protected), contains-insert x o protected)

contains-collect_offsets :
    (o : ℕ) (ps : List (Pair ℕ (List ℕ))) (protected : List ℕ)
    → contains o (collect_offsets ps protected) ≡ (held_by_any o ps || contains o protected)
unfolding collect_offsets
contains-collect_offsets o [] protected = refl
contains-collect_offsets o (p ∷ ps) protected = ground (
  arith,
  contains-collect_offsets o ps (extend p.held protected),
  contains-extend o p.held protected,
)

-- The set that reclamation respects is the union of what the snapshots hold.
abbrev pub IsUnion : RetentionState → Type 0
IsUnion s = (o : ℕ) → contains o s.protected_offsets ≡ held_by_any o s.offsets_by_snapshot

replaced-IsUnion : (s : RetentionState) → IsUnion (replace_protected_offsets s)
unfolding replace_protected_offsets contains
replaced-IsUnion s o = contains-collect_offsets o s.offsets_by_snapshot [] ∙ ground arith

pub held_by_any-lookup :
    (o b : ℕ) (offsets : List ℕ) (ps : List (Pair ℕ (List ℕ)))
    → lookup b ps ≡ some offsets
    → contains o offsets ≡ true
    → held_by_any o ps ≡ true
unfolding lookup
held_by_any-lookup o b offsets [] e c = absurd (ground (arith, e))
held_by_any-lookup o b offsets (p ∷ ps) e c = elim (Bool-cases (p.at == b)) [
  | inl here ↦
      let q : p.held ≡ offsets = ground (arith, e) in
      let c' : contains o p.held ≡ true = rw q c in ground (arith, c')
  | inr other ↦
      let e' : lookup b ps ≡ some offsets = ground (arith, e) in
      ground (arith, held_by_any-lookup o b offsets ps e' c)
]

-- One call, whatever the files answer.
pub data Step (files : Storage) : RetentionState → RetentionState → Type 0 where
  inserted :
      (s : RetentionState) (manifest : Manifest) (offsets : List ℕ)
      → Step files s (insert_manifest files s manifest offsets).0
  inserted_ephemeral :
      (s : RetentionState) (manifest : Manifest) (offsets : List ℕ)
      → Step files s (insert_ephemeral s manifest offsets).0
  removed : (s : RetentionState) (id : ℕ) → Step files s (remove_snapshot files s id).0

-- The registry is loaded, its roots' offsets are installed, and calls follow.
pub data Reach (files : Storage) : RetentionState → Type 0 where
  opened :
      (registry : RetentionRegistry) (protected : List ℕ) (offsets : List (Pair ℕ (List ℕ)))
      → Reach files (install_offsets (load registry protected) offsets)
  step : (s t : RetentionState) → Reach files s → Step files s t → Reach files t

ephemeral-IsUnion :
    (s : RetentionState) (manifest : Manifest) (offsets : List ℕ)
    → IsUnion s
    → IsUnion (insert_ephemeral s manifest offsets).0
unfolding insert_ephemeral
ephemeral-IsUnion s manifest offsets h =
    elim (Bool-cases (
      s.next_ephemeral_snapshot_id == 0
      || any_root s.next_ephemeral_snapshot_id s.registry.roots)) [
        | inl refused ↦ rw refused h
        | inr free ↦ rw free (replaced-IsUnion _)
      ]

module _ (files : Storage) where
  persisted-IsUnion :
      (s : RetentionState) (g : RetentionRegistry) (id : ℕ) (offsets : List ℕ)
      (r : Result Error (Unit {0}))
      → IsUnion s
      → IsUnion (persisted s g id offsets r).0
  unfolding persisted
  persisted-IsUnion s g id offsets (ok u) h = replaced-IsUnion _
  persisted-IsUnion s g id offsets (err e) h = h
  persisted-IsUnion s g id offsets stuck h = h

  insert_manifest-IsUnion :
      (s : RetentionState) (manifest : Manifest) (offsets : List ℕ)
      → IsUnion s
      → IsUnion (insert_manifest files s manifest offsets).0
  unfolding insert_manifest
  insert_manifest-IsUnion s manifest offsets h =
      let (g, found) = insert_root s.registry manifest in
      elim (Option-cases ((insert_root s.registry manifest).1)) [
        | inl overflow ↦ rw (overflow, insert_manifest) h
        | inr (id, e) ↦
            rw (e, insert_manifest)
              (persisted-IsUnion s ((insert_root s.registry manifest).0) id offsets
                (files.persist ((insert_root s.registry manifest).0)) h)
      ]

  forget-IsUnion : (s : RetentionState) (id : ℕ) → IsUnion (forget s id)
  unfolding forget
  forget-IsUnion s id = replaced-IsUnion _

  unregistered-IsUnion :
      (s : RetentionState) (g : RetentionRegistry) (id : ℕ) (r : Result Error (Unit {0}))
      → IsUnion s
      → IsUnion (unregistered files s g id r).0
  unfolding unregistered
  unregistered-IsUnion s g id (ok u) h = forget-IsUnion (record s { registry = g }) id
  unregistered-IsUnion s g id (err e) h = h
  unregistered-IsUnion s g id stuck h = h

  remove_snapshot-IsUnion :
      (s : RetentionState) (id : ℕ) → IsUnion s → IsUnion (remove_snapshot files s id).0
  unfolding remove_snapshot
  remove_snapshot-IsUnion s id h = elim (Option-cases (lookup id s.ephemeral_roots)) [
    | inr (root, e) ↦ rw (e, remove_snapshot) (forget-IsUnion _ id)
    | inl e ↦ elim (Option-cases ((remove_root s.registry id).1)) [
      | inl unknown ↦ rw (e, remove_snapshot, unknown) h
      | inr (root, found) ↦
          rw (e, remove_snapshot, found)
            (unregistered-IsUnion s ((remove_root s.registry id).0) id
              (files.persist ((remove_root s.registry id).0)) h)
    ]
  ]

  -- A snapshot that is not the removed one keeps its offsets.
  unregistered-lookup :
      (s : RetentionState) (g : RetentionRegistry) (id b : ℕ) (offsets : List ℕ)
      (r : Result Error (Unit {0}))
      → (id == b) ≡ false
      → lookup b s.offsets_by_snapshot ≡ some offsets
      → lookup b (unregistered files s g id r).0.offsets_by_snapshot ≡ some offsets
  unfolding unregistered forget replace_protected_offsets
  unregistered-lookup s g id b offsets (ok u) apart e =
      lookup-without id b s.offsets_by_snapshot ∙ rw apart e
  unregistered-lookup s g id b offsets (err x) apart e = e
  unregistered-lookup s g id b offsets stuck apart e = e

  remove_snapshot-lookup :
      (s : RetentionState) (id b : ℕ) (offsets : List ℕ)
      → (id == b) ≡ false
      → lookup b s.offsets_by_snapshot ≡ some offsets
      → lookup b (remove_snapshot files s id).0.offsets_by_snapshot ≡ some offsets
  unfolding remove_snapshot forget replace_protected_offsets
  remove_snapshot-lookup s id b offsets apart e =
      elim (Option-cases (lookup id s.ephemeral_roots)) [
        | inr (root, found) ↦
            rw (found, remove_snapshot) (lookup-without id b s.offsets_by_snapshot ∙ rw apart e)
        | inl none_found ↦ elim (Option-cases ((remove_root s.registry id).1)) [
          | inl unknown ↦ rw (none_found, remove_snapshot, unknown) e
          | inr (root, known) ↦
              rw (none_found, remove_snapshot, known)
                (unregistered-lookup s ((remove_root s.registry id).0) id b offsets
                  (files.persist ((remove_root s.registry id).0)) apart e)
        ]
      ]

  Step-IsUnion : (s t : RetentionState) → IsUnion s → Step files s t → IsUnion t
  Step-IsUnion s _ h (inserted _ manifest offsets) = insert_manifest-IsUnion s manifest offsets h
  Step-IsUnion s _ h (inserted_ephemeral _ manifest offsets) =
      ephemeral-IsUnion s manifest offsets h
  Step-IsUnion s _ h (removed _ id) = remove_snapshot-IsUnion s id h

pub Reach-IsUnion :
    (files : Storage) (s : RetentionState) (offset : ℕ)
    → Reach files s
    → contains offset s.protected_offsets ≡ held_by_any offset s.offsets_by_snapshot
unfolding install_offsets
Reach-IsUnion files _ o (opened registry protected offsets) = replaced-IsUnion _ o
Reach-IsUnion files _ o (step s t r one) =
    Step-IsUnion files s t (λ p. Reach-IsUnion files s p r) one o

-- In a reachable state, an offset that a snapshot holds stays protected when another snapshot is removed,
-- whether the removal succeeds or fails.
pub remove_snapshot_protects :
    (files : Storage) (s : RetentionState) (id b offset : ℕ) (offsets : List ℕ)
    → Reach files s
    → (id == b) ≡ false
    → lookup b s.offsets_by_snapshot ≡ some offsets
    → contains offset offsets ≡ true
    → contains offset (remove_snapshot files s id).0.protected_offsets ≡ true
remove_snapshot_protects files s id b o offsets r apart e c =
    let t : RetentionState = (remove_snapshot files s id).0 in
    Reach-IsUnion files t o (step s t r (removed s id))
    ∙ held_by_any-lookup o b offsets t.offsets_by_snapshot
        (remove_snapshot-lookup files s id b offsets apart e) c
