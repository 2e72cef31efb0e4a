-- ===== src/Storage/Retention/Registry.antt =====
-- Snapshot IDs are unique, and a root is retained until it is removed.
use seerdb.Base.{
  ℕ, ◌+◌, ◌<◌, ◌≤◌, ◌≡◌, refl, ap, true, false, Option, none, some, List, [], ◌∷◌, ◌++◌, All,
  All-append, contains, Distinct, Distinct-append_one, All-contains, arith, ◌==◌, if◌then◌else◌,
  Bool-cases, Option-cases, inl, inr,
}
use seerdb.Storage.Format.Manifest.{Manifest}
use seerdb.Storage.Retention.{RetainedRoot, RetentionRegistry, insert_root, take_root, remove_root}

abbrev pub ids : List RetainedRoot → List ℕ
ids [] = []
ids (r ∷ rs) = r.snapshot_id ∷ ids rs

abbrev pub IsIssued : ℕ → ℕ → Type 0
IsIssued next id = (0 < id) × (id < next)

-- The IDs are distinct, positive and below the next one.
pub record IsWellFormed (g : RetentionRegistry) : Type 0 where
  pub started : 0 < g.next_snapshot_id
  pub distinct : Distinct (ids g.roots)
  pub issued : All (IsIssued g.next_snapshot_id) (ids g.roots)

-- The manifest that is retained under an ID.
unfoldable pub lookup : ℕ → List RetainedRoot → Option Manifest
lookup id [] = none
lookup id (r ∷ rs) =
    let rest = lookup id rs in if r.snapshot_id == id then some r.manifest else rest

ids-append : (rs ss : List RetainedRoot) → ids (rs ++ ss) ≡ ids rs ++ ids ss
ids-append [] ss = refl
ids-append (r ∷ rs) ss = ap (λ l. r.snapshot_id ∷ l) (ids-append rs ss)

All-weaken : (n m : ℕ) (xs : List ℕ) → n ≤ m → All (IsIssued n) xs → All (IsIssued m) xs
All-weaken n m [] h all = tt
All-weaken n m (x ∷ xs) h all = (omega (arith, all.0), All-weaken n m xs h all.1)

not_issued : (n : ℕ) (xs : List ℕ) → All (IsIssued n) xs → contains n xs ≡ false
not_issued n xs h = elim (Bool-cases (contains n xs)) [
  | inl old ↦ absurd (omega (arith, All-contains (IsIssued n) n xs h old))
  | inr fresh ↦ fresh
]

lookup-append_one :
    (id : ℕ) (rs : List RetainedRoot) (r : RetainedRoot)
    → contains r.snapshot_id (ids rs) ≡ false
    → lookup id (rs ++ (r ∷ [])) ≡ (if r.snapshot_id == id then some r.manifest else lookup id rs)
unfolding lookup contains
lookup-append_one id [] r fresh = refl
lookup-append_one id (s ∷ rs) r fresh = ground (arith, lookup-append_one id rs r (ground arith))

insert_root-eq-some :
    (g : RetentionRegistry) (m : Manifest) {id : ℕ}
    → (insert_root g m).1 ≡ some id
    → (id ≡ g.next_snapshot_id)
      × ((insert_root g m).0 ≡ record {
        next_snapshot_id = g.next_snapshot_id + 1;
        roots = g.roots ++ (record { snapshot_id = g.next_snapshot_id; manifest = m } ∷ []);
      })
unfolding insert_root
insert_root-eq-some g m e = ground arith

-- An insertion that returns an ID issues a new one, retains the manifest under it, and changes no
-- other root; the registry stays well formed.
pub insert_root_lem :
    (g : RetentionRegistry) (m : Manifest) {id : ℕ}
    → IsWellFormed g
    → (insert_root g m).1 ≡ some id
    → IsWellFormed (insert_root g m).0
      × (contains id (ids g.roots) ≡ false)
      × ((other : ℕ)
          → lookup other (insert_root g m).0.roots
            ≡ (if id == other then some m else lookup other g.roots))
insert_root_lem g m h e =
    let (new_id, after) = insert_root-eq-some g m e in
    let fresh = not_issued g.next_snapshot_id (ids g.roots) h.issued in
    let entry : RetainedRoot = record { snapshot_id = g.next_snapshot_id; manifest = m } in
    rw (after, new_id)
      (
        record {
          started = omega arith;
          distinct =
              rw (ids-append g.roots (entry ∷ []))
                (Distinct-append_one (ids g.roots) g.next_snapshot_id h.distinct fresh);
          issued = rw (ids-append g.roots (entry ∷ [])) (
              All-append (IsIssued (g.next_snapshot_id + 1)) (ids g.roots) (g.next_snapshot_id ∷ [])
                (All-weaken g.next_snapshot_id (g.next_snapshot_id + 1) (ids g.roots) (omega arith)
                  h.issued)
                ((omega (arith, h.started), omega arith), tt));
        },
        fresh,
        λ other. lookup-append_one other g.roots entry fresh,
      )

-- What `take_root` does to the roots.
record Taken (id : ℕ) (rs : List RetainedRoot) (found : RetainedRoot) (others : List RetainedRoot)
    : Type 0 where
  named : found.snapshot_id ≡ id
  retained : lookup id rs ≡ some found.manifest
  rest_ids : (x : ℕ) → contains x (ids others) ≡ (if x == id then false else contains x (ids rs))
  rest : (other : ℕ) → lookup other others ≡ (if id == other then none else lookup other rs)

lookup-absent :
    (id : ℕ) (rs : List RetainedRoot) → contains id (ids rs) ≡ false → lookup id rs ≡ none
unfolding lookup contains
lookup-absent id [] e = refl
lookup-absent id (r ∷ rs) e = ground (arith, lookup-absent id rs (ground arith))

take_root-Taken :
    (id : ℕ) (rs : List RetainedRoot) {found : RetainedRoot} {others : List RetainedRoot}
    → Distinct (ids rs)
    → take_root id rs ≡ some (found, others)
    → Taken id rs found others
unfolding take_root lookup contains
take_root-Taken id [] h e = absurd (ground arith)
take_root-Taken id (r ∷ rs) {found} {others} h e = elim (Bool-cases (r.snapshot_id == id)) [
  | inl here ↦
      let first : found ≡ r = ground arith in
      let back : others ≡ rs = ground arith in
      let same : r.snapshot_id ≡ id = ground arith in
      rw (first, back)
        (record {
          named = same;
          retained = ground arith;
          rest_ids = λ x. ground (arith, h.0);
          rest = λ other. ground (arith, h.0, lookup-absent id rs);
        })
  | inr there ↦ elim (Option-cases (take_root id rs)) [
    | inl missing ↦ absurd (ground arith)
    | inr ((f, o), more) ↦
        let t = take_root-Taken id rs h.1 more in
        let same : found ≡ f = ground (arith, more) in
        let front : others ≡ r ∷ o = ground (arith, more) in
        rw (same, front)
          (record {
            named = t.named;
            retained = ground (arith, t.retained);
            rest_ids = λ x. ground (arith, t.rest_ids x);
            rest = λ other. ground (arith, t.rest other);
          })
  ]
]

Distinct-rest :
    (id : ℕ) (rs : List RetainedRoot) {found : RetainedRoot} {others : List RetainedRoot}
    → Distinct (ids rs)
    → take_root id rs ≡ some (found, others)
    → Distinct (ids others)
unfolding take_root
Distinct-rest id [] h e = absurd (ground arith)
Distinct-rest id (r ∷ rs) {found} {others} h e = elim (Bool-cases (r.snapshot_id == id)) [
  | inl here ↦ let back : others ≡ rs = ground arith in rw back h.1
  | inr there ↦ elim (Option-cases (take_root id rs)) [
    | inl missing ↦ absurd (ground arith)
    | inr ((f, o), more) ↦
        let front : others ≡ r ∷ o = ground (arith, more) in
        let t = take_root-Taken id rs h.1 more in
        rw front (ground (arith, h.0, t.rest_ids r.snapshot_id), Distinct-rest id rs h.1 more)
  ]
]

All-ids :
    (P : ℕ → Type 0) (xs ys : List ℕ)
    → All P xs
    → ((x : ℕ) → contains x ys ≡ true → contains x xs ≡ true)
    → All P ys
unfolding contains
All-ids P xs [] h sub = tt
All-ids P xs (y ∷ ys) h sub =
    (All-contains P y xs h (sub y (ground arith)), All-ids P xs ys h (λ x c. sub x (ground arith)))

remove_root-eq-some :
    (g : RetentionRegistry) (id : ℕ) {found : RetainedRoot}
    → (remove_root g id).1 ≡ some found
    → (others : List RetainedRoot) × (take_root id g.roots ≡ some (found, others))
      × ((remove_root g id).0 ≡ record g { roots = others })
unfolding remove_root
remove_root-eq-some g id e = elim (Option-cases (take_root id g.roots)) [
  | inl missing ↦ absurd (ground (arith, missing))
  | inr ((f, o), more) ↦ (o, ground (arith, more), ground (arith, more))
]

-- A removal that returns a root returns the one that was retained under this ID; no other root
-- changes, the ID is retained no more, and the registry stays well formed.
pub remove_root_lem :
    (g : RetentionRegistry) (id : ℕ) {found : RetainedRoot}
    → IsWellFormed g
    → (remove_root g id).1 ≡ some found
    → IsWellFormed (remove_root g id).0
      × (lookup id g.roots ≡ some found.manifest)
      × ((other : ℕ)
          → lookup other (remove_root g id).0.roots
            ≡ (if id == other then none else lookup other g.roots))
remove_root_lem g id h e =
    let (others, taken, after) = remove_root-eq-some g id e in
    let t = take_root-Taken id g.roots h.distinct taken in
    rw after (
      record {
        started = h.started;
        distinct = Distinct-rest id g.roots h.distinct taken;
        issued =
            All-ids (IsIssued g.next_snapshot_id) (ids g.roots) (ids others) h.issued
              (λ x c. ground (arith, t.rest_ids x));
      },
      t.retained,
      t.rest,
    )
