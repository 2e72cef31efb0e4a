-- ===== src/Storage/History/Reconcile.antt =====
-- The reconciliation of a history with the authoritative manifest: what it keeps.
use seerdb.Base.{
  ℕ, suc, ◌+◌, ◌≡◌, refl, ap, ◌∙◌, true, none, some, List, [], ◌∷◌, ◌++◌, take, All, All-take,
  list_eq, list_eq→eq, arith, ok, ◌==◌, Bool-cases, Option-cases, inl, inr, ◌⊎◌,
}
use seerdb.Storage.Format.Manifest.{Manifest, is_newer_than, IsCurrent}
use seerdb.Storage.History.{
  ManifestHistory, manifest_eq, last, latest, reset, push, position, reconcile_current,
}
use seerdb.Storage.History.Order.{
  IsValid, manifest_eq→eq, manifest_eq_refl, last-append_one, last-eq-none, All-last, Ordered-take,
  push-empty, push-last, push_lem,
}

-- The authority is in the history, which ends with it: every manifest up to it is kept.
abbrev pub IsCutAt : Manifest → ManifestHistory → ManifestHistory → Type 0
IsCutAt current h t =
    (before : List Manifest) × (after : List Manifest) × (h.manifests ≡ before ++ (current ∷ after))
    × (t.manifests ≡ before ++ (current ∷ []))

-- The authority continues the history: every manifest is kept, and it is appended.
abbrev pub IsExtendedBy : Manifest → ManifestHistory → ManifestHistory → Type 0
IsExtendedBy current h t =
    (t.manifests ≡ h.manifests ++ (current ∷ []))
    × ((h.manifests ≡ [])
        ⊎ ((l : Manifest) × (latest h ≡ some l)
            × (l.database_id ≡ current.database_id)
            × (l.history_id ≡ current.history_id)
            × (is_newer_than current l ≡ true)))

-- The latest manifest is of another history of the same database: a new one starts.
abbrev pub IsRestartedAt : Manifest → ManifestHistory → ManifestHistory → Type 0
IsRestartedAt current h t =
    (t.manifests ≡ current ∷ [])
    × ((l : Manifest) × (latest h ≡ some l)
        × (l.database_id ≡ current.database_id)
        × (¬ (l.history_id ≡ current.history_id)))

abbrev pub IsMissing : Manifest → ManifestHistory → Type 0
IsMissing current h = All (λ m. ¬ (m ≡ current)) h.manifests

abbrev pub Reconciled : Manifest → ManifestHistory → ManifestHistory → Type 0
Reconciled current h t =
    IsCutAt current h t
    ⊎ (IsMissing current h × (IsExtendedBy current h t ⊎ IsRestartedAt current h t))

position-some :
    (current : Manifest) (ms : List Manifest) {i : ℕ}
    → position current ms ≡ some i
    → (before : List Manifest) × (after : List Manifest) × (ms ≡ before ++ (current ∷ after))
      × (take (suc i) ms ≡ before ++ (current ∷ []))
unfolding position
position-some current [] e = absurd (ground arith)
position-some current (m ∷ ms) {i} e = elim (Bool-cases (manifest_eq m current)) [
  | inl here ↦
      let first : i ≡ 0 = ground arith in
      let same = manifest_eq→eq m current here in ([], ms, rw same refl, rw (first, same) refl)
  | inr other ↦ elim (Option-cases (position current ms)) [
    | inl none_left ↦ absurd (ground arith)
    | inr (j, found) ↦
        let next : i ≡ suc j = ground (arith, found) in
        let (before, after, split, cut) = position-some current ms found in
        (m ∷ before, after, ap (λ l. m ∷ l) split, rw next (ap (λ l. m ∷ l) cut))
  ]
]

position-none :
    (current : Manifest) (ms : List Manifest)
    → position current ms ≡ none
    → All (λ m. ¬ (m ≡ current)) ms
unfolding position
position-none current [] e = tt
position-none current (m ∷ ms) e = elim (Bool-cases (manifest_eq m current)) [
  | inl here ↦ absurd (ground (arith, Option-cases (position current ms)))
  | inr other ↦ elim (Option-cases (position current ms)) [
    | inr (j, found) ↦ absurd (ground (arith, found))
    | inl missing ↦ (
      λ same. ground (arith, manifest_eq_refl current, rw same at other),
      position-none current ms missing,
    )
  ]
]

-- A manifest that is missing and that `push` accepts is appended.
push-missing :
    (h : ManifestHistory) (current : Manifest) {t : ManifestHistory}
    → IsMissing current h
    → push h current ≡ ok t
    → t.manifests ≡ h.manifests ++ (current ∷ [])
unfolding latest
push-missing h current missing e = elim (Option-cases (last h.manifests)) [
  | inl empty ↦ rw (push-empty h current empty e) refl
  | inr (l, found) ↦ elim (push-last h current l found e) [
    | inr (appended, newer) ↦ rw appended refl
    | inl (same, equal) ↦
        absurd (
          All-last (λ m. ¬ (m ≡ current)) h.manifests missing found
            (manifest_eq→eq l current equal))
  ]
]

-- The branches of `reconcile_current`, by the latest manifest.
reconcile-missing :
    (h : ManifestHistory) (current : Manifest) {t : ManifestHistory}
    → position current h.manifests ≡ none
    → reconcile_current h current ≡ ok t
    → ((push h current ≡ ok t)
        × ((h.manifests ≡ [])
            ⊎ ((l : Manifest) × (latest h ≡ some l)
                × (l.database_id ≡ current.database_id)
                × (l.history_id ≡ current.history_id)
                × (is_newer_than current l ≡ true))))
      ⊎ IsRestartedAt current h t
unfolding reconcile_current reset latest
reconcile-missing h current {t} missing e = elim (Option-cases (last h.manifests)) [
  | inl empty ↦ inl (ground (arith, missing, empty), inl (last-eq-none h.manifests empty))
  | inr (l, found) ↦ elim (Bool-cases (list_eq l.database_id current.database_id)) [
    | inr foreign ↦ absurd (ground (arith, missing, found, foreign))
    | inl database ↦
        let same = list_eq→eq l.database_id current.database_id database in
        elim (Bool-cases (l.history_id == current.history_id)) [
          | inr history ↦ inr (
            ground (arith, missing, found, database, history),
            (l, found, same, λ q. ground (arith, history)),
          )
          | inl history ↦ elim (Bool-cases (is_newer_than current l)) [
            | inr older ↦ absurd (ground (arith, missing, found, database, history, older))
            | inl newer ↦ inl (
              ground (arith, missing, found, database, history, newer),
              inr (l, found, same, ground (arith, history), newer),
            )
          ]
        ]
  ]
]

-- When a valid history is reconciled with a current authority without an error, the result is valid
-- and its latest manifest is the authority. If the authority is in the history, exactly the manifests
-- behind it are dropped. If it is not, it is appended to the whole history when that is empty or when
-- the latest manifest is an older one of the same database and history. Only when the latest one is of
-- another history of the same database is the history replaced by the authority alone.
pub reconcile_current_lem :
    (h : ManifestHistory) (current : Manifest) {t : ManifestHistory}
    → IsValid h
    → IsCurrent current
    → reconcile_current h current ≡ ok t
    → IsValid t × (latest t ≡ some current) × Reconciled current h t
unfolding latest reconcile_current
reconcile_current_lem h current {t} valid authority e =
    elim (Option-cases (position current h.manifests)) [
      | inr (i, found) ↦
          let next : i + 1 ≡ suc i = omega arith in
          let cut : t ≡ record { manifests = take (i + 1) h.manifests } = ground (arith, found) in
          let (before, after, split, kept) = position-some current h.manifests found in
          rw (rw next at cut) (
            record {
              ordered = Ordered-take (suc i) h.manifests valid.ordered;
              current = All-take IsCurrent (suc i) h.manifests valid.current;
            },
            ap last kept ∙ last-append_one before current,
            inl (before, after, split, kept),
          )
      | inl missing ↦
          let apart = position-none current h.manifests missing in
          elim (reconcile-missing h current missing e) [
            | inl (pushed, why) ↦
                let (ends, at) = push_lem h current valid pushed in
                (ends, at, inr (apart, inl (push-missing h current apart pushed, why)))
            | inr (alone, why) ↦
                let whole : t ≡ record { manifests = current ∷ [] } = ground (arith, alone) in
                (
                  rw whole (record { ordered = (tt, tt); current = (authority, tt) }),
                  rw alone (unfold last in refl),
                  inr (apart, inr (alone, why)),
                )
          ]
    ]
