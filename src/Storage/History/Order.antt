-- ===== src/Storage/History/Order.antt =====
-- A history stays in publication order.
use seerdb.Base.{
  ℕ, zero, suc, ◌≡◌, refl, ap, ◌∙◌, true, none, some, List, [], ◌∷◌, ◌++◌, take, All, All-append,
  All-take, list_eq, list_eq→eq, list_eq_refl, arith, ok, Option-cases, inl, inr, ◌⊎◌,
}
use seerdb.Storage.Format.Manifest.{Manifest, is_newer_than, IsCurrent}
use seerdb.Storage.Format.Manifest.Order.{is_newer_than_trans}
use seerdb.Storage.History.{ManifestHistory, manifest_eq, last, latest, push}

-- Every manifest is newer than those before it.
abbrev pub Ordered : List Manifest → Type 0
Ordered [] = Unit {0}
Ordered (m ∷ ms) = All (λ n. is_newer_than n m ≡ true) ms × Ordered ms

pub manifest_eq→eq : (m n : Manifest) → manifest_eq m n ≡ true → m ≡ n
unfolding manifest_eq
manifest_eq→eq m n e =
    let id : list_eq m.database_id n.database_id ≡ true = ground arith in
    let same = list_eq→eq m.database_id n.database_id id in ground (arith, same)

pub manifest_eq_refl : (m : Manifest) → manifest_eq m m ≡ true
unfolding manifest_eq
manifest_eq_refl m = ground (arith, list_eq_refl m.database_id)

pub last-append_one : (ms : List Manifest) (m : Manifest) → last (ms ++ (m ∷ [])) ≡ some m
unfolding last
last-append_one [] m = refl
last-append_one (n ∷ ms) m = rw (last-append_one ms m)

pub last-eq-none : (ms : List Manifest) → last ms ≡ none → ms ≡ []
unfolding last
last-eq-none [] e = refl
last-eq-none (m ∷ ms) e = ground arith

pub last-nil : {l : Manifest} → last [] ≡ some l → ⊥
unfolding last
last-nil e = cc

pub last-cons :
    (m : Manifest) (ms : List Manifest) {l : Manifest}
    → last (m ∷ ms) ≡ some l
    → ((ms ≡ []) × (l ≡ m)) ⊎ (last ms ≡ some l)
unfolding last
last-cons m ms e = elim (Option-cases (last ms)) [
  | inl empty ↦ inl (last-eq-none ms empty, ground (arith, empty))
  | inr (k, found) ↦ inr (ground (arith, found))
]

pub All-last :
    (P : Manifest → Type 0) (ms : List Manifest) {l : Manifest} → All P ms → last ms ≡ some l → P l
All-last P [] h e = absurd (last-nil e)
All-last P (m ∷ ms) {l} h e = elim (last-cons m ms e) [
  | inl (_, same) ↦ rw same h.0
  | inr found ↦ All-last P ms h.1 found
]

-- A manifest newer than the last one keeps the order.
Ordered-append_one :
    (ms : List Manifest) (m l : Manifest)
    → Ordered ms
    → last ms ≡ some l
    → is_newer_than m l ≡ true
    → Ordered (ms ++ (m ∷ []))
Ordered-append_one [] m l h e newer = (tt, tt)
Ordered-append_one (n ∷ ms) m l h e newer = elim (last-cons n ms e) [
  | inl (empty, same) ↦ rw empty ((rw same at newer, tt), (tt, tt))
  | inr found ↦ (
    All-append (λ k. is_newer_than k n ≡ true) ms (m ∷ []) h.0
        (
          is_newer_than_trans m l n newer (All-last (λ k. is_newer_than k n ≡ true) ms h.0 found),
          tt,
        ),
    Ordered-append_one ms m l h.1 found newer,
  )
]

pub Ordered-take : (k : ℕ) (ms : List Manifest) → Ordered ms → Ordered (take k ms)
Ordered-take zero ms h = tt
Ordered-take (suc k) [] h = tt
Ordered-take (suc k) (m ∷ ms) h =
    (All-take (λ n. is_newer_than n m ≡ true) k ms h.0, Ordered-take k ms h.1)

-- In order, and every manifest of the current format.
pub record IsValid (h : ManifestHistory) : Type 0 where
  pub ordered : Ordered h.manifests
  pub current : All IsCurrent h.manifests

push-IsCurrent :
    (h : ManifestHistory) (m : Manifest) {t : ManifestHistory} → push h m ≡ ok t → IsCurrent m
unfolding push
push-IsCurrent h m e = record { version = ground arith; page_size = ground arith }

pub push-empty :
    (h : ManifestHistory) (m : Manifest) {t : ManifestHistory}
    → latest h ≡ none
    → push h m ≡ ok t
    → t ≡ record { manifests = h.manifests ++ (m ∷ []) }
unfolding push
push-empty h m empty e = ground (arith, empty)

pub push-last :
    (h : ManifestHistory) (m l : Manifest) {t : ManifestHistory}
    → latest h ≡ some l
    → push h m ≡ ok t
    → ((t ≡ h) × (manifest_eq l m ≡ true))
      ⊎ ((t ≡ record { manifests = h.manifests ++ (m ∷ []) }) × (is_newer_than m l ≡ true))
unfolding push
push-last h m l found e = ground (arith, found)

-- A manifest that `push` accepts is the latest afterwards, and the history is valid as before.
pub push_lem :
    (h : ManifestHistory) (m : Manifest) {t : ManifestHistory}
    → IsValid h
    → push h m ≡ ok t
    → IsValid t × (latest t ≡ some m)
unfolding latest
push_lem h m {t} valid e =
    let current : All IsCurrent (h.manifests ++ (m ∷ [])) =
      All-append IsCurrent h.manifests (m ∷ []) valid.current (push-IsCurrent h m e, tt) in
    elim (Option-cases (last h.manifests)) [
      | inl empty ↦
          let none_there = last-eq-none h.manifests empty in
          rw (push-empty h m empty e) (
            record { ordered = rw none_there (tt, tt); current = current },
            last-append_one h.manifests m,
          )
      | inr (l, found) ↦ elim (push-last h m l found e) [
        | inl (same, equal) ↦ rw same (valid, found ∙ ap some (manifest_eq→eq l m equal))
        | inr (appended, newer) ↦ rw appended (
          record {
            ordered = Ordered-append_one h.manifests m l valid.ordered found newer;
            current = current;
          },
          last-append_one h.manifests m,
        )
      ]
    ]
