-- ===== src/Mvcc/Pmt/Map.antt =====
-- The table is a finite map, and its version frontier lies above every mapping.
use seerdb.Base.{
  ℕ, zero, suc, slice, from_le, drop, ◌+◌, ◌<◌, ◌≤◌, ◌≡◌, refl, none, some, List, [], ◌∷◌, All,
  arith, ◌==◌, if◌then◌else◌, saturating_add, max, u64_mod, ◌%◌, ◌^◌, ltb, leb, Bool-cases, inl,
  inr,
}
use seerdb.Mvcc.Pmt.{
  PageMapping, Entry, Pmt, new_mapping, find, without, put, new, get, insert, insert_persisted,
  remove, clear, read_entries, from_bytes, mapping_from_bytes,
}

find-without :
    (a b : ℕ) (es : List Entry) → find b (without a es) ≡ (if a == b then none else find b es)
unfolding find without
find-without a b [] = ground arith
find-without a b (e ∷ es) = ground (arith, find-without a b es)

pub find-put :
    (a b : ℕ) (m : PageMapping) (es : List Entry)
    → find b (put a m es) ≡ (if a == b then some m else find b es)
unfolding find put
find-put a b m es = ground (arith, find-without a b es)

-- Every mapping's version is below the frontier.
abbrev pub IsBelow : ℕ → Entry → Type 0
IsBelow n e = e.mapping.version < n

pub record IsWellFormed (t : Pmt) : Type 0 where
  pub below : All (IsBelow t.next_version) t.mappings
  pub frontier : t.next_version < 2 ^ 64

All-IsBelow : (n m : ℕ) (es : List Entry) → n ≤ m → All (IsBelow n) es → All (IsBelow m) es
All-IsBelow n m [] h all = tt
All-IsBelow n m (e ∷ es) h all = (omega (arith, all.0), All-IsBelow n m es h all.1)

All-without : (P : Entry → Type 0) (a : ℕ) (es : List Entry) → All P es → All P (without a es)
unfolding without
All-without P a [] all = tt
All-without P a (e ∷ es) all = elim (Bool-cases (e.page_id == a)) [
  | inl here ↦ rw here (All-without P a es all.1)
  | inr there ↦ rw there (all.0, All-without P a es all.1)
]

All-find :
    (n a : ℕ) (es : List Entry) {m : PageMapping}
    → All (IsBelow n) es
    → find a es ≡ some m
    → m.version < n
unfolding find
All-find n a [] all e = absurd (ground arith)
All-find n a (f ∷ es) {m} all e = elim (Bool-cases (f.page_id == a)) [
  | inl here ↦ let same : m ≡ f.mapping = ground arith in rw same all.0
  | inr there ↦ let later : find a es ≡ some m = ground arith in All-find n a es all.1 later
]

-- An insertion below the last version returns the mapping that the page had, maps the page to the
-- new location and no other page anew, and gives it a version above that of every mapping.
pub insert_lem :
    (t : Pmt) (page_id file_id offset : ℕ)
    → IsWellFormed t
    → t.next_version + 1 < 2 ^ 64
    → IsWellFormed (insert t page_id file_id offset).0
      × ((insert t page_id file_id offset).1 ≡ get t page_id)
      × ((id : ℕ)
          → get (insert t page_id file_id offset).0 id ≡ (
              if page_id == id then some (new_mapping file_id offset t.next_version) else get t id))
      × ((id : ℕ) (m : PageMapping) → get t id ≡ some m → m.version < t.next_version)
unfolding insert get put
insert_lem t page_id file_id offset h room =
    let next : (t.next_version + 1) % u64_mod ≡ t.next_version + 1 = omega arith in
    rw next (
      record {
        below = (
          omega arith,
          All-without (IsBelow (t.next_version + 1)) page_id t.mappings
              (All-IsBelow t.next_version (t.next_version + 1) t.mappings (omega arith) h.below),
        );
        frontier = room;
      },
      refl,
      λ id. find-put page_id id (new_mapping file_id offset t.next_version) t.mappings,
      λ id m e. All-find t.next_version id t.mappings h.below e,
    )

-- A persisted mapping keeps its version, and the frontier moves above it.
pub insert_persisted_lem :
    (t : Pmt) (page_id : ℕ) (mapping : PageMapping)
    → IsWellFormed t
    → mapping.version + 1 < 2 ^ 64
    → IsWellFormed (insert_persisted t page_id mapping).0
      × ((id : ℕ)
          → get (insert_persisted t page_id mapping).0 id
            ≡ (if page_id == id then some mapping else get t id))
unfolding insert_persisted get put
insert_persisted_lem t page_id mapping h room =
    let above : saturating_add mapping.version 1 ≡ mapping.version + 1 = ground arith in
    rw above (
      record {
        below = (
          omega arith,
          All-without (IsBelow (max t.next_version (mapping.version + 1))) page_id t.mappings (
              All-IsBelow t.next_version (max t.next_version (mapping.version + 1)) t.mappings
                (omega arith) h.below),
        );
        frontier = omega (arith, h.frontier);
      },
      λ id. find-put page_id id mapping t.mappings,
    )

-- A removed page has no mapping and the others keep theirs; the version frontier stays, and so
-- does that of a table that is cleared.
pub remove_lem :
    (t : Pmt) (page_id : ℕ)
    → IsWellFormed t
    → IsWellFormed (remove t page_id).0
      × IsWellFormed (clear t)
      × ((remove t page_id).1 ≡ get t page_id)
      × ((id : ℕ) → get (remove t page_id).0 id ≡ (if page_id == id then none else get t id))
      × ((clear t).next_version ≡ t.next_version)
unfolding remove get clear
remove_lem t page_id h = (
  record {
    below = All-without (IsBelow t.next_version) page_id t.mappings h.below;
    frontier = h.frontier;
  },
  record { below = tt; frontier = h.frontier },
  refl,
  λ id. find-without page_id id t.mappings,
  refl,
)

frontier_next :
    (n v : ℕ) → v + 1 < 2 ^ 64 → (if leb n v then v + 1 else n) ≡ max n (saturating_add v 1)
frontier_next n v room =
    let above : saturating_add v 1 ≡ v + 1 = ground arith in
    rw above (elim (Bool-cases (leb n v)) [
      | inl le ↦ rw le (let h : n ≤ v = ground arith in omega (arith, h))
      | inr gt ↦ rw gt (let h : v < n = ground arith in omega (arith, h))
    ])

-- A round of `from_bytes` that goes on installs the entry as `insert_persisted` does.
read_entries-eq-some :
    (count : ℕ) (rest : List ℕ) (t : Pmt) {u : Pmt}
    → read_entries (suc count) rest t ≡ some u
    → ((mapping_from_bytes (slice rest 8 28)).version + 1 < 2 ^ 64)
      × (read_entries count
            (drop 28 rest)
            (insert_persisted t (from_le (slice rest 0 8)) (mapping_from_bytes (slice rest 8 28))).0
          ≡ some u)
unfolding read_entries insert_persisted
read_entries-eq-some count rest t e =
    let v : ℕ = (mapping_from_bytes (slice rest 8 28)).version in
    elim (Bool-cases (ltb (v + 1) u64_mod)) [
      | inr over ↦ absurd (ground (arith, over))
      | inl fits ↦
          let room : v + 1 < 2 ^ 64 = ground arith in
          (room, rw (read_entries, fits, frontier_next t.next_version v room) at e)
    ]

read_entries-IsWellFormed :
    (count : ℕ) (rest : List ℕ) (t : Pmt) {u : Pmt}
    → IsWellFormed t
    → read_entries count rest t ≡ some u
    → IsWellFormed u
unfolding read_entries
read_entries-IsWellFormed zero rest t {u} h e = let same : u ≡ t = ground arith in rw same h
read_entries-IsWellFormed (suc count) rest t h e =
    let (room, more) = read_entries-eq-some count rest t e in
    read_entries-IsWellFormed count (drop 28 rest) _ (insert_persisted_lem t _ _ h room).0 more

from_bytes-eq-some :
    (bytes : List ℕ) {u : Pmt}
    → from_bytes bytes ≡ some u
    → read_entries (from_le (slice bytes 0 4)) (drop 4 bytes) new ≡ some u
unfolding from_bytes
from_bytes-eq-some bytes e = ground arith

pub new-IsWellFormed : IsWellFormed new
unfolding new
new-IsWellFormed = record { below = tt; frontier = omega arith }

-- Whatever the bytes, a table that is read from them has its version frontier above every mapping.
pub pmt_from_bytes-IsWellFormed :
    (bytes : List ℕ) {u : Pmt} → from_bytes bytes ≡ some u → IsWellFormed u
pmt_from_bytes-IsWellFormed bytes e =
    read_entries-IsWellFormed _ (drop 4 bytes) new new-IsWellFormed (from_bytes-eq-some bytes e)
