-- ===== src/Mvcc/Pmt.antt =====
-- mvcc/pmt.rs: the page mapping table, from page IDs to their current location on disk.
-- The hash map is an association list in which a page ID stands once; `to_bytes` sorts it.
pub mod Map
use seerdb.Base.{
  ℕ, zero, suc, ◌+◌, ◌*◌, ◌%◌, Bool, true, false, not, Option, none, some, List, [], ◌∷◌, ◌++◌,
  length, drop, ltb, leb, ◌==◌, if◌then◌else◌, to_le, from_le, slice, checked_add, checked_mul,
  saturating_add, max, u32_mod, u64_mod,
}

pub record PageMapping : Type 0 where
  pub file_id : ℕ
  pub offset : ℕ
  pub version : ℕ

abbrev pub new_mapping : ℕ → ℕ → ℕ → PageMapping
new_mapping file_id offset version = record {
  file_id = file_id;
  offset = offset;
  version = version;
}

abbrev pub mapping_size : ℕ
mapping_size = 20

unfoldable pub mapping_to_bytes : PageMapping → List ℕ
mapping_to_bytes m = to_le 4 m.file_id ++ (to_le 8 m.offset ++ to_le 8 m.version)

unfoldable pub mapping_from_bytes : List ℕ → PageMapping
mapping_from_bytes bytes = record {
  file_id = from_le (slice bytes 0 4);
  offset = from_le (slice bytes 4 12);
  version = from_le (slice bytes 12 20);
}

pub record Entry : Type 0 where
  pub page_id : ℕ
  pub mapping : PageMapping

pub record Pmt : Type 0 where
  pub mappings : List Entry
  pub next_version : ℕ

-- `HashMap::get`
unfoldable pub find : ℕ → List Entry → Option PageMapping
find page_id [] = none
find page_id (e ∷ es) =
    let rest = find page_id es in if e.page_id == page_id then some e.mapping else rest

-- `HashMap::remove`
unfoldable pub without : ℕ → List Entry → List Entry
without page_id [] = []
without page_id (e ∷ es) =
    let rest = without page_id es in if e.page_id == page_id then rest else e ∷ rest

-- `HashMap::insert`
unfoldable pub put : ℕ → PageMapping → List Entry → List Entry
put page_id mapping es = record { page_id = page_id; mapping = mapping } ∷ without page_id es

unfoldable pub new : Pmt
new = record { mappings = []; next_version = 1 }

unfoldable pub get : Pmt → ℕ → Option PageMapping
get t page_id = find page_id t.mappings

-- The old mapping is returned beside the table. `next_version += 1` wraps.
unfoldable pub insert : Pmt → ℕ → ℕ → ℕ → Pmt × Option PageMapping
insert t page_id file_id offset = (
  record {
    mappings = put page_id (new_mapping file_id offset t.next_version) t.mappings;
    next_version = (t.next_version + 1) % u64_mod;
  },
  find page_id t.mappings,
)

unfoldable pub insert_persisted : Pmt → ℕ → PageMapping → Pmt × Option PageMapping
insert_persisted t page_id mapping = (
  record {
    mappings = put page_id mapping t.mappings;
    next_version = max t.next_version (saturating_add mapping.version 1);
  },
  find page_id t.mappings,
)

unfoldable pub remove : Pmt → ℕ → Pmt × Option PageMapping
remove t page_id = (record t { mappings = without page_id t.mappings }, find page_id t.mappings)

unfoldable pub contains : Pmt → ℕ → Bool
contains t page_id = elim (find page_id t.mappings) [ none ↦ false | some m ↦ true ]

unfoldable pub len : Pmt → ℕ
len t = length t.mappings

unfoldable pub clear : Pmt → Pmt
clear t = record t { mappings = [] }

unfoldable pub serialized_len : Pmt → ℕ
serialized_len t = 4 + length t.mappings * (8 + mapping_size)

-- `entries.sort_unstable_by_key(|(page_id, _)| **page_id)`
unfoldable pub place : Entry → List Entry → List Entry
place e [] = e ∷ []
place e (f ∷ fs) =
    let rest = place e fs in if leb e.page_id f.page_id then e ∷ (f ∷ fs) else f ∷ rest

unfoldable pub sort_by_page_id : List Entry → List Entry
sort_by_page_id [] = []
sort_by_page_id (e ∷ es) = place e (sort_by_page_id es)

-- `for (&page_id, mapping) in entries`
unfoldable pub encode_entries : List Entry → List ℕ
encode_entries [] = []
encode_entries (e ∷ es) = (to_le 8 e.page_id ++ mapping_to_bytes e.mapping) ++ encode_entries es

unfoldable pub to_bytes : Pmt → List ℕ
to_bytes t = to_le 4 (length t.mappings % u32_mod) ++ encode_entries (sort_by_page_id t.mappings)

-- `for _ in 0..count`, on `buf[pos..]`: the count is of the rounds left.
unfoldable pub read_entries : ℕ → List ℕ → Pmt → Option Pmt
read_entries zero rest t = some t
read_entries (suc count) rest t =
    let page_id = from_le (slice rest 0 8) in
    let mapping = mapping_from_bytes (slice rest 8 28) in
    elim (checked_add mapping.version 1) [
      | none ↦ none
      | some next_version ↦ read_entries count (drop 28 rest) (record {
        mappings = put page_id mapping t.mappings;
        next_version = if leb t.next_version mapping.version then next_version else t.next_version;
      })
    ]

-- `4usize.checked_add(count.checked_mul(8 + SERIALIZED_SIZE)?)?`
unfoldable pub expected_size : ℕ → Option ℕ
expected_size count = elim (checked_mul count (8 + mapping_size)) [
  | none ↦ none
  | some n ↦ checked_add 4 n
]

unfoldable pub from_bytes : List ℕ → Option Pmt
from_bytes bytes =
    let count = from_le (slice bytes 0 4) in
    if ltb (length bytes) 4 then none else elim (expected_size count) [
      | none ↦ none
      | some expected ↦
          if not (length bytes == expected) then none else read_entries count (drop 4 bytes) new
    ]
