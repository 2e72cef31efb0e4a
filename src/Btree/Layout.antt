-- ===== src/Btree/Layout.antt =====
-- btree/node/page_format.rs, `validate_layout` and `Node::from_bytes`: which pages are accepted.
pub mod Keys
use seerdb.Base.{
  ℕ, zero, suc, ◌+◌, ◌-◌, ◌*◌, ◌<◌, Bool, true, false, not, ◌&&◌, ◌||◌, Option, none, some, List,
  [], ◌∷◌, ◌++◌, ◌==◌, ltb, leb, min, length, take, if◌then◌else◌, slice, get_or,
}
use seerdb.Btree.Order.{key_leb}
use seerdb.Btree.Page.{header_try_from_bytes}
use seerdb.Btree.Node.{
  Node, header, count, is_internal, slot_offset, slot_key_len, entry_prefix_len, entry_suffix_len,
  offsets_from,
}

-- `header.count` bounds the slot array.
unfoldable pub slots_fit : Node → Bool
slots_fit n = not (ltb 1012 (count n) || ltb 4096 (48 + count n * 4))

-- Each entry lies behind the slots and inside the page.
unfoldable pub offsets_fit : ℕ → List ℕ → Bool
offsets_fit slot_end [] = true
offsets_fit slot_end (x ∷ xs) =
    let rest = offsets_fit slot_end xs in if ltb x slot_end || leb 4096 x then false else rest

-- `sort_unstable`
unfoldable pub insert_sorted : ℕ → List ℕ → List ℕ
insert_sorted a [] = a ∷ []
insert_sorted a (x ∷ xs) = let rest = insert_sorted a xs in if leb a x then a ∷ x ∷ xs else x ∷ rest

unfoldable pub sort : List ℕ → List ℕ
sort [] = []
sort (x ∷ xs) = insert_sorted x (sort xs)

-- `windows(2).any(|window| window[0] == window[1])`
unfoldable pub has_twins : List ℕ → Bool
has_twins [] = false
has_twins (x ∷ xs) = elim xs [ [] ↦ false | y ∷ ys ↦ x == y ] || has_twins xs

-- `offsets.iter().copied().min().unwrap_or(PAGE_SIZE)`, for offsets inside the page.
unfoldable pub min_entry : List ℕ → ℕ
min_entry [] = 4096
min_entry (x ∷ xs) = min x (min_entry xs)

-- The start of the next entry, or the end of the page; none for an offset that is not there.
unfoldable pub entry_end : ℕ → List ℕ → Option ℕ
entry_end offset [] = none
entry_end offset (x ∷ xs) =
    let rest = entry_end offset xs in
    if offset == x then (elim xs [ [] ↦ some 4096 | y ∷ ys ↦ some y ]) else rest

-- The payload behind the key: a child, or a value with its type.
unfoldable pub payload_fits : Node → ℕ → ℕ → Bool
payload_fits n suffix_end entry_end =
    if is_internal n
    then not (ltb entry_end (suffix_end + 8))
    else if leb entry_end suffix_end
    then false
    else let value_type = get_or n.bytes suffix_end 0 in
      if value_type == 0 || value_type == 2
      then true
      else value_type == 1 && leb (suffix_end + 1 + 16) entry_end

-- The body of the loop over the entries: the key, or none when the entry is refused.
unfoldable pub check_entry : Node → List ℕ → ℕ → List ℕ → Option (List ℕ)
check_entry n sorted_offsets index previous_key =
    let offset = slot_offset n index in
    let prefix_len = entry_prefix_len n index in
    let suffix_end = offset + 4 + entry_suffix_len n index in
    let key = take prefix_len previous_key ++ slice n.bytes (offset + 4) suffix_end in
    elim (entry_end offset sorted_offsets) [
      | none ↦ none
      | some entry_end ↦
          if leb entry_end offset || (ltb 4096 entry_end || ltb entry_end (offset + 4))
          then none
          else if ltb entry_end suffix_end
          then none
          else if not (slot_key_len n index == prefix_len + entry_suffix_len n index)
          then none
          else if ltb (length previous_key) prefix_len
          then none
          else if not (key_leb previous_key key)
          then none
          else if payload_fits n suffix_end entry_end
          then some key
          else none
    ]

unfoldable pub check_entries : Node → List ℕ → ℕ → ℕ → List ℕ → Bool
check_entries n sorted_offsets zero index previous_key = true
check_entries n sorted_offsets (suc rest) index previous_key =
    elim (check_entry n sorted_offsets index previous_key) [
      | none ↦ false
      | some key ↦ check_entries n sorted_offsets rest (index + 1) key
    ]

unfoldable pub validate_layout : Node → Bool
validate_layout n =
    let slot_end = 48 + count n * 4 in
    let offsets = offsets_from n 0 (count n) in
    if not (slots_fit n)
    then false
    else if not (offsets_fit slot_end offsets)
    then false
    else if has_twins (sort offsets)
    then false
    else if not ((header n).free_space == min_entry offsets - slot_end)
    then false
    else check_entries n (sort offsets) (count n) 0 []

unfoldable pub from_bytes : List ℕ → Option Node
from_bytes bytes =
    let n : Node = record { bytes = bytes } in
    elim (header_try_from_bytes (take 48 bytes)) [
      | none ↦ none
      | some header ↦ if validate_layout n then some n else none
    ]
