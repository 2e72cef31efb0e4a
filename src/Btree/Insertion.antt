-- ===== src/Btree/Insertion.antt =====
-- btree/node/mutation.rs and btree/node/internal_mutation.rs: entries put into a page.
pub mod Limits
use seerdb.Base.{
  ℕ, zero, suc, ◌+◌, ◌-◌, ◌*◌, Bool, true, false, not, ◌&&◌, ◌||◌, Option, none, some, List, [],
  ◌∷◌, ◌++◌, ◌==◌, ltb, leb, min, length, take, drop, if◌then◌else◌, to_le, zeros, Pair, Result, ok,
  err, stuck, ◌>>=◌,
}
use seerdb.Btree.Page.{PageType, internal, leaf, NodeHeader, header_to_bytes, new_header}
use seerdb.Btree.Node.{
  Node, header, count, is_internal, is_leaf, slot_offset, slot_key_len, entry_prefix_len, key,
  child_id, search, offsets_from, or_page_end,
}

pub data InsertError : Type 0 where
  page_full entry_too_large wrong_node_type : InsertError
  invalid_index duplicate_key : ℕ → InsertError
  value_size_mismatch : (expected actual : ℕ) → InsertError

unfoldable pub new_node : PageType → Node
new_node page_type = record { bytes = header_to_bytes (new_header page_type) ++ zeros 4048 }

-- `self.data[pos..pos + bytes.len()].copy_from_slice(bytes)`
unfoldable pub write_at : Node → ℕ → List ℕ → Node
write_at n pos bytes = record {
  bytes = take pos n.bytes ++ (bytes ++ drop (pos + length bytes) n.bytes);
}

unfoldable pub set_header : Node → NodeHeader → Node
set_header n h = write_at n 0 (header_to_bytes h)

unfoldable pub set_slot_offset : Node → ℕ → ℕ → Node
set_slot_offset n index offset = write_at n (48 + index * 4) (to_le 2 offset)

unfoldable pub set_slot_key_len : Node → ℕ → ℕ → Node
set_slot_key_len n index key_len = write_at n (48 + index * 4 + 2) (to_le 2 key_len)

-- The lowest of some offsets; none when there are none.
unfoldable pub lowest : List ℕ → Option ℕ
lowest [] = none
lowest (x ∷ xs) = elim (lowest xs) [ none ↦ some x | some y ↦ some (min x y) ]

unfoldable pub new_entry_offset : Node → ℕ → Option ℕ
new_entry_offset n entry_size =
    if count n == 0 then some (4096 - entry_size) else elim (lowest (offsets_from n 0 (count n))) [
      | none ↦ some (4096 - entry_size)
      | some min_offset ↦ if ltb min_offset entry_size then none else some (min_offset - entry_size)
    ]

-- `for index in (insertion_point..count).rev()`: the slots above make room for one.
unfoldable pub shift_slots : Node → ℕ → ℕ → Node
shift_slots n insertion_point zero = n
shift_slots n insertion_point (suc rest) =
    let index = insertion_point + rest in
    let moved = set_slot_offset n (index + 1) (slot_offset n index) in
    shift_slots (set_slot_key_len moved (index + 1) (slot_key_len n index)) insertion_point rest

unfoldable pub count_entry : Node → Node
count_entry n =
    let h = header n in
    let min_entry = or_page_end (lowest (offsets_from n 0 (h.count + 1))) in
    set_header n
      (record h { count = h.count + 1; free_space = min_entry - (48 + (h.count + 1) * 4) })

-- What a leaf entry and an internal entry share: the place, the slots and the header.
unfoldable pub place_entry : Node → List ℕ → ℕ → ℕ → Result InsertError Node
place_entry n entry key_len insertion_point =
    if ltb 4044 (length entry)
    then err entry_too_large
    else elim (new_entry_offset n (length entry)) [
      | none ↦ err page_full
      | some entry_offset ↦
          let slot_array_end = 48 + (count n + 1) * 4 in
          let shifted =
            shift_slots (write_at n entry_offset entry) insertion_point
              (count n - insertion_point) in
          let slotted =
            set_slot_key_len (set_slot_offset shifted insertion_point entry_offset) insertion_point
              key_len in
          if ltb entry_offset (slot_array_end + 4) then err page_full else ok (count_entry slotted)
    ]

-- Keys are stored whole: the prefix is empty.
unfoldable pub insert_child_raw : Node → List ℕ → ℕ → ℕ → Result InsertError Node
insert_child_raw n new_key child insertion_point =
    if not (is_internal n) || ltb (count n) insertion_point
    then err wrong_node_type
    else place_entry n (to_le 2 0 ++ (to_le 2 (length new_key) ++ (new_key ++ to_le 8 child)))
        (length new_key) insertion_point

unfoldable pub insert_leaf_value_raw : Node → List ℕ → ℕ → List ℕ → ℕ → Result InsertError Node
insert_leaf_value_raw n new_key value_type value insertion_point =
    if not (is_leaf n)
    then err wrong_node_type
    else place_entry n
        (to_le 2 0 ++ (to_le 2 (length new_key) ++ (new_key ++ (value_type ∷ value))))
        (length new_key) insertion_point
