-- ===== src/Tests/Btree.antt =====
-- Tests of btree/: an internal page with two separators.
use seerdb.Base.{
  arith, ◌<◌, ◌↔◌, Result, ◌>>=◌, replicate, length-replicate, ℕ, ◌≡◌, refl, some, List, [], ◌∷◌,
  ◌++◌, length, zeros, to_le, from_le, ok, err,
}
use seerdb.Btree.Insertion.{
  InsertError, page_full, new_node, insert_child_raw, place_entry, new_entry_offset, lowest,
  write_at, shift_slots, set_slot_offset, set_slot_key_len, count_entry, set_header,
}
use seerdb.Btree.Insertion.Limits.{insert_child_limit}
use seerdb.Btree.Order.{compare_keys}
use seerdb.Btree.Page.{
  new_header, NodeHeader, internal, header_to_bytes, header_from_bytes, header_try_from_bytes,
  is_valid, page_type_of,
}
use seerdb.Btree.Node.{
  Node, header, count, slot_offset, slot_key_len, entry_prefix_len, entry_suffix_len, key, child_id,
  compare_key, upper_loop, child_for_key, search_loop, search, keys, keys_loop,
}
use seerdb.Btree.Sorted.{IsSorted}
use seerdb.Btree.Node.Search.{search-position, keys-IsSorted}
use seerdb.Btree.Node.Route.{child_for_key-owner}
use seerdb.Btree.Node.Reference.{owner, separators, position}
use seerdb.Btree.Layout.{
  from_bytes, validate_layout, slots_fit, offsets_fit, insert_sorted, sort, has_twins, min_entry,
  entry_end, payload_fits, check_entry, check_entries,
}

-- The separators "b" and "bd", whose prefix is shared.
abbrev page_header : NodeHeader
page_header = record {
  magic = 0x53454552;
  version = 3;
  page_type = internal;
  count = 2;
  free_space = 4014;
  checksum = 0;
  parent_id = 0;
  leftmost_child = 7;
  write_generation = 1;
}

abbrev page : List ℕ
page =
    header_to_bytes page_header
    ++ (to_le 2 4083
        ++ (to_le 2 1
            ++ (to_le 2 4070
                ++ (to_le 2 2
                    ++ (zeros 4014
                        ++ (to_le 2 1
                            ++ (to_le 2 1
                                ++ ((100 ∷ [])
                                    ++ (to_le 8 9
                                        ++ (to_le 2 0
                                            ++ (to_le 2 1 ++ ((98 ∷ []) ++ to_le 8 8))))))))))))

abbrev node : Node
node = record { bytes = page }

page_length : length page ≡ 4096
unfolding header_to_bytes to_le zeros
page_length = refl

page_accepted : from_bytes page ≡ some node
unfolding from_bytes validate_layout slots_fit offsets_fit insert_sorted sort has_twins min_entry
    entry_end payload_fits check_entry check_entries header_to_bytes to_le from_le zeros
    header_from_bytes header_try_from_bytes is_valid page_type_of slot_offset slot_key_len
    entry_prefix_len entry_suffix_len compare_keys
page_accepted = refl

keys_test : keys node ≡ (98 ∷ []) ∷ (98 ∷ 100 ∷ []) ∷ []
unfolding keys keys_loop key header_to_bytes to_le from_le zeros header_from_bytes page_type_of
    slot_offset entry_prefix_len entry_suffix_len
keys_test = refl

search_test :
    (search node (98 ∷ 100 ∷ []) ≡ ok 1)
    × (search node (98 ∷ 99 ∷ []) ≡ err 1)
    × (search node (99 ∷ []) ≡ err 2)
unfolding search search_loop compare_key compare_keys key header_to_bytes to_le from_le zeros
    header_from_bytes page_type_of slot_offset entry_prefix_len entry_suffix_len
search_test = (refl, refl, refl)

child_for_key_test :
    (child_for_key node (97 ∷ []) ≡ ok (some 7)) × (child_for_key node (98 ∷ 99 ∷ []) ≡ ok (some 8))
unfolding child_for_key upper_loop child_id compare_key compare_keys key header_to_bytes to_le
    from_le zeros header_from_bytes page_type_of slot_offset entry_prefix_len entry_suffix_len
child_for_key_test = (refl, refl)

search-position_example : search node (98 ∷ 99 ∷ []) ≡ position (keys node) (98 ∷ 99 ∷ []) 0
search-position_example = search-position page (98 ∷ 99 ∷ []) page_length page_accepted

keys-IsSorted_example : (length (keys node) ≡ count node) × IsSorted [] (keys node)
keys-IsSorted_example = keys-IsSorted page page_length page_accepted

child_for_key-owner_example :
    child_for_key node (98 ∷ 99 ∷ [])
    ≡ ok (some (owner ((header node).leftmost_child) (separators node) (98 ∷ 99 ∷ [])))
unfolding header_to_bytes to_le from_le header_from_bytes page_type_of
child_for_key-owner_example = child_for_key-owner page (98 ∷ 99 ∷ []) page_length page_accepted refl

abbrev longest_key : List ℕ
longest_key = replicate 4032 0

longest_key_length : length longest_key ≡ 4032
longest_key_length = let z : ℕ = 0 in length-replicate 4032 z

insert_child_limit_example :
    (insert_child_raw (new_node internal) longest_key 5 0 ≡ err page_full)
    ↔ (4028 < length longest_key)
insert_child_limit_example = insert_child_limit longest_key 5 (omega (arith, longest_key_length))

-- A page that a separator was put into is accepted, and routes by it.
inserted_node : Result InsertError Node
inserted_node =
    insert_child_raw (new_node internal) (98 ∷ []) 8 0 >>= λ n. insert_child_raw n (97 ∷ []) 6 0

insertion_test : (inserted_node >>= λ n. ok (keys n)) ≡ ok ((97 ∷ []) ∷ (98 ∷ []) ∷ [])
unfolding inserted_node insert_child_raw place_entry new_entry_offset lowest write_at shift_slots
    set_slot_offset set_slot_key_len count_entry set_header new_node new_header keys keys_loop key
    header_to_bytes to_le from_le zeros header_from_bytes page_type_of slot_offset slot_key_len
    entry_prefix_len entry_suffix_len
insertion_test = refl
