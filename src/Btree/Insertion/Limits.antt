-- ===== src/Btree/Insertion/Limits.antt =====
-- btree/node.rs, `MAX_KEY_SIZE`: the longest key against the room of a page.
use seerdb.Base.{
  ℕ, ◌+◌, ◌-◌, ◌<◌, ◌≤◌, ◌≡◌, ◌↔◌, refl, true, false, List, ◌++◌, length, length-append,
  length-to_le, to_le, from_le, ltb, err, arith, Bool-cases, inl, inr,
}
use seerdb.Btree.Page.{internal, new_header, header_to_bytes, header_from_bytes, page_type_of}
use seerdb.Btree.Node.{count, is_internal}
use seerdb.Btree.Insertion.{page_full, new_node, insert_child_raw, place_entry, new_entry_offset}

length-child_entry :
    (k : List ℕ) (child : ℕ)
    → length (to_le 2 0 ++ (to_le 2 (length k) ++ (k ++ to_le 8 child))) ≡ length k + 12
length-child_entry k child =
    rw
      (
        length-append (to_le 2 0) (to_le 2 (length k) ++ (k ++ to_le 8 child)),
        length-append (to_le 2 (length k)) (k ++ to_le 8 child),
        length-append k (to_le 8 child),
        length-to_le 2 0,
        length-to_le 2 (length k),
        length-to_le 8 child,
      )
      (omega arith)

empty_count : count (new_node internal) ≡ 0
unfolding new_node new_header header_to_bytes header_from_bytes to_le from_le
empty_count = refl

empty_is_internal : is_internal (new_node internal) ≡ true
unfolding new_node new_header header_to_bytes header_from_bytes to_le from_le page_type_of
empty_is_internal = refl

-- An empty internal page refuses a separator whose key is within `MAX_KEY_SIZE`, 4,032 bytes, as if it were
-- full, exactly when the key is longer than 4,028 bytes.
pub insert_child_limit :
    (new_key : List ℕ) (child : ℕ)
    → length new_key ≤ 4032
    → (insert_child_raw (new_node internal) new_key child 0 ≡ err page_full)
      ↔ (4028 < length new_key)
unfolding insert_child_raw place_entry new_entry_offset
insert_child_limit k child h =
    let size = length-child_entry k child in
    let fits : ltb 4044 (length k + 12) ≡ false = ground arith in
    elim (Bool-cases (ltb (4096 - (length k + 12)) 56)) [
      | inl full ↦
          let long : 4028 < length k = ground arith in
          rw (empty_is_internal, empty_count, size, fits, empty_count, full) (λ e. long, λ b. refl)
      | inr room ↦
          let short : length k ≤ 4028 = ground arith in
          rw (empty_is_internal, empty_count, size, fits, empty_count, room)
            (λ e. absurd (ground (arith, e)), λ b. absurd (omega arith))
    ]
