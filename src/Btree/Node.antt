-- ===== src/Btree/Node.antt =====
-- btree/node/access.rs, `Node`: reading and searching a page. A read past the end of the page, at which
-- the program stops, gives the bytes that there are; `Layout` rules it out for a page that is accepted.
pub mod Search
pub mod Route
pub mod Reference
use Prim.Native.Nat.{◌/◌}
use seerdb.Base.{
  ℕ, zero, suc, ◌+◌, ◌-◌, ◌*◌, ◌<◌, Bool, true, false, not, ◌&&◌, ◌||◌, Option, none, some, List,
  [], ◌∷◌, ◌++◌, ◌==◌, ltb, leb, min, length, take, if◌then◌else◌, from_le, slice, get_or, Result,
  ok, err, stuck,
}
use seerdb.Btree.Order.{Ordering, less, equal, greater, compare_keys}
use seerdb.Btree.Page.{
  PageType, internal, leaf, NodeHeader, BlobPointer, header_from_bytes, pointer_from_bytes,
  page_bytes, header_size,
}

pub record Node : Type 0 where
  pub bytes : List ℕ

pub data ValueRef : Type 0 where
  inline : List ℕ → ValueRef
  blob : BlobPointer → ValueRef
  tombstone : ValueRef

abbrev pub header : Node → NodeHeader
header n = header_from_bytes (take 48 n.bytes)

abbrev pub is_internal : Node → Bool
is_internal n = elim ((header n).page_type) [ internal ↦ true | leaf ↦ false ]

abbrev pub is_leaf : Node → Bool
is_leaf n = elim ((header n).page_type) [ internal ↦ false | leaf ↦ true ]

abbrev pub count : Node → ℕ
count n = (header n).count

-- `u16::from_le_bytes`
abbrev pub u16_at : Node → ℕ → ℕ
u16_at n start = from_le (slice n.bytes start (start + 2))

unfoldable pub slot_offset : Node → ℕ → ℕ
slot_offset n index = u16_at n (48 + index * 4)

unfoldable pub slot_key_len : Node → ℕ → ℕ
slot_key_len n index = u16_at n (48 + index * 4 + 2)

unfoldable pub entry_prefix_len : Node → ℕ → ℕ
entry_prefix_len n index = u16_at n (slot_offset n index)

unfoldable pub entry_suffix_len : Node → ℕ → ℕ
entry_suffix_len n index = u16_at n (slot_offset n index + 2)

abbrev pub entry_suffix : Node → ℕ → List ℕ
entry_suffix n index =
    slice n.bytes (slot_offset n index + 4) (slot_offset n index + 4 + entry_suffix_len n index)

-- A key is rebuilt from the key before it.
unfoldable pub key : Node → ℕ → Option (List ℕ)
key n zero = if leb (count n) 0 then none else some (entry_suffix n 0)
key n (suc index) =
    let prev = key n index in
    if leb (count n) (suc index)
    then none
    else if entry_prefix_len n (suc index) == 0
    then some (entry_suffix n (suc index))
    else elim prev [
      | none ↦ none
      | some prev_key ↦
          if ltb (length prev_key) (entry_prefix_len n (suc index))
          then none
          else some (take (entry_prefix_len n (suc index)) prev_key ++ entry_suffix n (suc index))
    ]

-- The offsets of the slots from `index` on.
abbrev pub offsets_from : Node → ℕ → ℕ → List ℕ
offsets_from n index zero = []
offsets_from n index (suc rest) = slot_offset n index ∷ offsets_from n (index + 1) rest

-- `.filter(|&off| off > this_offset).min()`
unfoldable pub next_offset : ℕ → List ℕ → Option ℕ
next_offset this_offset [] = none
next_offset this_offset (x ∷ xs) =
    let rest = next_offset this_offset xs in
    if ltb this_offset x then (elim rest [ none ↦ some x | some y ↦ some (min x y) ]) else rest

-- `.unwrap_or(PAGE_SIZE)`
abbrev pub or_page_end : Option ℕ → ℕ
or_page_end none = 4096
or_page_end (some end) = end

unfoldable pub value : Node → ℕ → Option ValueRef
value n index =
    if leb (count n) index || not (is_leaf n)
    then none
    else let entry_off = slot_offset n index in
      let vt_off = entry_off + 4 + entry_suffix_len n index in
      let value_type = get_or n.bytes vt_off 0 in
      let val_end = or_page_end (next_offset entry_off (offsets_from n 0 (count n))) in
      if value_type == 0
      then some (inline (slice n.bytes (vt_off + 1) val_end))
      else if value_type == 1
      then some (blob (pointer_from_bytes (slice n.bytes (vt_off + 1) (vt_off + 17))))
      else if value_type == 2
      then some tombstone
      else none

unfoldable pub child_id : Node → ℕ → Option ℕ
child_id n index =
    if leb (count n) index || not (is_internal n)
    then none
    else let child_off = slot_offset n index + 4 + entry_suffix_len n index in
      if ltb 4096 (child_off + 8)
      then none
      else some (from_le (slice n.bytes child_off (child_off + 8)))

-- `self.data.get(start..end)` is `None` past the end of the page.
unfoldable pub compare_key : Node → ℕ → List ℕ → Option Ordering
compare_key n index lookup_key =
    if leb (count n) index
    then none
    else if entry_prefix_len n index == 0
    then (if ltb (length n.bytes) (slot_offset n index + 4 + entry_suffix_len n index)
        then none
        else some (compare_keys (entry_suffix n index) lookup_key))
    else elim (key n index) [ none ↦ none | some stored ↦ some (compare_keys stored lookup_key) ]

-- The loop of `child_for_key`, on fuel: the count of the keys is enough. `None` is `ok none`.
unfoldable pub upper_loop : ℕ → Node → List ℕ → ℕ → ℕ → Result (Unit {0}) (Option ℕ)
upper_loop zero n lookup_key lo hi = if ltb lo hi then stuck else ok (some lo)
upper_loop (suc fuel) n lookup_key lo hi =
    let mid = lo + (hi - lo) / 2 in
    let right = upper_loop fuel n lookup_key (mid + 1) hi in
    let left = upper_loop fuel n lookup_key lo mid in
    if not (ltb lo hi) then ok (some lo) else elim (compare_key n mid lookup_key) [
      | none ↦ ok none
      | some o ↦ elim o [ less ↦ right | equal ↦ right | greater ↦ left ]
    ]

unfoldable pub child_for_key : Node → List ℕ → Result (Unit {0}) (Option ℕ)
child_for_key n lookup_key =
    if not (is_internal n) then ok none else elim (upper_loop (count n) n lookup_key 0 (count n)) [
      | stuck ↦ stuck
      | err e ↦ err e
      | ok found ↦ elim found [
        | none ↦ ok none
        | some lo ↦
            if lo == 0 then ok (some ((header n).leftmost_child)) else ok (child_id n (lo - 1))
      ]
    ]

-- `match result`
abbrev pub found_or : Option ℕ → ℕ → Result ℕ ℕ
found_or none lo = err lo
found_or (some index) lo = ok index

-- The loop of `search`, on fuel. `Ok` and `Err` are `ok` and `err`.
unfoldable pub search_loop : ℕ → Node → List ℕ → ℕ → ℕ → Option ℕ → Result ℕ ℕ
search_loop zero n lookup_key lo hi result = if ltb lo hi then stuck else found_or result lo
search_loop (suc fuel) n lookup_key lo hi result =
    let mid = lo + (hi - lo) / 2 in
    let right = search_loop fuel n lookup_key (mid + 1) hi result in
    let here = search_loop fuel n lookup_key lo mid (some mid) in
    let left = search_loop fuel n lookup_key lo mid result in
    if not (ltb lo hi) then found_or result lo else elim (compare_key n mid lookup_key) [
      | none ↦ err mid
      | some o ↦ elim o [ less ↦ right | equal ↦ here | greater ↦ left ]
    ]

unfoldable pub search : Node → List ℕ → Result ℕ ℕ
search n lookup_key =
    if count n == 0 then err 0 else search_loop (count n) n lookup_key 0 (count n) none

-- `(0..self.count()).filter_map(|index| self.key(index))`
unfoldable pub keys_loop : Node → ℕ → ℕ → List (List ℕ)
keys_loop n index zero = []
keys_loop n index (suc rest) =
    let later = keys_loop n (index + 1) rest in
    elim (key n index) [ none ↦ later | some k ↦ k ∷ later ]

unfoldable pub keys : Node → List (List ℕ)
keys n = keys_loop n 0 (count n)
