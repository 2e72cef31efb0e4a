-- ===== src/Allocator.antt =====
-- allocator.rs: page IDs, handed out in sequence or taken back from the free list.
-- A `Vec` is a list in its own order, so that `pop` takes the last element.
pub mod Invariant
pub mod Reuse
pub mod Frontier
pub mod Codec
use seerdb.Base.{
  ℕ, zero, suc, ◌+◌, Bool, true, false, ◌||◌, not, Option, none, some, List, [], ◌∷◌, ◌++◌, length,
  ltb, leb, ◌==◌, ◌*◌, ◌%◌, if◌then◌else◌, checked_add, checked_mul, saturating_add, to_le, from_le,
  slice, contains, insert, remove, max, u32_mod,
}

pub record PageAllocator : Type 0 where
  pub next_id : ℕ
  pub free_list : List ℕ
  pub allocated : List ℕ

unfoldable pub with_next_id : ℕ → PageAllocator
with_next_id next_id = record { next_id = next_id; free_list = []; allocated = [] }

-- Page 0 is reserved for the header.
unfoldable pub new : PageAllocator
unfolding with_next_id
new = with_next_id 1

-- `Vec::pop`
unfoldable pub pop : List ℕ → Option (ℕ × List ℕ)
pop [] = none
pop (x ∷ xs) = elim (pop xs) [ none ↦ some (x, []) | some (last, front) ↦ some (last, x ∷ front) ]

unfoldable pub alloc : PageAllocator → PageAllocator × ℕ
alloc a = elim (pop a.free_list) [
  | some (freed, rest) ↦
      (record a { free_list = rest; allocated = insert freed a.allocated }, freed)
  | none ↦ (
    record a { next_id = saturating_add a.next_id 1; allocated = insert a.next_id a.allocated },
    a.next_id,
  )
]

unfoldable pub free : PageAllocator → ℕ → PageAllocator × Bool
free a page_id =
    if contains page_id a.allocated
    then (
      record a {
        free_list = a.free_list ++ (page_id ∷ []);
        allocated = remove page_id a.allocated;
      },
      true,
    )
    else (a, false)

unfoldable pub is_allocated : PageAllocator → ℕ → Bool
is_allocated a page_id = contains page_id a.allocated

unfoldable pub advance_next_id : PageAllocator → ℕ → PageAllocator
advance_next_id a minimum = record a { next_id = max a.next_id minimum }

unfoldable pub serialized_len : PageAllocator → ℕ
serialized_len a = 12 + length a.free_list * 8

-- `for &id in &self.free_list`
unfoldable pub encode_ids : List ℕ → List ℕ
encode_ids [] = []
encode_ids (id ∷ ids) = to_le 8 id ++ encode_ids ids

unfoldable pub to_bytes : PageAllocator → List ℕ
to_bytes a = to_le 8 a.next_id ++ (to_le 4 (length a.free_list % u32_mod) ++ encode_ids a.free_list)

-- `for _ in 0..free_count`: the count is of the rounds left.
unfoldable pub read_ids : ℕ → List ℕ → ℕ → ℕ → List ℕ → List ℕ → Option (List ℕ)
read_ids zero bytes pos next_id seen free_list = some free_list
read_ids (suc count) bytes pos next_id seen free_list =
    let id = from_le (slice bytes pos (pos + 8)) in
    let rest = read_ids count bytes (pos + 8) next_id (insert id seen) (free_list ++ (id ∷ [])) in
    if id == 0 || (leb next_id id || contains id seen) then none else rest

-- `12usize.checked_add(free_count.checked_mul(8)?)?`
unfoldable pub expected_len : ℕ → Option ℕ
expected_len free_count = elim (checked_mul free_count 8) [
  | none ↦ none
  | some n ↦ checked_add 12 n
]

unfoldable pub from_bytes : List ℕ → Option PageAllocator
unfolding expected_len
from_bytes bytes =
    let next_id = from_le (slice bytes 0 8) in
    let free_count = from_le (slice bytes 8 12) in
    if ltb (length bytes) 12
    then none
    else if next_id == 0
    then none
    else elim (expected_len free_count) [
      | none ↦ none
      | some expected ↦
          if not (length bytes == expected)
          then none
          else elim (read_ids free_count bytes 12 next_id [] []) [
            | none ↦ none
            | some free_list ↦
                some (record { next_id = next_id; free_list = free_list; allocated = [] })
          ]
    ]
