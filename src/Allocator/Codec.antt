-- ===== src/Allocator/Codec.antt =====
-- The serialized allocator: what was written is read back, and what is read is well formed.
use seerdb.Base.{
  ℕ, zero, suc, ◌+◌, ◌*◌, ◌%◌, ◌<◌, ◌^◌, ◌≡◌, refl, sym, ap, ap₂, ◌∙◌, true, false, some, List, [],
  ◌∷◌, ◌++◌, append-nil, append_assoc, length, length-append, All, All-append, arith, contains,
  insert, Distinct, Distinct-append_one, contains-insert, contains-append, u32_mod, to_le, from_le,
  slice, slice-append, from_le-to_le, length-to_le,
}
use seerdb.Allocator.{PageAllocator, encode_ids, to_bytes, read_ids, from_bytes, serialized_len}
use seerdb.Allocator.Invariant.{IsWellFormed, InUse}

length-encode_ids : (ids : List ℕ) → length (encode_ids ids) ≡ length ids * 8
unfolding encode_ids
length-encode_ids [] = omega arith
length-encode_ids (id ∷ ids) =
    omega
      (arith, length-append (to_le 8 id) (encode_ids ids), length-to_le 8 id, length-encode_ids ids)

-- `serialized_len` is the length of the serialization.
pub length-to_bytes : (a : PageAllocator) → length (to_bytes a) ≡ serialized_len a
unfolding to_bytes serialized_len
length-to_bytes a = omega (
  arith,
  length-append (to_le 8 a.next_id)
      (to_le 4 (length a.free_list % u32_mod) ++ encode_ids a.free_list),
  length-append (to_le 4 (length a.free_list % u32_mod)) (encode_ids a.free_list),
  length-to_le 8 a.next_id,
  length-to_le 4 (length a.free_list % u32_mod),
  length-encode_ids a.free_list,
)

-- The round for an ID that stands at `pos`, is in used and was not seen.
read_ids_round :
    (count : ℕ) (bytes : List ℕ) (pos next_id : ℕ) (seen acc : List ℕ) (id : ℕ)
    → from_le (slice bytes pos (pos + 8)) ≡ id
    → InUse next_id id
    → contains id seen ≡ false
    → read_ids (suc count) bytes pos next_id seen acc
      ≡ read_ids count bytes (pos + 8) next_id (insert id seen) (acc ++ (id ∷ []))
unfolding read_ids
read_ids_round count bytes pos next_id seen acc id field used fresh = ground arith

read_ids-encode_ids :
    (ids pre : List ℕ) (next_id : ℕ) (seen acc : List ℕ)
    → next_id < 2 ^ 64
    → All (InUse next_id) ids
    → Distinct ids
    → ((id : ℕ) → contains id ids ≡ true → contains id seen ≡ false)
    → read_ids (length ids) (pre ++ encode_ids ids) (length pre) next_id seen acc
      ≡ some (acc ++ ids)
unfolding encode_ids
read_ids-encode_ids [] pre next_id seen acc bound used apart fresh =
    unfold read_ids in ap some (sym (append-nil acc))
read_ids-encode_ids (id ∷ ids) pre next_id seen acc bound used apart fresh =
    let enc : List ℕ = encode_ids ids in
    let field : from_le (slice (pre ++ (to_le 8 id ++ enc)) (length pre) (length pre + 8)) ≡ id =
      ap from_le (
        slice-append (length pre) (length pre + 8) pre (to_le 8 id) enc refl
          (omega (arith, length-to_le 8 id)))
      ∙ from_le-to_le 8 id (omega (arith, used.0)) in
    let new : contains id seen ≡ false = fresh id (unfold contains in ground arith) in
    let next : length pre + 8 ≡ length (pre ++ to_le 8 id) =
      omega (arith, length-append pre (to_le 8 id), length-to_le 8 id) in
    read_ids_round (length ids) (pre ++ (to_le 8 id ++ enc)) (length pre) next_id seen acc id field
      used.0 new
    ∙ ap₂ (λ b p. read_ids (length ids) b p next_id (insert id seen) (acc ++ (id ∷ [])))
        (sym (append_assoc pre (to_le 8 id) enc)) next
    ∙ read_ids-encode_ids ids (pre ++ to_le 8 id) next_id (insert id seen) (acc ++ (id ∷ [])) bound
        used.1 apart.1
        (λ j c. unfold contains in ground (arith, contains-insert id j seen, fresh j, apart.0))
    ∙ ap some (append_assoc acc (id ∷ []) ids)

-- A well-formed allocator whose frontier and free count fit their fields is read back with them; the allocated pages are
-- not stored, and recovery rebuilds them.
pub allocator_from_bytes-to_bytes :
    (a : PageAllocator)
    → IsWellFormed a
    → a.next_id < 2 ^ 64
    → length a.free_list < 2 ^ 32
    → from_bytes (to_bytes a) ≡ some (record a { allocated = [] })
unfolding from_bytes
allocator_from_bytes-to_bytes a h bound few =
    let count : length a.free_list % u32_mod ≡ length a.free_list = omega arith in
    let head : List ℕ = to_le 8 a.next_id ++ to_le 4 (length a.free_list) in
    let bytes_eq : to_bytes a ≡ head ++ encode_ids a.free_list =
      unfold to_bytes in
      rw (
        count,
        append_assoc (to_le 8 a.next_id) (to_le 4 (length a.free_list)) (encode_ids a.free_list),
      ) in
    let size : length head ≡ 12 = unfold to_le in refl in
    let frontier : from_le (slice (head ++ encode_ids a.free_list) 0 8) ≡ a.next_id =
      unfold to_le in from_le-to_le 8 a.next_id bound in
    let number : from_le (slice (head ++ encode_ids a.free_list) 8 12) ≡ length a.free_list =
      unfold to_le in from_le-to_le 4 (length a.free_list) few in
    let ids : read_ids (length a.free_list) (head ++ encode_ids a.free_list) 12 a.next_id [] []
        ≡ some a.free_list =
      rw size at (
        read_ids-encode_ids a.free_list head a.next_id [] [] bound h.free_below h.distinct
          (λ id c. unfold contains in refl)) in
    rw bytes_eq (
      ground (
        arith,
        frontier,
        number,
        ids,
        h.started,
        size,
        length-append head (encode_ids a.free_list),
        length-encode_ids a.free_list,
      ))

-- What a round that goes on has tested.
read_ids-eq-some :
    (count : ℕ) (bytes : List ℕ) (pos next_id : ℕ) (seen acc : List ℕ) {out : List ℕ}
    → read_ids (suc count) bytes pos next_id seen acc ≡ some out
    → InUse next_id (from_le (slice bytes pos (pos + 8)))
      × (contains (from_le (slice bytes pos (pos + 8))) seen ≡ false)
      × (read_ids count bytes
            (pos + 8)
            next_id
            (insert (from_le (slice bytes pos (pos + 8))) seen)
            (acc ++ (from_le (slice bytes pos (pos + 8)) ∷ []))
          ≡ some out)
unfolding read_ids
read_ids-eq-some count bytes pos next_id seen acc e = ground arith

read_ids_sound :
    (count : ℕ) (bytes : List ℕ) (pos next_id : ℕ) (seen acc : List ℕ) {out : List ℕ}
    → read_ids count bytes pos next_id seen acc ≡ some out
    → ((id : ℕ) → contains id seen ≡ contains id acc)
    → All (InUse next_id) acc
    → Distinct acc
    → All (InUse next_id) out × Distinct out
unfolding read_ids
read_ids_sound zero bytes pos next_id seen acc {out} e same used apart =
    let done : out ≡ acc = ground arith in rw done (used, apart)
read_ids_sound (suc count) bytes pos next_id seen acc e same used apart =
    let id : ℕ = from_le (slice bytes pos (pos + 8)) in
    let (fits, fresh, rest) = read_ids-eq-some count bytes pos next_id seen acc e in
    let out : contains id acc ≡ false = sym (same id) ∙ fresh in
    read_ids_sound count bytes (pos + 8) next_id (insert id seen) (acc ++ (id ∷ [])) rest
      (λ j.
        unfold contains in
        ground (arith, contains-insert id j seen, contains-append j acc (id ∷ []), same j))
      (All-append (InUse next_id) acc (id ∷ []) used (fits, tt))
      (Distinct-append_one acc id apart out)

from_bytes-eq-some :
    (bytes : List ℕ) {a : PageAllocator}
    → from_bytes bytes ≡ some a
    → (0 < a.next_id)
      × (a.allocated ≡ [])
      × (length bytes ≡ 12 + from_le (slice bytes 8 12) * 8)
      × (read_ids (from_le (slice bytes 8 12)) bytes 12 a.next_id [] [] ≡ some a.free_list)
unfolding from_bytes
from_bytes-eq-some bytes e = ground arith

-- Whatever the bytes, an allocator that is read from them is well formed: the stored IDs are
-- distinct, positive and below the frontier.
pub allocator_from_bytes-IsWellFormed :
    (bytes : List ℕ) {a : PageAllocator} → from_bytes bytes ≡ some a → IsWellFormed a
allocator_from_bytes-IsWellFormed bytes {a} e =
    let (started, unallocated, size, ids) = from_bytes-eq-some bytes e in
    let (below, apart) =
      read_ids_sound (from_le (slice bytes 8 12)) bytes 12 a.next_id [] [] ids (λ id. refl) tt tt in
    let nothing : (id : ℕ) → contains id a.allocated ≡ false =
      λ id. rw unallocated (unfold contains in refl) in
    record {
      started = started;
      distinct = apart;
      free_below = below;
      allocated_below = λ id c. cc (nothing id);
      disjoint = λ id c. nothing id;
    }
