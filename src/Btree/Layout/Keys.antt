-- ===== src/Btree/Layout/Keys.antt =====
-- btree/node: the keys of an accepted page, rebuilt from their prefixes, are those that `key` reads.
use seerdb.Base.{
  ℕ, zero, suc, ◌+◌, ◌<◌, ◌≤◌, ◌≡◌, refl, ap, true, false, some, List, [], ◌∷◌, ◌++◌, ◌==◌, ltb,
  leb, length, take, slice, get_or, from_le, arith, Bool-cases, Option-cases, inl, inr,
}
use seerdb.Btree.Order.{compare_keys, key_leb}
use seerdb.Btree.Sorted.{IsSorted}
use seerdb.Btree.Page.{header_try_from_bytes}
use seerdb.Btree.Node.{
  Node, count, is_internal, slot_offset, entry_prefix_len, entry_suffix_len, entry_suffix,
  offsets_from, key, child_id, compare_key,
}
use seerdb.Btree.Layout.{
  sort, entry_end, payload_fits, check_entry, check_entries, validate_layout, from_bytes,
}

-- The key at `index` behind another.
abbrev pub joined : Node → ℕ → List ℕ → List ℕ
joined n index previous_key = take (entry_prefix_len n index) previous_key ++ entry_suffix n index

abbrev pub keys_from : Node → ℕ → ℕ → List ℕ → List (List ℕ)
keys_from n zero index previous_key = []
keys_from n (suc rest) index previous_key =
    joined n index previous_key ∷ keys_from n rest (index + 1) (joined n index previous_key)

-- All keys of a page, in order.
abbrev pub stored_keys : Node → List (List ℕ)
stored_keys n = keys_from n (count n) 0 []

pub length-keys_from :
    (n : Node) (rest index : ℕ) (previous_key : List ℕ)
    → length (keys_from n rest index previous_key) ≡ rest
length-keys_from n zero index p = refl
length-keys_from n (suc rest) index p =
    ap suc (length-keys_from n rest (index + 1) (joined n index p))

-- What an accepted entry has shown.
pub record IsEntry (n : Node) (index : ℕ) (previous_key : List ℕ) : Type 0 where
  pub ordered : key_leb previous_key (joined n index previous_key) ≡ true
  pub prefix : entry_prefix_len n index ≤ length previous_key
  pub inside : slot_offset n index + 4 + entry_suffix_len n index ≤ 4096
  pub payload : is_internal n ≡ true → slot_offset n index + 4 + entry_suffix_len n index + 8 ≤ 4096

payload-internal :
    (n : Node) (a b : ℕ) → payload_fits n a b ≡ true → is_internal n ≡ true → a + 8 ≤ b
unfolding payload_fits
payload-internal n a b e i = ground arith

check_entry-some :
    (n : Node) (s : List ℕ) (index : ℕ) (previous_key k : List ℕ)
    → check_entry n s index previous_key ≡ some k
    → (k ≡ joined n index previous_key) × IsEntry n index previous_key
unfolding check_entry
check_entry-some n s index p k e = elim (Option-cases (entry_end (slot_offset n index) s)) [
  | inl missing ↦ absurd (ground (arith, missing, e))
  | inr (b, found) ↦
      let fits : payload_fits n (slot_offset n index + 4 + entry_suffix_len n index) b ≡ true =
        ground (arith, found, e) in
      let bound : b ≤ 4096 = ground (arith, found, e) in
      let inside : slot_offset n index + 4 + entry_suffix_len n index ≤ b =
        ground (arith, found, e) in
      (
        ground (arith, found, e),
        record {
          ordered = ground (arith, found, e);
          prefix = ground (arith, found, e);
          inside = omega (arith, bound, inside);
          payload = λ i. omega (
            arith,
            bound,
            payload-internal n (slot_offset n index + 4 + entry_suffix_len n index) b fits i,
          );
        },
      )
]

-- The key before position `j`.
abbrev pub before : List ℕ → List (List ℕ) → ℕ → List ℕ
before p ks zero = p
before p ks (suc j) = get_or ks j []

before-cons :
    (p k : List ℕ) (ks : List (List ℕ)) (j : ℕ) → before k ks j ≡ before p (k ∷ ks) (suc j)
before-cons p k ks zero = refl
before-cons p k ks (suc j) = refl

check_entries-step :
    (n : Node) (s : List ℕ) (rest index : ℕ) (p : List ℕ)
    → check_entries n s (suc rest) index p ≡ true
    → IsEntry n index p × (check_entries n s rest (index + 1) (joined n index p) ≡ true)
unfolding check_entries
check_entries-step n s rest index p e = elim (Option-cases (check_entry n s index p)) [
  | inl refused ↦ absurd (ground (arith, refused, e))
  | inr (k, found) ↦
      let (same, entry) = check_entry-some n s index p k found in
      let e' : check_entries n s rest (index + 1) k ≡ true = ground (arith, found, e) in
      (entry, rw same at e')
]

pub IsEntry-at :
    (n : Node) (s : List ℕ) (rest index : ℕ) (p : List ℕ) (j : ℕ)
    → check_entries n s rest index p ≡ true
    → j < rest
    → IsEntry n (index + j) (before p (keys_from n rest index p) j)
      × (get_or (keys_from n rest index p) j []
          ≡ joined n (index + j) (before p (keys_from n rest index p) j))
IsEntry-at n s zero index p j e b = absurd (omega arith)
IsEntry-at n s (suc rest) index p zero e b =
    let (entry, more) = check_entries-step n s rest index p e in
    let z : index + 0 ≡ index = omega arith in rw z (entry, refl)
IsEntry-at n s (suc rest) index p (suc j) e b =
    let (entry, more) = check_entries-step n s rest index p e in
    let k = joined n index p in
    let (entry', same) = IsEntry-at n s rest (index + 1) k j more (omega arith) in
    let z : index + 1 + j ≡ index + suc j = omega arith in
    rw (← before-cons p k (keys_from n rest (index + 1) k) j, ← z) (entry', same)

pub keys_from-IsSorted :
    (n : Node) (s : List ℕ) (rest index : ℕ) (p : List ℕ)
    → check_entries n s rest index p ≡ true
    → IsSorted p (keys_from n rest index p)
keys_from-IsSorted n s zero index p e = tt
keys_from-IsSorted n s (suc rest) index p e =
    let (entry, more) = check_entries-step n s rest index p e in
    (entry.ordered, keys_from-IsSorted n s rest (index + 1) (joined n index p) more)

-- An accepted page.
pub record IsAccepted (n : Node) : Type 0 where
  pub size : length n.bytes ≡ 4096
  pub entries : check_entries n (sort (offsets_from n 0 (count n))) (count n) 0 [] ≡ true

pub from_bytes-IsAccepted :
    (bytes : List ℕ) {n : Node} → length bytes ≡ 4096 → from_bytes bytes ≡ some n → IsAccepted n
unfolding from_bytes validate_layout
from_bytes-IsAccepted bytes {n} size e =
    elim (Option-cases (header_try_from_bytes (take 48 bytes))) [
      | inl refused ↦ absurd (ground (arith, refused, e))
      | inr (h, found) ↦
          let m : Node = record { bytes = bytes } in
          let valid : validate_layout m ≡ true = ground (arith, found, e) in
          let same : m ≡ n = ground (arith, found, e) in
          rw (← same) (record { size = size; entries = ground (arith, valid) })
    ]

take-nil : (n : ℕ) → ◌≡◌ {A = List ℕ} (take n []) []
take-nil zero = refl
take-nil (suc n) = refl

abbrev pub key_at : Node → ℕ → List ℕ
key_at n i = get_or (stored_keys n) i []

pub stored-IsEntry :
    (n : Node) (i : ℕ)
    → IsAccepted n
    → i < count n
    → IsEntry n i (before [] (stored_keys n) i)
      × (key_at n i ≡ joined n i (before [] (stored_keys n) i))
stored-IsEntry n i h b =
    let r = IsEntry-at n (sort (offsets_from n 0 (count n))) (count n) 0 [] i h.entries b in
    rw (let z : 0 + i ≡ i = omega arith in z) at r

-- `key` reads the keys that the check has seen.
pub key-stored : (n : Node) (i : ℕ) → IsAccepted n → i < count n → key n i ≡ some (key_at n i)
unfolding key
key-stored n zero h b =
    let (entry, same) = stored-IsEntry n 0 h b in
    let bound : leb (count n) 0 ≡ false = ground arith in
    rw (bound, same, take-nil (entry_prefix_len n 0)) refl
key-stored n (suc i) h b =
    let (entry, same) = stored-IsEntry n (suc i) h b in
    let bound : leb (count n) (suc i) ≡ false = ground arith in
    let prev = key-stored n i h (omega arith) in
    elim (Bool-cases (entry_prefix_len n (suc i) == 0)) [
      | inl whole ↦
          let z : entry_prefix_len n (suc i) ≡ 0 = ground arith in rw (bound, whole, same, z) refl
      | inr part ↦
          let fits : ltb (length (key_at n i)) (entry_prefix_len n (suc i)) ≡ false =
            ground (arith, entry.prefix) in
          rw (bound, part, prev, fits, same) refl
    ]

pub compare_key-stored :
    (n : Node) (i : ℕ) (k : List ℕ)
    → IsAccepted n
    → i < count n
    → compare_key n i k ≡ some (compare_keys (key_at n i) k)
unfolding compare_key
compare_key-stored n i k h b =
    let (entry, same) = stored-IsEntry n i h b in
    let bound : leb (count n) i ≡ false = ground arith in
    elim (Bool-cases (entry_prefix_len n i == 0)) [
      | inl whole ↦
          let z : entry_prefix_len n i ≡ 0 = ground arith in
          let inside : ltb (length n.bytes) (slot_offset n i + 4 + entry_suffix_len n i) ≡ false =
            ground (arith, entry.inside, h.size) in
          rw (bound, whole, inside, same, z) refl
      | inr part ↦ rw (bound, part, key-stored n i h b) refl
    ]

-- The child of an internal entry lies inside the page.
abbrev pub child_at : Node → ℕ → ℕ
child_at n i =
    let child_off = slot_offset n i + 4 + entry_suffix_len n i in
    from_le (slice n.bytes child_off (child_off + 8))

pub child_id-stored :
    (n : Node) (i : ℕ)
    → IsAccepted n
    → is_internal n ≡ true
    → i < count n
    → child_id n i ≡ some (child_at n i)
unfolding child_id
child_id-stored n i h internal_node b =
    let (entry, same) = stored-IsEntry n i h b in
    let bound : leb (count n) i ≡ false = ground arith in
    let inside : ltb 4096 (slot_offset n i + 4 + entry_suffix_len n i + 8) ≡ false =
      ground (arith, entry.payload internal_node) in
    rw (bound, internal_node, inside) refl
