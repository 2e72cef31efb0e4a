-- ===== src/Btree/Node/Route.antt =====
-- btree/node/access.rs, `child_for_key`: the upper bound finds the child that owns a key.
use Prim.Native.Nat.{◌/◌}
use seerdb.Base.{
  ℕ, zero, suc, ◌+◌, ◌-◌, ◌<◌, ◌≤◌, ◌≡◌, refl, sym, ap, ◌∙◌, Bool, true, false, not, some, List, [],
  ltb, length, if◌then◌else◌, arith, drop, drop-step, drop_all, Bool-cases, inl, inr, ok, ◌==◌,
}
use seerdb.Btree.Order.{compare_keys, is_greater, key_leb, compare-greater_le, Ordering-cases}
use seerdb.Btree.Sorted.{rank, rank_le, rank-under, rank-over}
use seerdb.Btree.Node.{Node, header, count, is_internal, upper_loop, child_for_key}
use seerdb.Btree.Node.Reference.{separators_from, separators, owner}
use seerdb.Btree.Node.Search.{stored_keys-IsSorted, length-stored_keys}
use seerdb.Btree.Layout.{from_bytes}
use seerdb.Btree.Layout.Keys.{
  IsAccepted, from_bytes-IsAccepted, stored_keys, key_at, key-stored, compare_key-stored, child_at,
  child_id-stored,
}

-- At most the key looked up.
abbrev at_most : List ℕ → List ℕ → Bool
at_most k x = not (is_greater (compare_keys x k))

at_most_down : (k a b : List ℕ) → key_leb a b ≡ true → at_most k b ≡ true → at_most k a ≡ true
at_most_down k a b h u =
    ground (arith, compare-greater_le a b k, compare_keys a k, compare_keys b k)

module _ (n : Node) (k : List ℕ) (h : IsAccepted n) where
  goes_right :
      (mid : ℕ)
      → mid < count n
      → at_most k (key_at n mid) ≡ true
      → mid + 1 ≤ rank (at_most k) (stored_keys n)
  goes_right mid b e =
      let size = length-stored_keys n in
      elim (Bool-cases (ltb mid (rank (at_most k) (stored_keys n)))) [
        | inl inside ↦ ground arith
        | inr out ↦
            let over =
              rank-over (at_most k) (at_most_down k) [] (stored_keys n) mid
                (stored_keys-IsSorted n h) (ground arith) (omega arith) in
            absurd (ground (arith, over, e))
      ]

  goes_left : (mid : ℕ) → at_most k (key_at n mid) ≡ false → rank (at_most k) (stored_keys n) ≤ mid
  goes_left mid e = elim (Bool-cases (ltb mid (rank (at_most k) (stored_keys n)))) [
    | inr out ↦ ground arith
    | inl inside ↦
        let under = rank-under (at_most k) (at_most_down k) (stored_keys n) mid (ground arith) in
        absurd (ground (arith, under, e))
  ]

  upper_loop-rank :
      (fuel lo hi : ℕ)
      → lo ≤ rank (at_most k) (stored_keys n)
      → rank (at_most k) (stored_keys n) ≤ hi
      → hi ≤ count n
      → hi - lo ≤ fuel
      → upper_loop fuel n k lo hi ≡ ok (some (rank (at_most k) (stored_keys n)))
  unfolding upper_loop
  upper_loop-rank zero lo hi a b c f =
      let done : ltb lo hi ≡ false = ground arith in
      let at : lo ≡ rank (at_most k) (stored_keys n) = omega arith in rw (done, at) refl
  upper_loop-rank (suc fuel) lo hi a b c f = elim (Bool-cases (ltb lo hi)) [
    | inr done ↦ let at : lo ≡ rank (at_most k) (stored_keys n) = ground arith in rw (done, at) refl
    | inl more ↦
        let mid = lo + (hi - lo) / 2 in
        let inside : lo + (hi - lo) / 2 < hi = ground arith in
        let bound : lo + (hi - lo) / 2 < count n = omega arith in
        let read = compare_key-stored n mid k h bound in
        elim (Ordering-cases (compare_keys (key_at n mid) k)) [
          | inl e ↦
              rw (more, read, e)
                (upper_loop-rank fuel (mid + 1) hi (goes_right mid bound (rw e refl)) b c
                  (ground arith))
          | inr (inl e) ↦
              rw (more, read, e)
                (upper_loop-rank fuel (mid + 1) hi (goes_right mid bound (rw e refl)) b c
                  (ground arith))
          | inr (inr e) ↦
              rw (more, read, e)
                (upper_loop-rank fuel lo mid a (goes_left mid (rw e refl)) (omega arith)
                  (ground arith))
        ]
  ]

  -- The child by the number of the separators, counted from an index on.
  abbrev routed : ℕ → ℕ → ℕ → ℕ
  routed child index p = if p == 0 then child else child_at n (index + p - 1)

  routed-next :
      (child index p : ℕ) → routed child index (suc p) ≡ routed (child_at n index) (index + 1) p
  routed-next child index zero = ap (child_at n) (let z : index + 1 - 1 ≡ index = omega arith in z)
  routed-next child index (suc p) =
      let off : (suc p == 0) ≡ false = ground arith in
      let off' : (suc (suc p) == 0) ≡ false = ground arith in
      rw (off, off')
        (ap (child_at n)
          (let z : index + suc (suc p) - 1 ≡ index + 1 + suc p - 1 = omega arith in z))

  owner-routed :
      (child index rest : ℕ)
      → is_internal n ≡ true
      → index + rest ≡ count n
      → owner child (separators_from n index rest) k
        ≡ routed child index (rank (at_most k) (drop index (stored_keys n)))
  unfolding owner separators_from
  owner-routed child index zero i e =
      let size = length-stored_keys n in rw (drop_all index (stored_keys n) (omega arith)) refl
  owner-routed child index (suc rest) i e =
      let size = length-stored_keys n in
      let inside : index < count n = omega arith in
      let step = drop-step (stored_keys n) index [] (omega arith) in
      let more = owner-routed (child_at n index) (index + 1) rest i (omega arith) in
      let r = rank (at_most k) (drop (index + 1) (stored_keys n)) in
      elim (Bool-cases (is_greater (compare_keys (key_at n index) k))) [
        | inl over ↦
            rw
              (
                key-stored n index h inside,
                separators_from,
                child_id-stored n index h i inside,
                owner,
                over,
                step,
                over,
              )
              refl
        | inr under ↦
            rw
              (
                key-stored n index h inside,
                separators_from,
                child_id-stored n index h i inside,
                owner,
                under,
                step,
                under,
              )
              (more ∙ sym (routed-next child index r))
      ]

  pub child_for_key-stored :
      is_internal n ≡ true
      → child_for_key n k ≡ ok (some (owner ((header n).leftmost_child) (separators n) k))
  unfolding child_for_key
  child_for_key-stored i =
      let size = length-stored_keys n in
      let p = rank (at_most k) (stored_keys n) in
      let bound : rank (at_most k) (stored_keys n) ≤ count n =
        omega (arith, rank_le (at_most k) (stored_keys n)) in
      let found =
        upper_loop-rank (count n) 0 (count n) (omega arith) bound (omega arith) (omega arith) in
      let reference = owner-routed ((header n).leftmost_child) 0 (count n) i (omega arith) in
      elim (Bool-cases (p == 0)) [
        | inl first ↦ rw (i, found, first, reference, first) refl
        | inr later ↦
            let inside : rank (at_most k) (stored_keys n) - 1 < count n = ground arith in
            let z : 0 + rank (at_most k) (stored_keys n) - 1
                ≡ rank (at_most k) (stored_keys n) - 1 =
              omega arith in
            rw (i, found, later, reference, later, z, child_id-stored n (p - 1) h i inside) refl
      ]

-- On an internal page of 4,096 bytes that `Node::from_bytes` accepts, the binary search of `child_for_key`
-- returns the child on the right of the last separator that is at most the key, or the leftmost child when
-- there is none, as a scan of the separators finds it.
pub child_for_key-owner :
    (bytes lookup_key : List ℕ) {n : Node}
    → length bytes ≡ 4096
    → from_bytes bytes ≡ some n
    → is_internal n ≡ true
    → child_for_key n lookup_key
      ≡ ok (some (owner ((header n).leftmost_child) (separators n) lookup_key))
child_for_key-owner bytes k {n} size e i =
    child_for_key-stored n k (from_bytes-IsAccepted bytes size e) i
