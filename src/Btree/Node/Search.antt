-- ===== src/Btree/Node/Search.antt =====
-- btree/node/access.rs, `search`: the binary search finds what a scan of the keys finds.
use Prim.Native.Nat.{◌/◌}
use seerdb.Base.{
  ℕ, zero, suc, ◌+◌, ◌-◌, ◌<◌, ◌≤◌, ◌≡◌, refl, sym, ap, ◌∙◌, Bool, true, false, ◌&&◌, Option, none,
  some, List, [], ◌∷◌, ltb, length, if◌then◌else◌, get_or, drop, drop-step, drop_all, arith,
  Bool-cases, inl, inr, Result, ok, err, ◌==◌,
}
use seerdb.Btree.Order.{
  less, equal, greater, compare_keys, is_less, is_equal, key_leb, compare-less_le,
  compare-greater_le, Ordering-cases,
}
use seerdb.Btree.Sorted.{IsSorted, IsSorted-le, rank, rank_le, rank-under, rank-over}
use seerdb.Btree.Node.{Node, count, keys, keys_loop, search_loop, found_or, search}
use seerdb.Btree.Node.Reference.{position}
use seerdb.Btree.Layout.{from_bytes}
use seerdb.Btree.Layout.Keys.{
  IsAccepted, from_bytes-IsAccepted, stored_keys, key_at, keys_from-IsSorted, length-keys_from,
  key-stored, compare_key-stored,
}

-- Strictly below the key looked up.
abbrev below : List ℕ → List ℕ → Bool
below k x = is_less (compare_keys x k)

below_down : (k a b : List ℕ) → key_leb a b ≡ true → below k b ≡ true → below k a ≡ true
below_down k a b h u = ground (arith, compare-less_le a b k, compare_keys b k)

abbrev landed : List (List ℕ) → List ℕ → ℕ → Option ℕ
landed ks k i =
    if ltb i (length ks) && is_equal (compare_keys (get_or ks i []) k) then some i else none

pub stored_keys-IsSorted : (n : Node) → IsAccepted n → IsSorted [] (stored_keys n)
stored_keys-IsSorted n h = keys_from-IsSorted n _ (count n) 0 [] h.entries

pub length-stored_keys : (n : Node) → length (stored_keys n) ≡ count n
length-stored_keys n = length-keys_from n (count n) 0 []

keys_loop-stored :
    (n : Node) (index rest : ℕ)
    → IsAccepted n
    → index + rest ≡ count n
    → keys_loop n index rest ≡ drop index (stored_keys n)
unfolding keys_loop
keys_loop-stored n index zero h e =
    let size = length-stored_keys n in sym (drop_all index (stored_keys n) (omega arith))
keys_loop-stored n index (suc rest) h e =
    let size = length-stored_keys n in
    let inside : index < count n = omega arith in
    rw (key-stored n index h inside, keys_loop, keys_loop-stored n (index + 1) rest h (omega arith))
      (sym (drop-step (stored_keys n) index [] (omega arith)))

pub keys-stored : (n : Node) → IsAccepted n → keys n ≡ stored_keys n
unfolding keys
keys-stored n h = keys_loop-stored n 0 (count n) h (omega arith)

-- The reference, by the number of the keys below.
abbrev settled : Option ℕ → ℕ → ℕ → Result ℕ ℕ
settled none base p = err (base + p)
settled (some i) base p = ok (base + i)

landed-cons :
    (x : List ℕ) (ks : List (List ℕ)) (k : List ℕ) (p base : ℕ)
    → settled (landed (x ∷ ks) k (suc p)) base (suc p) ≡ settled (landed ks k p) (base + 1) p
landed-cons x ks k p base =
    let z : base + suc p ≡ base + 1 + p = omega arith in
    elim (Bool-cases (ltb p (length ks) && is_equal (compare_keys (get_or ks p []) k))) [
      | inl at ↦
          let at' : (ltb (suc p) (suc (length ks)) && is_equal (compare_keys (get_or ks p []) k))
              ≡ true =
            ground arith in
          rw (at, at', z) refl
      | inr off ↦
          let off' : (ltb (suc p) (suc (length ks)) && is_equal (compare_keys (get_or ks p []) k))
              ≡ false =
            ground arith in
          rw (off, off', z) refl
    ]

position-rank :
    (ks : List (List ℕ)) (k : List ℕ) (base : ℕ)
    → position ks k base ≡ settled (landed ks k (rank (below k) ks)) base (rank (below k) ks)
unfolding position
position-rank [] k base = ap err (omega arith)
position-rank (x ∷ ks) k base = elim (Ordering-cases (compare_keys x k)) [
  | inl e ↦
      rw (e, position, landed-cons x ks k (rank (below k) ks) base) (position-rank ks k (base + 1))
  | inr (inl e) ↦
      let hit : landed (x ∷ ks) k 0 ≡ some 0 = ground (arith, e) in
      rw (e, position, hit) (ap ok (let z : base ≡ base + 0 = omega arith in z))
  | inr (inr e) ↦
      let miss : landed (x ∷ ks) k 0 ≡ none = ground (arith, e) in
      rw (e, position, miss) (ap err (let z : base ≡ base + 0 = omega arith in z))
]

settled-found : (o : Option ℕ) (p : ℕ) → found_or o p ≡ settled o 0 p
settled-found none p = ap err (omega arith)
settled-found (some i) p = ap ok (omega arith)

-- What the loop knows.
record Narrows (n : Node) (k : List ℕ) (lo hi : ℕ) (result : Option ℕ) : Type 0 where
  low : lo ≤ rank (below k) (stored_keys n)
  high : rank (below k) (stored_keys n) ≤ hi
  bounded : hi ≤ count n
  landing : result ≡ landed (stored_keys n) k hi

module _ (n : Node) (k : List ℕ) (h : IsAccepted n) where
  after_less :
      (lo hi mid : ℕ) (result : Option ℕ)
      → Narrows n k lo hi result
      → mid < hi
      → compare_keys (key_at n mid) k ≡ less
      → Narrows n k (mid + 1) hi result
  after_less lo hi mid result s m e = record {
    low =
        let size = length-stored_keys n in
        elim (Bool-cases (ltb mid (rank (below k) (stored_keys n)))) [
          | inl b ↦ ground arith
          | inr b ↦
              let over =
                rank-over (below k) (below_down k) [] (stored_keys n) mid (stored_keys-IsSorted n h)
                  (ground arith) (omega (arith, s.bounded)) in
              absurd (ground (arith, over, e))
        ];
    high = s.high;
    bounded = s.bounded;
    landing = s.landing;
  }

  not_below :
      (mid : ℕ)
      → is_less (compare_keys (key_at n mid) k) ≡ false
      → rank (below k) (stored_keys n) ≤ mid
  not_below mid e = elim (Bool-cases (ltb mid (rank (below k) (stored_keys n)))) [
    | inr b ↦ ground arith
    | inl b ↦
        let under = rank-under (below k) (below_down k) (stored_keys n) mid (ground arith) in
        absurd (ground (arith, under, e))
  ]

  after_equal :
      (lo hi mid : ℕ) (result : Option ℕ)
      → Narrows n k lo hi result
      → mid < hi
      → compare_keys (key_at n mid) k ≡ equal
      → Narrows n k lo mid (some mid)
  after_equal lo hi mid result s m e =
      let size = length-stored_keys n in
      let inside : ltb mid (length (stored_keys n)) ≡ true = ground (arith, s.bounded) in
      record {
        low = s.low;
        high = not_below mid (rw e refl);
        bounded = omega (arith, s.bounded);
        landing = rw (inside, e) refl;
      }

  after_greater :
      (lo hi mid : ℕ) (result : Option ℕ)
      → Narrows n k lo hi result
      → mid < hi
      → compare_keys (key_at n mid) k ≡ greater
      → Narrows n k lo mid result
  after_greater lo hi mid result s m e =
      let size = length-stored_keys n in
      let nothing : landed (stored_keys n) k mid ≡ none = ground (arith, e) in
      let nothing' : landed (stored_keys n) k hi ≡ none =
        elim (Bool-cases (ltb hi (length (stored_keys n)))) [
          | inr out ↦ rw out refl
          | inl b ↦
              let order =
                IsSorted-le [] (stored_keys n) mid hi (stored_keys-IsSorted n h) (omega arith)
                  (ground arith) in
              let above = compare-greater_le (key_at n mid) (key_at n hi) k order e in
              rw (b, above) refl
        ] in
      record {
        low = s.low;
        high = not_below mid (rw e refl);
        bounded = omega (arith, s.bounded);
        landing = s.landing ∙ nothing' ∙ sym nothing;
      }

  meets :
      (lo hi : ℕ) (result : Option ℕ)
      → Narrows n k lo hi result
      → hi ≤ lo
      → found_or result lo ≡ position (stored_keys n) k 0
  meets lo hi result s e =
      let p = rank (below k) (stored_keys n) in
      let at_hi : hi ≡ p = omega (arith, s.low, s.high) in
      let at_lo : lo ≡ p = omega (arith, s.low, s.high) in
      let landing : result ≡ landed (stored_keys n) k p = rw (← at_hi) s.landing in
      rw (landing, at_lo, position-rank (stored_keys n) k 0)
        (settled-found (landed (stored_keys n) k p) p)

  search_loop-position :
      (fuel lo hi : ℕ) (result : Option ℕ)
      → Narrows n k lo hi result
      → hi - lo ≤ fuel
      → search_loop fuel n k lo hi result ≡ position (stored_keys n) k 0
  unfolding search_loop
  search_loop-position zero lo hi result s f =
      let done : ltb lo hi ≡ false = ground arith in rw done (meets lo hi result s (omega arith))
  search_loop-position (suc fuel) lo hi result s f = elim (Bool-cases (ltb lo hi)) [
    | inr done ↦ rw done (meets lo hi result s (ground arith))
    | inl more ↦
        let mid = lo + (hi - lo) / 2 in
        let inside : lo + (hi - lo) / 2 < hi = ground arith in
        let read = compare_key-stored n mid k h (omega (arith, s.bounded)) in
        elim (Ordering-cases (compare_keys (key_at n mid) k)) [
          | inl e ↦
              rw (more, read, e)
                (search_loop-position fuel (mid + 1) hi result
                  (after_less lo hi mid result s inside e) (ground arith))
          | inr (inl e) ↦
              rw (more, read, e)
                (search_loop-position fuel lo mid (some mid)
                  (after_equal lo hi mid result s inside e) (ground arith))
          | inr (inr e) ↦
              rw (more, read, e)
                (search_loop-position fuel lo mid result (after_greater lo hi mid result s inside e)
                  (ground arith))
        ]
  ]

  pub search-stored : search n k ≡ position (stored_keys n) k 0
  unfolding search
  search-stored =
      let size = length-stored_keys n in
      let start : Narrows n k 0 (count n) none = record {
        low = omega arith;
        high = omega (arith, rank_le (below k) (stored_keys n));
        bounded = omega arith;
        landing =
            let out : ltb (count n) (length (stored_keys n)) ≡ false = ground arith in rw out refl;
      } in
      elim (Bool-cases (count n == 0)) [
        | inr full ↦ rw full (search_loop-position (count n) 0 (count n) none start (omega arith))
        | inl empty ↦ rw empty (meets 0 (count n) none start (ground arith))
      ]

-- On a page of 4,096 bytes that `Node::from_bytes` accepts, the binary search returns what a scan of the
-- page's keys in order returns: the index of the first key that is equal, or else the index of the first
-- key above, where the key would be inserted.
pub search-position :
    (bytes lookup_key : List ℕ) {n : Node}
    → length bytes ≡ 4096
    → from_bytes bytes ≡ some n
    → search n lookup_key ≡ position (keys n) lookup_key 0
search-position bytes k {n} size e =
    let h = from_bytes-IsAccepted bytes size e in rw (keys-stored n h) (search-stored n k h)

-- A page of 4,096 bytes that `Node::from_bytes` accepts has as many keys as its header counts, each of which
-- `key` rebuilds from its prefix, and they are sorted.
pub keys-IsSorted :
    (bytes : List ℕ) {n : Node}
    → length bytes ≡ 4096
    → from_bytes bytes ≡ some n
    → (length (keys n) ≡ count n) × IsSorted [] (keys n)
keys-IsSorted bytes {n} size e =
    let h = from_bytes-IsAccepted bytes size e in
    rw (keys-stored n h) (length-stored_keys n, stored_keys-IsSorted n h)
