-- ===== src/Btree/Node/Reference.antt =====
-- btree/node/access.rs: what its searches compute, one key after the other.
use seerdb.Base.{ℕ, zero, suc, ◌+◌, List, [], ◌∷◌, if◌then◌else◌, Result, ok, err, Pair, none, some}
use seerdb.Btree.Order.{less, equal, greater, compare_keys, is_greater}
use seerdb.Btree.Node.{Node, count, key, child_id}

-- The first key that is not below the key looked up: found, or the place to insert it.
unfoldable pub position : List (List ℕ) → List ℕ → ℕ → Result ℕ ℕ
position [] lookup_key index = err index
position (stored ∷ later) lookup_key index =
    let next = position later lookup_key (index + 1) in
    elim (compare_keys stored lookup_key) [ less ↦ next | equal ↦ ok index | greater ↦ err index ]

-- The separators of an internal page with the children on their right.
unfoldable pub separators_from : Node → ℕ → ℕ → List (Pair (List ℕ) ℕ)
separators_from n index zero = []
separators_from n index (suc rest) =
    let later = separators_from n (index + 1) rest in
    elim (key n index) [
      | none ↦ later
      | some k ↦ elim (child_id n index) [
        | none ↦ later
        | some child ↦ record { at = k; held = child } ∷ later
      ]
    ]

abbrev pub separators : Node → List (Pair (List ℕ) ℕ)
separators n = separators_from n 0 (count n)

-- The child behind the last separator that is at most the key.
unfoldable pub owner : ℕ → List (Pair (List ℕ) ℕ) → List ℕ → ℕ
owner child [] lookup_key = child
owner child (s ∷ later) lookup_key =
    let next = owner s.held later lookup_key in
    if is_greater (compare_keys s.at lookup_key) then child else next
