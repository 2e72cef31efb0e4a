-- ===== src/Db/Transaction/Overlay.antt =====
-- db/transaction.rs: what the staged mutations make of a key.
use seerdb.Base.{
  ℕ, ◌≡◌, refl, ap, ◌∙◌, true, false, Option, none, some, List, [], ◌∷◌, ◌++◌, if◌then◌else◌,
  list_eq, list_eq→eq, Pair, lookup, without, lookup-without, arith, Bool-cases, inl, inr,
}
use seerdb.Btree.Order.{compare_keys, compare_refl, compare-equal, Ordering-cases}
use seerdb.Db.Batch.{BatchMutation, put, delete}
use seerdb.Db.Transaction.{bytes_key, reversed, scan, in_range, tree_insert, collect, overlay}

-- One mutation, as seen at a key.
abbrev pub stage_one : BatchMutation → List ℕ → Option (List ℕ) → Option (List ℕ)
stage_one (put k v) key base = if list_eq k key then some v else base
stage_one (delete k) key base = if list_eq k key then none else base

-- The mutations in commit order.
abbrev pub view_after : List BatchMutation → List ℕ → Option (List ℕ) → Option (List ℕ)
view_after [] key base = base
view_after (m ∷ ms) key base = view_after ms key (stage_one m key base)

abbrev pub answer : Option (Option (List ℕ)) → Option (List ℕ) → Option (List ℕ)
answer none base = base
answer (some a) base = a

scan-append :
    (xs ys : List BatchMutation) (key : List ℕ) (base : Option (List ℕ))
    → answer (scan (xs ++ ys) key) base ≡ answer (scan xs key) (answer (scan ys key) base)
unfolding scan
scan-append [] ys key base = refl
scan-append (put k v ∷ xs) ys key base = ground (arith, scan-append xs ys key base)
scan-append (delete k ∷ xs) ys key base = ground (arith, scan-append xs ys key base)

scan-one :
    (m : BatchMutation) (key : List ℕ) (base : Option (List ℕ))
    → answer (scan (m ∷ []) key) base ≡ stage_one m key base
unfolding scan
scan-one (put k v) key base = ground arith
scan-one (delete k) key base = ground arith

-- The last mutation of a key decides.
pub scan-reversed :
    (ms : List BatchMutation) (key : List ℕ) (base : Option (List ℕ))
    → answer (scan (reversed ms) key) base ≡ view_after ms key base
unfolding scan
scan-reversed [] key base = refl
scan-reversed (m ∷ ms) key base =
    scan-append (reversed ms) (m ∷ []) key base
    ∙ ap (answer (scan (reversed ms) key)) (scan-one m key base)
    ∙ scan-reversed ms key (stage_one m key base)

pub lookup-tree_insert :
    (k v key : List ℕ) (ps : List (Pair (List ℕ) (List ℕ)))
    → lookup key (tree_insert k v ps) ≡ (if list_eq k key then some v else lookup key ps)
unfolding lookup tree_insert
lookup-tree_insert k v key [] = refl
lookup-tree_insert k v key (p ∷ ps) = elim (Ordering-cases (compare_keys k p.at)) [
  | inl e ↦ rw (e, tree_insert) refl
  | inr (inl e) ↦
      let same : k ≡ p.at = compare-equal k p.at e in rw (e, tree_insert, same) (ground arith)
  | inr (inr e) ↦
      let apart : list_eq k p.at ≡ false = elim (Bool-cases (list_eq k p.at)) [
        | inr out ↦ out
        | inl same ↦
            let q : k ≡ p.at = list_eq→eq k p.at same in
            absurd (ground (arith, rw q at e, compare_refl p.at))
      ] in
      let later = lookup-tree_insert k v key ps in
      elim (Bool-cases (list_eq p.at key)) [
        | inr other ↦ rw (e, tree_insert) (ground (arith, later, other))
        | inl here ↦
            let q : p.at ≡ key = list_eq→eq p.at key here in
            let away : list_eq k key ≡ false = rw (← q) apart in
            rw (e, tree_insert) (ground (arith, here, away))
      ]
]

-- Rows with a key each of its own.
abbrev pub DistinctRows : List (Pair (List ℕ) (List ℕ)) → Type 0
DistinctRows [] = Unit {0}
DistinctRows (p ∷ ps) = (lookup p.at ps ≡ none) × DistinctRows ps

abbrev or_held : Option (List ℕ) → Option (List ℕ) → Option (List ℕ)
or_held none base = base
or_held (some v) base = some v

lookup-collect :
    (rows values : List (Pair (List ℕ) (List ℕ))) (key : List ℕ)
    → DistinctRows rows
    → lookup key (collect rows values) ≡ or_held (lookup key rows) (lookup key values)
unfolding lookup collect
lookup-collect [] values key h = refl
lookup-collect (p ∷ ps) values key h =
    let more = lookup-collect ps (tree_insert p.at p.held values) key h.1 in
    let one = lookup-tree_insert p.at p.held key values in
    elim (Bool-cases (list_eq p.at key)) [
      | inl here ↦
          let q : p.at ≡ key = list_eq→eq p.at key here in
          let absent : lookup key ps ≡ none = rw q at (h.0) in more ∙ rw (absent, one, here) refl
      | inr other ↦ more ∙ rw (one, other) refl
    ]

either : (o : Option (List ℕ)) → or_held o none ≡ o
either none = refl
either (some v) = refl

pub lookup-collected :
    (rows : List (Pair (List ℕ) (List ℕ))) (key : List ℕ)
    → DistinctRows rows
    → lookup key (collect rows []) ≡ lookup key rows
unfolding lookup
lookup-collected rows key h = lookup-collect rows [] key h ∙ either (lookup key rows)

-- A key in the range sees every mutation of it.
pub lookup-overlay :
    (start end : List ℕ) (ms : List BatchMutation) (values : List (Pair (List ℕ) (List ℕ)))
    (key : List ℕ)
    → in_range start end key ≡ true
    → lookup key (overlay start end ms values) ≡ view_after ms key (lookup key values)
unfolding overlay
lookup-overlay start end [] values key inside = refl
lookup-overlay start end (put k v ∷ ms) values key inside =
    lookup-overlay start end ms (if in_range start end k then tree_insert k v values else values)
      key inside
    ∙ ap (view_after ms key) (elim (Bool-cases (list_eq k key)) [
      | inl same ↦
          let q : k ≡ key = list_eq→eq k key same in
          let inside' : in_range start end k ≡ true = rw q inside in
          rw inside' (lookup-tree_insert k v key values)
      | inr other ↦ elim (Bool-cases (in_range start end k)) [
        | inl i ↦ rw i (lookup-tree_insert k v key values)
        | inr o ↦ rw (o, other) refl
      ]
    ])
lookup-overlay start end (delete k ∷ ms) values key inside =
    lookup-overlay start end ms (if in_range start end k then without k values else values) key
      inside
    ∙ ap (view_after ms key) (elim (Bool-cases (list_eq k key)) [
      | inl same ↦
          let q : k ≡ key = list_eq→eq k key same in
          let inside' : in_range start end k ≡ true = rw q inside in
          rw inside' (lookup-without k key values)
      | inr other ↦ elim (Bool-cases (in_range start end k)) [
        | inl i ↦ rw i (lookup-without k key values)
        | inr o ↦ rw (o, other) refl
      ]
    ])
