-- ===== src/Btree/Sorted.antt =====
-- Sorted lists of keys, and how many of them stand under a bound.
use seerdb.Base.{
  ℕ, zero, suc, ◌<◌, ◌≤◌, ◌≡◌, Bool, true, false, List, [], ◌∷◌, All, All-get_or, length, get_or,
  arith, if◌then◌else◌, Bool-cases, inl, inr,
}
use seerdb.Btree.Order.{compare_keys, key_leb, compare_refl, compare-greater_le}

pub key_leb_trans : (a b c : List ℕ) → key_leb a b ≡ true → key_leb b c ≡ true → key_leb a c ≡ true
key_leb_trans a b c p q =
    ground (arith, compare-greater_le a b c, compare_keys a c, compare_keys b c)

-- Each key is at most the next, from a lower bound on.
abbrev pub IsSorted : List ℕ → List (List ℕ) → Type 0
IsSorted low [] = Unit {0}
IsSorted low (x ∷ xs) = (key_leb low x ≡ true) × IsSorted x xs

IsSorted-lower :
    (a b : List ℕ) (ys : List (List ℕ)) → key_leb a b ≡ true → IsSorted b ys → IsSorted a ys
IsSorted-lower a b [] p h = tt
IsSorted-lower a b (y ∷ ys) p h = (key_leb_trans a b y p h.0, h.1)

pub IsSorted-All :
    (low : List ℕ) (xs : List (List ℕ)) → IsSorted low xs → All (λ x. key_leb low x ≡ true) xs
IsSorted-All low [] h = tt
IsSorted-All low (x ∷ xs) h = (h.0, IsSorted-All low xs (IsSorted-lower low x xs h.0 h.1))

pub key_leb_refl : (a : List ℕ) → key_leb a a ≡ true
key_leb_refl a = ground (arith, compare_refl a)

-- An earlier key is at most a later one.
pub IsSorted-le :
    (low : List ℕ) (xs : List (List ℕ)) (i j : ℕ)
    → IsSorted low xs
    → i ≤ j
    → j < length xs
    → key_leb (get_or xs i []) (get_or xs j []) ≡ true
IsSorted-le low [] i j s h b = absurd (omega arith)
IsSorted-le low (x ∷ xs) zero zero s h b = key_leb_refl x
IsSorted-le low (x ∷ xs) zero (suc j) s h b =
    All-get_or (λ y. key_leb x y ≡ true) xs j [] (IsSorted-All x xs s.1) (omega arith)
IsSorted-le low (x ∷ xs) (suc i) zero s h b = absurd (omega arith)
IsSorted-le low (x ∷ xs) (suc i) (suc j) s h b =
    IsSorted-le x xs i j s.1 (omega arith) (omega arith)

-- How many keys stand under a bound before the first that does not.
abbrev pub rank : (List ℕ → Bool) → List (List ℕ) → ℕ
rank under [] = 0
rank under (x ∷ xs) = let rest = rank under xs in if under x then suc rest else 0

pub rank_le : (under : List ℕ → Bool) (ks : List (List ℕ)) → rank under ks ≤ length ks
rank_le under [] = omega arith
rank_le under (x ∷ xs) = ground (arith, rank_le under xs)

-- What stands at or before a key under it is under it.
module _ (under : List ℕ → Bool)
    (down : (a b : List ℕ) → key_leb a b ≡ true → under b ≡ true → under a ≡ true) where
  pub rank-under : (ks : List (List ℕ)) (j : ℕ) → j < rank under ks → under (get_or ks j []) ≡ true
  rank-under [] j h = absurd (omega arith)
  rank-under (x ∷ xs) zero h = ground (arith, rank under xs)
  rank-under (x ∷ xs) (suc j) h = rank-under xs j (ground (arith, rank under xs))

  pub rank-over :
      (low : List ℕ) (ks : List (List ℕ)) (j : ℕ)
      → IsSorted low ks
      → rank under ks ≤ j
      → j < length ks
      → under (get_or ks j []) ≡ false
  rank-over low [] j s h b = absurd (omega arith)
  rank-over low (x ∷ xs) zero s h b = ground (arith, rank under xs)
  rank-over low (x ∷ xs) (suc j) s h b = elim (Bool-cases (under x)) [
    | inl bounded ↦ rank-over x xs j s.1 (ground (arith, rank under xs)) (omega arith)
    | inr over ↦ elim (Bool-cases (under (get_or xs j []))) [
      | inr out ↦ out
      | inl below ↦
          let above : key_leb x (get_or xs j []) ≡ true =
            All-get_or (λ y. key_leb x y ≡ true) xs j [] (IsSorted-All x xs s.1) (omega arith) in
          absurd (ground (arith, down x (get_or xs j []) above below))
    ]
  ]
