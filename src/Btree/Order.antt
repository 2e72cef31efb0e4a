-- ===== src/Btree/Order.antt =====
-- The order of byte slices, `Ord for [u8]`: the first byte that differs decides, then the length.
use seerdb.Base.{
  ℕ, ◌≡◌, refl, Bool, true, false, List, [], ◌∷◌, arith, if◌then◌else◌, ltb, ◌⊎◌, inl, inr, ap,
}

pub data Ordering : Type 0 where
  less equal greater : Ordering

unfoldable pub compare_keys : List ℕ → List ℕ → Ordering
compare_keys [] [] = equal
compare_keys [] (y ∷ ys) = less
compare_keys (x ∷ xs) [] = greater
compare_keys (x ∷ xs) (y ∷ ys) =
    let rest = compare_keys xs ys in if ltb x y then less else if ltb y x then greater else rest

abbrev pub is_less : Ordering → Bool
is_less less = true
is_less equal = false
is_less greater = false

abbrev pub is_equal : Ordering → Bool
is_equal less = false
is_equal equal = true
is_equal greater = false

abbrev pub is_greater : Ordering → Bool
is_greater less = false
is_greater equal = false
is_greater greater = true

pub Ordering-cases : (o : Ordering) → (o ≡ less) ⊎ (o ≡ equal) ⊎ (o ≡ greater)
Ordering-cases less = inl refl
Ordering-cases equal = inr (inl refl)
Ordering-cases greater = inr (inr refl)

-- `a ≤ b`
abbrev pub key_leb : List ℕ → List ℕ → Bool
key_leb a b = if is_greater (compare_keys a b) then false else true

pub compare_refl : (a : List ℕ) → compare_keys a a ≡ equal
unfolding compare_keys
compare_refl [] = refl
compare_refl (x ∷ xs) = ground (arith, compare_refl xs)

pub compare-equal : (a b : List ℕ) → compare_keys a b ≡ equal → a ≡ b
unfolding compare_keys
compare-equal [] [] e = refl
compare-equal [] (y ∷ ys) e = absurd (ground arith)
compare-equal (x ∷ xs) [] e = absurd (ground arith)
compare-equal (x ∷ xs) (y ∷ ys) e =
    let rest = compare_keys xs ys in
    let same : x ≡ y = ground (arith, rest) in
    let tail : compare_keys xs ys ≡ equal = ground (arith, rest) in
    rw same (ap (λ t. y ∷ t) (compare-equal xs ys tail))

-- A key below another stays below what is above that one.
pub compare-less_le :
    (a b c : List ℕ) → key_leb a b ≡ true → compare_keys b c ≡ less → compare_keys a c ≡ less
unfolding compare_keys
compare-less_le [] [] c h e = e
compare-less_le [] (y ∷ ys) [] h e = absurd (ground arith)
compare-less_le [] (y ∷ ys) (z ∷ zs) h e = refl
compare-less_le (x ∷ xs) [] c h e = absurd (ground arith)
compare-less_le (x ∷ xs) (y ∷ ys) [] h e = absurd (ground arith)
compare-less_le (x ∷ xs) (y ∷ ys) (z ∷ zs) h e =
    ground (arith, compare-less_le xs ys zs, compare_keys xs ys, compare_keys ys zs)

pub compare-greater_le :
    (a b c : List ℕ) → key_leb a b ≡ true → compare_keys a c ≡ greater → compare_keys b c ≡ greater
unfolding compare_keys
compare-greater_le [] b [] h e = absurd (ground arith)
compare-greater_le [] b (z ∷ zs) h e = absurd (ground arith)
compare-greater_le (x ∷ xs) [] c h e = absurd (ground arith)
compare-greater_le (x ∷ xs) (y ∷ ys) [] h e = refl
compare-greater_le (x ∷ xs) (y ∷ ys) (z ∷ zs) h e =
    ground (arith, compare-greater_le xs ys zs, compare_keys xs ys, compare_keys ys zs)
