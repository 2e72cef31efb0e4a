-- ===== src/Base/Sets.antt =====
-- Finite sets of numbers as lists without repetition: Rust's `HashSet<u64>` and `BTreeSet<u64>`,
-- where the order of the elements is never observed.
use Prim.Native.Nat.{ℕ}
use mathlib.Core.Path.{◌≡◌, refl}
use mathlib.Core.Logic.{inl, inr}
use mathlib.Core.Bool.{Bool, true, false, ◌||◌}
use mathlib.Core.List.{List, [], ◌∷◌, ◌++◌}
use native.Mathlib.Omega.{arith}
use seerdb.Base.Tests.{Bool-cases, ◌==◌, if◌then◌else◌}
use seerdb.Base.Lists.{All}

unfoldable pub contains : ℕ → List ℕ → Bool
contains a [] = false
contains a (x ∷ xs) = a == x || contains a xs

unfoldable pub insert : ℕ → List ℕ → List ℕ
insert a xs = if contains a xs then xs else a ∷ xs

unfoldable pub remove : ℕ → List ℕ → List ℕ
remove a [] = []
remove a (x ∷ xs) = let rest = remove a xs in if a == x then rest else x ∷ rest

abbrev pub Distinct : List ℕ → Type 0
Distinct [] = Unit {0}
Distinct (x ∷ xs) = (contains x xs ≡ false) × Distinct xs

pub contains-insert : (a b : ℕ) (xs : List ℕ) → contains b (insert a xs) ≡ (b == a || contains b xs)
unfolding contains insert
contains-insert a b xs = ground arith

pub contains-remove :
    (a b : ℕ) (xs : List ℕ) → contains b (remove a xs) ≡ (if b == a then false else contains b xs)
unfolding contains remove
contains-remove a b [] = ground arith
contains-remove a b (x ∷ xs) = ground (arith, contains-remove a b xs)

pub contains-append :
    (a : ℕ) (xs ys : List ℕ) → contains a (xs ++ ys) ≡ (contains a xs || contains a ys)
unfolding contains
contains-append a [] ys = refl
contains-append a (x ∷ xs) ys = ground (arith, contains-append a xs ys)

pub Distinct-append_one :
    (xs : List ℕ) (a : ℕ) → Distinct xs → contains a xs ≡ false → Distinct (xs ++ (a ∷ []))
unfolding contains
Distinct-append_one [] a h f = ground arith
Distinct-append_one (x ∷ xs) a h f =
    (ground (arith, contains-append x xs (a ∷ [])), Distinct-append_one xs a h.1 (ground arith))

pub All-contains {ℓ} :
    (P : ℕ → Type ℓ) (a : ℕ) (xs : List ℕ) → All P xs → contains a xs ≡ true → P a
unfolding contains
All-contains P a [] h c = absurd (ground arith)
All-contains P a (x ∷ xs) h c = elim (Bool-cases (a == x)) [
  | inl same ↦ let e : a ≡ x = ground arith in rw e h.0
  | inr other ↦ All-contains P a xs h.1 (ground arith)
]

-- An element put behind the others, and one taken from there.
pub Distinct-last :
    (xs : List ℕ) (a : ℕ) → Distinct (xs ++ (a ∷ [])) → Distinct xs × (contains a xs ≡ false)
unfolding contains
Distinct-last [] a h = (tt, refl)
Distinct-last (x ∷ xs) a h =
    let (front, out) = Distinct-last xs a h.1 in ground (arith, contains-append x xs (a ∷ []))
