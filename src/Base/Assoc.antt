-- ===== src/Base/Assoc.antt =====
-- Maps as association lists: Rust's `HashMap` and `BTreeMap` where the order of the entries is never
-- observed. A key type brings its `==` test as an instance.
use Prim.Native.Nat.{ℕ}
use mathlib.Core.Path.{◌≡◌, ap, sym, ◌∙◌}
use mathlib.Core.Logic.{inl, inr}
use mathlib.Core.Bool.{Bool, true, false}
use mathlib.Core.Option.{Option, none, some}
use mathlib.Core.List.{List, [], ◌∷◌}
use native.Mathlib.Omega.{arith}
use seerdb.Base.Tests.{if◌then◌else◌, Bool-cases, ◌==◌}

pub record Key (K : Type 0) : Type 0 where
  pub same : K → K → Bool
  pub same→eq : (a b : K) → same a b ≡ true → a ≡ b
  pub same_refl : (a : K) → same a a ≡ true

pub number_same→eq : (a b : ℕ) → (a == b) ≡ true → a ≡ b
number_same→eq a b e = ground arith

pub number_same_refl : (a : ℕ) → (a == a) ≡ true
number_same_refl a = ground arith

instance abbrev pub number_key : Key ℕ
number_key = record { same = ◌==◌; same→eq = number_same→eq; same_refl = number_same_refl }

pub record Pair (K V : Type 0) : Type 0 where
  pub at : K
  pub held : V

module _ {K : Type 0} ⦃key : Key K⦄ where
  pub same-step : (a b c : K) → key.same a b ≡ true → key.same a c ≡ key.same b c
  same-step a b c e = ap (λ x. key.same x c) (key.same→eq a b e)

  pub same-apart : (a b c : K) → key.same a b ≡ false → key.same a c ≡ true → key.same b c ≡ false
  same-apart a b c apart e = elim (Bool-cases (key.same b c)) [
    | inr out ↦ out
    | inl both ↦
        let e₁ : a ≡ b = key.same→eq a c e ∙ sym (key.same→eq b c both) in
        let e₂ : key.same a b ≡ true = rw e₁ (key.same_refl b) in cc (apart, e₂)
  ]

module _ {K V : Type 0} ⦃key : Key K⦄ where
  -- `get`
  unfoldable pub lookup : K → List (Pair K V) → Option V
  lookup k [] = none
  lookup k (p ∷ ps) = let rest = lookup k ps in if key.same p.at k then some p.held else rest

  -- `remove`, the map that is left
  unfoldable pub without : K → List (Pair K V) → List (Pair K V)
  without k [] = []
  without k (p ∷ ps) = let rest = without k ps in if key.same p.at k then rest else p ∷ rest

  -- `insert`, the map that results
  unfoldable pub put : K → V → List (Pair K V) → List (Pair K V)
  put k v ps = record { at = k; held = v } ∷ without k ps

  pub lookup-without :
      (a b : K) (ps : List (Pair K V))
      → lookup b (without a ps) ≡ (if key.same a b then none else lookup b ps)
  unfolding lookup without
  lookup-without a b [] = ground arith
  lookup-without a b (p ∷ ps) = elim (Bool-cases (key.same p.at a)) [
    | inl here ↦ ground (arith, lookup-without a b ps, same-step p.at a b here)
    | inr there ↦ ground (arith, lookup-without a b ps, same-apart p.at a b there)
  ]

  pub lookup-put :
      (a b : K) (v : V) (ps : List (Pair K V))
      → lookup b (put a v ps) ≡ (if key.same a b then some v else lookup b ps)
  unfolding lookup put
  lookup-put a b v ps = ground (arith, lookup-without a b ps)
