-- ===== src/Base/Bytes.antt =====
-- Byte strings: Rust's `[a..b]`, `to_le_bytes`, `from_le_bytes` and the checked arithmetic of `usize`.
use Prim.Native.Nat.{ℕ, zero, suc, ◌+◌, ◌-◌, ◌*◌, ◌/◌, ◌%◌, ◌^◌, ◌≤◌, ◌<◌}
use mathlib.Core.Path.{◌≡◌, refl, sym, ap, ap₂, ◌∙◌}
use mathlib.Core.Bool.{Bool, true, ◌&&◌}
use mathlib.Core.List.{List, [], ◌∷◌, ◌++◌}
use mathlib.Core.Option.{Option, none, some}
use native.Mathlib.Omega.{arith}
use native.Mathlib.Nat.{pow-suc}
use seerdb.Base.Tests.{ltb, ◌==◌, if◌then◌else◌}
use seerdb.Base.Lists.{
  length, take, drop, take-append_left, drop-append_left, All, length-take, length-drop, All-take,
  All-drop, take-append-drop, drop-drop,
}

abbrev pub IsByte : ℕ → Type 0
IsByte b = b < 256

abbrev pub u32_mod : ℕ
u32_mod = 2 ^ 32

abbrev pub u64_mod : ℕ
u64_mod = 2 ^ 64

abbrev pub u64_max : ℕ
u64_max = 2 ^ 64 - 1

-- `n.to_le_bytes()` of a k-byte integer.
unfoldable pub to_le : ℕ → ℕ → List ℕ
to_le zero n = []
to_le (suc k) n = (n % 256) ∷ to_le k (n / 256)

unfoldable pub from_le : List ℕ → ℕ
from_le [] = 0
from_le (b ∷ bs) = b + 256 * from_le bs

-- `bytes[a..b]`
abbrev pub slice {ℓ} : {A : Type ℓ} → List A → ℕ → ℕ → List A
slice bytes a b = take (b - a) (drop a bytes)

abbrev pub all_zero : List ℕ → Bool
all_zero [] = true
all_zero (b ∷ bs) = b == 0 && all_zero bs

-- `checked_add` and `checked_mul` of 64-bit integers, `u64` and `usize`.
abbrev pub checked_add : ℕ → ℕ → Option ℕ
checked_add a b = if ltb (a + b) u64_mod then some (a + b) else none

abbrev pub checked_mul : ℕ → ℕ → Option ℕ
checked_mul a b = if ltb (a * b) u64_mod then some (a * b) else none

-- `a.saturating_add(b)` of `u64`.
abbrev pub saturating_add : ℕ → ℕ → ℕ
saturating_add a b = if ltb (a + b) u64_mod then a + b else u64_max

-- `[0; n]`
unfoldable pub zeros : ℕ → List ℕ
zeros zero = []
zeros (suc n) = 0 ∷ zeros n

pub length-zeros : (n : ℕ) → length (zeros n) ≡ n
unfolding zeros
length-zeros zero = refl
length-zeros (suc n) = ap suc (length-zeros n)

pub all_zero-zeros : (n : ℕ) → all_zero (zeros n) ≡ true
unfolding zeros
all_zero-zeros zero = refl
all_zero-zeros (suc n) = all_zero-zeros n

pub length-to_le : (k n : ℕ) → length (to_le k n) ≡ k
unfolding to_le
length-to_le zero n = refl
length-to_le (suc k) n = ap suc (length-to_le k (n / 256))

pub to_le-IsByte : (k n : ℕ) → All IsByte (to_le k n)
unfolding to_le
to_le-IsByte zero n = tt
to_le-IsByte (suc k) n = (omega arith, to_le-IsByte k (n / 256))

pub from_le-to_le : (k n : ℕ) → n < 256 ^ k → from_le (to_le k n) ≡ n
unfolding to_le from_le
from_le-to_le zero n h = omega arith
from_le-to_le (suc k) n h =
    let rest : n / 256 < 256 ^ k = omega (arith, pow-suc 256 k) in
    omega (arith, from_le-to_le k (n / 256) rest)

pub from_le-lt : (bs : List ℕ) → All IsByte bs → from_le bs < 256 ^ length bs
unfolding from_le
from_le-lt [] h = omega arith
from_le-lt (b ∷ bs) h = omega (arith, from_le-lt bs h.1, h.0, pow-suc 256 (length bs))

pub to_le-from_le : (bs : List ℕ) → All IsByte bs → to_le (length bs) (from_le bs) ≡ bs
unfolding to_le from_le
to_le-from_le [] h = refl
to_le-from_le (b ∷ bs) h =
    ap₂ (λ x t. x ∷ t) (omega (arith, h.0))
      (ap (to_le (length bs)) (omega (arith, h.0)) ∙ to_le-from_le bs h.1)

-- A slice at known offsets of three parts is the middle one.
pub slice-append {ℓ} :
    {A : Type ℓ} (a b : ℕ) (xs ys zs : List A)
    → a ≡ length xs
    → b ≡ a + length ys
    → slice (xs ++ (ys ++ zs)) a b ≡ ys
slice-append a b xs ys zs ea eb =
    rw (drop-append_left a xs (ys ++ zs) ea) (take-append_left (b - a) ys zs (omega arith))

pub length-slice {ℓ} :
    {A : Type ℓ} (xs : List A) (a b k : ℕ) → a + k ≡ b → b ≤ length xs → length (slice xs a b) ≡ k
length-slice xs a b k e h = length-take (b - a) (drop a xs) ∙ omega (arith, length-drop a xs)

-- An integer field of `k` bytes at offset `a` is in range, and its encoding is what stands there.
pub from_le-slice-lt :
    (xs : List ℕ) (a b k : ℕ)
    → All IsByte xs
    → a + k ≡ b
    → b ≤ length xs
    → from_le (slice xs a b) < 256 ^ k
from_le-slice-lt xs a b k bytes e h =
    rw (length-slice xs a b k e h) at
      (from_le-lt (slice xs a b) (All-take IsByte (b - a) (drop a xs) (All-drop IsByte a xs bytes)))

pub to_le-slice :
    (xs : List ℕ) (a b k : ℕ)
    → All IsByte xs
    → a + k ≡ b
    → b ≤ length xs
    → to_le k (from_le (slice xs a b)) ≡ slice xs a b
to_le-slice xs a b k bytes e h = rw (length-slice xs a b k e h) at (
    to_le-from_le (slice xs a b) (All-take IsByte (b - a) (drop a xs) (All-drop IsByte a xs bytes)))

pub drop-slice {ℓ} :
    {A : Type ℓ} (xs : List A) (a b : ℕ) {back : List A}
    → a ≤ b
    → drop b xs ≡ back
    → drop a xs ≡ slice xs a b ++ back
drop-slice xs a b h e =
    sym (take-append-drop (b - a) (drop a xs))
    ∙ ap (λ t. slice xs a b ++ t)
        (drop-drop (b - a) a xs
          ∙ ap (λ k. drop k xs) (let e' : a + (b - a) ≡ b = omega arith in e')
          ∙ e)

pub drop-field :
    (xs : List ℕ) (a b k : ℕ) {back : List ℕ}
    → All IsByte xs
    → a + k ≡ b
    → b ≤ length xs
    → drop b xs ≡ back
    → drop a xs ≡ to_le k (from_le (slice xs a b)) ++ back
drop-field xs a b k {back} bytes e h rest =
    drop-slice xs a b (omega arith) rest
    ∙ ap (λ t. t ++ back) (sym (to_le-slice xs a b k bytes e h))
