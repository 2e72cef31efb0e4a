-- ===== src/Base/Outcome.antt =====
-- `Result<T, E>`, and the variants of `Error` (src/error.rs) that the modelled code returns.
use Prim.Native.Nat.{ℕ}
use Prim.Native.String.{String}
use mathlib.Core.Path.{◌≡◌, refl}
use mathlib.Core.Option.{Option, none, some}

pub data Error : Type 0 where
  corruption : String → Error
  wal : String → Error
  invalid_argument : String → Error
  needs_recovery : String → Error
  serialization_conflict : ℕ → ℕ → Error
  commit_cleanup : ℕ → Error → Error

-- `stuck` is no value of the program: a loop of the model ran out of fuel.
pub data Result {ℓ} (E : Type 0) (A : Type ℓ) : Type ℓ where
  ok : A → Result E A
  err : E → Result E A
  stuck : Result E A

-- `?` on a result, and on a check that returns nothing.
infixl 5 ◌>>=◌
abbrev pub ◌>>=◌ {ℓ κ} :
    {E : Type 0} {A : Type ℓ} {B : Type κ} (m : Result E A) (next : A → Result E B) → Result E B
stuck >>= next = stuck
err e >>= next = err e
ok value >>= next = next value

infixl 5 ◌>>◌
abbrev pub ◌>>◌ {κ} :
    {E : Type 0} {B : Type κ} (check : Result E (Unit {0})) (rest : Result E B) → Result E B
stuck >> rest = stuck
err e >> rest = err e
ok u >> rest = rest

-- `option.ok_or_else(|| error)`
abbrev pub ok_or {ℓ} : {E : Type 0} {A : Type ℓ} → Option A → E → Result E A
ok_or (some a) e = ok a
ok_or none e = err e

pub >>=-eq-ok {ℓ κ} :
    {E : Type 0} {A : Type ℓ} {B : Type κ} (m : Result E A) (f : A → Result E B) {b : B}
    → (m >>= f) ≡ ok b
    → (a : A) × (m ≡ ok a) × (f a ≡ ok b)
>>=-eq-ok stuck f h = cc
>>=-eq-ok (err e) f h = cc
>>=-eq-ok (ok a) f h = (a, refl, h)

pub >>=-assoc {ℓ κ ν} :
    {E : Type 0} {A : Type ℓ} {B : Type κ} {C : Type ν} (m : Result E A) (f : A → Result E B)
    (g : B → Result E C)
    → ((m >>= f) >>= g) ≡ (m >>= λ a. f a >>= g)
>>=-assoc stuck f g = refl
>>=-assoc (err e) f g = refl
>>=-assoc (ok a) f g = refl

pub >>=-cong {ℓ κ} :
    {E : Type 0} {A : Type ℓ} {B : Type κ} (m : Result E A) (f g : A → Result E B)
    → ((a : A) → f a ≡ g a)
    → (m >>= f) ≡ (m >>= g)
>>=-cong stuck f g h = refl
>>=-cong (err e) f g h = refl
>>=-cong (ok a) f g h = h a

pub >>=-ok {ℓ} : {E : Type 0} {A : Type ℓ} (m : Result E A) → (m >>= λ a. ok a) ≡ m
>>=-ok stuck = refl
>>=-ok (err e) = refl
>>=-ok (ok a) = refl
