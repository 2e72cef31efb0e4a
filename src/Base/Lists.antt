-- ===== src/Base/Lists.antt =====
-- Lists measured and sliced by native numbers, under the library's names.
use Prim.Native.Nat.{ℕ, zero, suc, ◌+◌, ◌-◌, ◌≤◌, ◌<◌, min}
use mathlib.Core.Path.{◌≡◌, refl, ap, ◌∙◌}
use mathlib.Core.List.{List, [], ◌∷◌, ◌++◌}
use native.Mathlib.Omega.{arith}

module _ {ℓ} {A : Type ℓ} where
  abbrev pub length : List A → ℕ
  length [] = 0
  length (x ∷ xs) = suc (length xs)

  abbrev pub take : ℕ → List A → List A
  take zero xs = []
  take (suc n) [] = []
  take (suc n) (x ∷ xs) = x ∷ take n xs

  abbrev pub drop : ℕ → List A → List A
  drop zero xs = xs
  drop (suc n) [] = []
  drop (suc n) (x ∷ xs) = drop n xs

  abbrev pub replicate : ℕ → A → List A
  replicate zero a = []
  replicate (suc n) a = a ∷ replicate n a

  abbrev pub get_or : List A → ℕ → A → A
  get_or [] i d = d
  get_or (x ∷ xs) zero d = x
  get_or (x ∷ xs) (suc i) d = get_or xs i d

  abbrev pub All {κ} : (A → Type κ) → List A → Type κ
  All P [] = Unit {κ}
  All P (x ∷ xs) = P x × All P xs

  pub length-append : (xs ys : List A) → length (xs ++ ys) ≡ length xs + length ys
  length-append [] ys = omega arith
  length-append (x ∷ xs) ys = omega (arith, length-append xs ys)

  pub length-drop : (n : ℕ) (xs : List A) → length (drop n xs) ≡ length xs - n
  length-drop zero xs = omega arith
  length-drop (suc n) [] = omega arith
  length-drop (suc n) (x ∷ xs) = omega (arith, length-drop n xs)

  pub length-take : (n : ℕ) (xs : List A) → length (take n xs) ≡ min n (length xs)
  length-take zero xs = omega arith
  length-take (suc n) [] = omega arith
  length-take (suc n) (x ∷ xs) = omega (arith, length-take n xs)

  pub length-replicate : (n : ℕ) (a : A) → length (replicate n a) ≡ n
  length-replicate zero a = refl
  length-replicate (suc n) a = ap suc (length-replicate n a)

  pub take-append-drop : (n : ℕ) (xs : List A) → take n xs ++ drop n xs ≡ xs
  take-append-drop zero xs = refl
  take-append-drop (suc n) [] = refl
  take-append-drop (suc n) (x ∷ xs) = rw (take-append-drop n xs)

  -- A prefix of known length is taken and dropped whole.
  pub take-append_left : (n : ℕ) (xs ys : List A) → n ≡ length xs → take n (xs ++ ys) ≡ xs
  take-append_left zero [] ys e = refl
  take-append_left zero (x ∷ xs) ys e = absurd (omega arith)
  take-append_left (suc n) [] ys e = absurd (omega arith)
  take-append_left (suc n) (x ∷ xs) ys e = ap (λ t. x ∷ t) (take-append_left n xs ys (omega arith))

  pub drop-append_left : (n : ℕ) (xs ys : List A) → n ≡ length xs → drop n (xs ++ ys) ≡ ys
  drop-append_left zero [] ys e = refl
  drop-append_left zero (x ∷ xs) ys e = absurd (omega arith)
  drop-append_left (suc n) [] ys e = absurd (omega arith)
  drop-append_left (suc n) (x ∷ xs) ys e = drop-append_left n xs ys (omega arith)

  -- Reading no further than a prefix does not see what follows it.
  pub take-append_le : (n : ℕ) (xs ys : List A) → n ≤ length xs → take n (xs ++ ys) ≡ take n xs
  take-append_le zero xs ys h = refl
  take-append_le (suc n) [] ys h = absurd (omega arith)
  take-append_le (suc n) (x ∷ xs) ys h = ap (λ t. x ∷ t) (take-append_le n xs ys (omega arith))

  pub drop-append_le :
      (n : ℕ) (xs ys : List A) → n ≤ length xs → drop n (xs ++ ys) ≡ drop n xs ++ ys
  drop-append_le zero xs ys h = refl
  drop-append_le (suc n) [] ys h = absurd (omega arith)
  drop-append_le (suc n) (x ∷ xs) ys h = drop-append_le n xs ys (omega arith)

  pub drop-nil : (n : ℕ) → ◌≡◌ {A = List A} (drop n []) []
  drop-nil zero = refl
  drop-nil (suc n) = refl

  pub drop-drop : (n m : ℕ) (xs : List A) → drop n (drop m xs) ≡ drop (m + n) xs
  drop-drop n zero xs = ap (λ k. drop k xs) (omega arith)
  drop-drop n (suc m) [] = rw (drop-nil n, drop-nil (suc m + n))
  drop-drop n (suc m) (x ∷ xs) =
      drop-drop n m xs
      ∙ ap (λ k. drop k (x ∷ xs)) (let e : suc (m + n) ≡ suc m + n = omega arith in e)

  pub take_all : (n : ℕ) (xs : List A) → length xs ≤ n → take n xs ≡ xs
  take_all zero [] h = refl
  take_all zero (x ∷ xs) h = absurd (omega arith)
  take_all (suc n) [] h = refl
  take_all (suc n) (x ∷ xs) h = ap (λ t. x ∷ t) (take_all n xs (omega arith))

  pub drop_all : (n : ℕ) (xs : List A) → length xs ≤ n → drop n xs ≡ []
  drop_all zero [] h = refl
  drop_all zero (x ∷ xs) h = absurd (omega arith)
  drop_all (suc n) [] h = refl
  drop_all (suc n) (x ∷ xs) h = drop_all n xs (omega arith)

  pub All-append {κ} : (P : A → Type κ) (xs ys : List A) → All P xs → All P ys → All P (xs ++ ys)
  All-append P [] ys hx hy = hy
  All-append P (x ∷ xs) ys hx hy = (hx.0, All-append P xs ys hx.1 hy)

  pub All-take {κ} : (P : A → Type κ) (n : ℕ) (xs : List A) → All P xs → All P (take n xs)
  All-take P zero xs h = tt
  All-take P (suc n) [] h = tt
  All-take P (suc n) (x ∷ xs) h = (h.0, All-take P n xs h.1)

  pub All-drop {κ} : (P : A → Type κ) (n : ℕ) (xs : List A) → All P xs → All P (drop n xs)
  All-drop P zero xs h = h
  All-drop P (suc n) [] h = tt
  All-drop P (suc n) (x ∷ xs) h = All-drop P n xs h.1

  -- One element at an index in range, as a slice of one.
  pub take-one-drop :
      (n : ℕ) (xs : List A) (d : A) → n < length xs → take 1 (drop n xs) ≡ get_or xs n d ∷ []
  take-one-drop n [] d h = absurd (omega arith)
  take-one-drop zero (x ∷ xs) d h = refl
  take-one-drop (suc n) (x ∷ xs) d h = take-one-drop n xs d (omega arith)

  pub take-take : (m n : ℕ) (xs : List A) → m ≤ n → take m (take n xs) ≡ take m xs
  take-take zero n xs h = refl
  take-take (suc m) zero xs h = absurd (omega arith)
  take-take (suc m) (suc n) [] h = refl
  take-take (suc m) (suc n) (x ∷ xs) h = ap (λ t. x ∷ t) (take-take m n xs (omega arith))

  pub take-append_ge :
      (n : ℕ) (xs ys : List A) → length xs ≤ n → take n (xs ++ ys) ≡ xs ++ take (n - length xs) ys
  take-append_ge n [] ys h = ap (λ k. take k ys) (let e : n ≡ n - 0 = omega arith in e)
  take-append_ge zero (x ∷ xs) ys h = absurd (omega arith)
  take-append_ge (suc n) (x ∷ xs) ys h =
      ap (λ t. x ∷ t)
        (take-append_ge n xs ys (omega arith)
          ∙ ap (λ k. xs ++ take k ys)
              (let e : n - length xs ≡ suc n - suc (length xs) = omega arith in e))

  pub All-append_left {κ} : (P : A → Type κ) (xs ys : List A) → All P (xs ++ ys) → All P xs
  All-append_left P [] ys h = tt
  All-append_left P (x ∷ xs) ys h = (h.0, All-append_left P xs ys h.1)

  pub All-append_right {κ} : (P : A → Type κ) (xs ys : List A) → All P (xs ++ ys) → All P ys
  All-append_right P [] ys h = h
  All-append_right P (x ∷ xs) ys h = All-append_right P xs ys h.1

  -- `xs[i] = a`
  abbrev pub set_at : List A → ℕ → A → List A
  set_at [] i a = []
  set_at (x ∷ xs) zero a = a ∷ xs
  set_at (x ∷ xs) (suc i) a = x ∷ set_at xs i a

  pub length-set_at : (xs : List A) (i : ℕ) (a : A) → length (set_at xs i a) ≡ length xs
  length-set_at [] i a = refl
  length-set_at (x ∷ xs) zero a = refl
  length-set_at (x ∷ xs) (suc i) a = ap suc (length-set_at xs i a)

  pub get_or-set_at :
      (xs : List A) (i : ℕ) (a d : A) → i < length xs → get_or (set_at xs i a) i d ≡ a
  get_or-set_at [] i a d h = absurd (omega arith)
  get_or-set_at (x ∷ xs) zero a d h = refl
  get_or-set_at (x ∷ xs) (suc i) a d h = get_or-set_at xs i a d (omega arith)

  pub get_or-set_at_ne :
      (xs : List A) (i j : ℕ) (a d : A) → (i ≡ j → ⊥) → get_or (set_at xs i a) j d ≡ get_or xs j d
  get_or-set_at_ne [] i j a d h = refl
  get_or-set_at_ne (x ∷ xs) zero zero a d h = absurd (h refl)
  get_or-set_at_ne (x ∷ xs) zero (suc j) a d h = refl
  get_or-set_at_ne (x ∷ xs) (suc i) zero a d h = refl
  get_or-set_at_ne (x ∷ xs) (suc i) (suc j) a d h = get_or-set_at_ne xs i j a d (λ e. h (ap suc e))

  pub All-get_or {κ} :
      (P : A → Type κ) (xs : List A) (i : ℕ) (d : A) → All P xs → i < length xs → P (get_or xs i d)
  All-get_or P [] i d h b = absurd (omega arith)
  All-get_or P (x ∷ xs) zero d h b = h.0
  All-get_or P (x ∷ xs) (suc i) d h b = All-get_or P xs i d h.1 (omega arith)

  pub All-set_at {κ} :
      (P : A → Type κ) (xs : List A) (i : ℕ) (a : A) → All P xs → P a → All P (set_at xs i a)
  All-set_at P [] i a h p = tt
  All-set_at P (x ∷ xs) zero a h p = (p, h.1)
  All-set_at P (x ∷ xs) (suc i) a h p = (h.0, All-set_at P xs i a h.1 p)

  pub drop-step :
      (xs : List A) (i : ℕ) (d : A) → i < length xs → drop i xs ≡ get_or xs i d ∷ drop (i + 1) xs
  drop-step [] i d h = absurd (omega arith)
  drop-step (x ∷ xs) zero d h = refl
  drop-step (x ∷ xs) (suc i) d h =
      drop-step xs i d (omega arith)
      ∙ ap (λ k. get_or xs i d ∷ drop k (x ∷ xs))
          (let e : suc (i + 1) ≡ suc i + 1 = omega arith in e)
