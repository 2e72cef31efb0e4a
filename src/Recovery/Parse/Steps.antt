-- ===== src/Recovery/Parse/Steps.antt =====
-- One round of the scan: on a whole record, on a torn one, on an unused tail.
use seerdb.Base.{
  ℕ, zero, suc, ◌+◌, ◌<◌, ◌≤◌, ◌^◌, ◌≡◌, refl, ap, ◌∙◌, some, List, [], ◌∷◌, ◌++◌, drop,
  length-drop, inl, inr, ◌⊎◌, length, length-take, take, take-take, arith, ok, from_le, slice,
  zeros, all_zero-zeros, append-nil, length-zeros,
}
use seerdb.Storage.Format.{Crc32c}
use seerdb.Recovery.Record.{WalRecord, ParseStatus, incomplete, to_bytes, from_bytes}
use seerdb.Recovery.Record.RoundTrip.{
  length-to_bytes, length_field, wal_record_from_bytes-to_bytes, length_whole,
}
use seerdb.Recovery.Parse.{Round, finished, next, parse_round, parse_loop}

-- A round goes on only over a record that `from_bytes` has read, and that lies in the buffer.
pub parse_round-eq-next :
    (crc : Crc32c) (buf : List ℕ) {r : WalRecord} {n : ℕ}
    → parse_round crc buf ≡ next r n
    → (from_bytes crc buf ≡ some (r, n))
unfolding parse_round
parse_round-eq-next crc buf e = ground arith

pub from_bytes-consumed :
    (crc : Crc32c) (buf : List ℕ) {r : WalRecord} {n : ℕ}
    → from_bytes crc buf ≡ some (r, n)
    → (9 ≤ n) × (n ≤ length buf)
unfolding from_bytes
from_bytes-consumed crc buf e = ground arith

pub parse_round-to_bytes :
    (crc : Crc32c) (r : WalRecord) (rest : List ℕ)
    → length r.payload + 5 < 2 ^ 32
    → parse_round crc (to_bytes crc r ++ rest) ≡ next r (length r.payload + 9)
unfolding parse_round
parse_round-to_bytes crc r rest fits = ground (
  arith,
  length_field crc r rest fits,
  wal_record_from_bytes-to_bytes crc r rest fits,
  length_whole crc r rest fits,
)

pub parse_round_torn :
    (crc : Crc32c) (r : WalRecord) (n : ℕ)
    → length r.payload + 5 < 2 ^ 32
    → n < length (to_bytes crc r)
    → parse_round crc (take n (to_bytes crc r)) ≡ finished incomplete
unfolding parse_round
parse_round_torn crc r n fits short =
    ground (arith, length-take n (to_bytes crc r), length-to_bytes crc r, field)
  where
    field : 4 ≤ n → from_le (slice (take n (to_bytes crc r)) 0 4) ≡ length r.payload + 5
    field h =
        ap from_le (take-take 4 n (to_bytes crc r) h)
        ∙ (rw append-nil at (length_field crc r [] fits))

zero_length : (n : ℕ) → from_le (slice (zeros (suc (suc (suc (suc n))))) 0 4) ≡ 0
unfolding zeros from_le
zero_length n = refl

-- The unused part of a preallocated log.
pub parse_round-zeros :
    (crc : Crc32c) (n : ℕ) → parse_round crc (zeros (suc n)) ≡ finished incomplete
unfolding parse_round
parse_round-zeros crc zero = unfold zeros in refl
parse_round-zeros crc (suc zero) = unfold zeros in refl
parse_round-zeros crc (suc (suc zero)) = unfold zeros in refl
parse_round-zeros crc (suc (suc (suc n))) = ground (
  arith,
  length-zeros (suc (suc (suc (suc n)))),
  all_zero-zeros (suc (suc (suc (suc n)))),
  zero_length n,
)

pub Round-cases :
    (x : Round)
    → ((s : ParseStatus) × (x ≡ finished s)) ⊎ ((r : WalRecord) × (n : ℕ) × (x ≡ next r n))
Round-cases (finished s) = inl (s, refl)
Round-cases (next r n) = inr (r, n, refl)

-- A round that goes on leaves less to scan.
pub drop-shorter :
    (crc : Crc32c) (b : ℕ) (bs : List ℕ) (f : ℕ) {r : WalRecord} {n : ℕ}
    → parse_round crc (b ∷ bs) ≡ next r n
    → length (b ∷ bs) ≤ suc f
    → length (drop n (b ∷ bs)) ≤ f
drop-shorter crc b bs f {r} {n} e h = omega (
  arith,
  length-drop n (b ∷ bs),
  from_bytes-consumed crc (b ∷ bs) (parse_round-eq-next crc (b ∷ bs) e),
)

pub parse_loop_next :
    (crc : Crc32c) (f : ℕ) (buf : List ℕ) (acc : List WalRecord) {r : WalRecord} {n : ℕ}
    → parse_round crc buf ≡ next r n
    → parse_loop crc (suc f) buf acc ≡ parse_loop crc f (drop n buf) (acc ++ (r ∷ []))
unfolding parse_loop
parse_loop_next crc f [] acc e = unfold parse_round in cc
parse_loop_next crc f (b ∷ bs) acc e = rw (e, parse_loop)

pub parse_loop_finished :
    (crc : Crc32c) (f : ℕ) (buf : List ℕ) (acc : List WalRecord) {s : ParseStatus}
    → 0 < length buf
    → length buf ≤ f
    → parse_round crc buf ≡ finished s
    → parse_loop crc f buf acc ≡ ok (acc, s)
unfolding parse_loop
parse_loop_finished crc f [] acc more h e = absurd (omega arith)
parse_loop_finished crc zero (b ∷ bs) acc more h e = absurd (omega arith)
parse_loop_finished crc (suc f) (b ∷ bs) acc more h e = rw (e, parse_loop)

-- The fuel does not matter once it covers the buffer.
pub parse_loop-fuel :
    (crc : Crc32c) (f g : ℕ) (buf : List ℕ) (acc : List WalRecord)
    → length buf ≤ f
    → length buf ≤ g
    → parse_loop crc f buf acc ≡ parse_loop crc g buf acc
unfolding parse_loop
parse_loop-fuel crc f g [] acc hf hg = refl
parse_loop-fuel crc zero g (b ∷ bs) acc hf hg = absurd (omega arith)
parse_loop-fuel crc (suc f) zero (b ∷ bs) acc hf hg = absurd (omega arith)
parse_loop-fuel crc (suc f) (suc g) (b ∷ bs) acc hf hg =
    elim (Round-cases (parse_round crc (b ∷ bs))) [
      | inl (s, e) ↦ rw (e, parse_loop)
      | inr (r, n, e) ↦
          rw (e, parse_loop)
            (parse_loop-fuel crc f g (drop n (b ∷ bs)) (acc ++ (r ∷ []))
              (drop-shorter crc b bs f e hf) (drop-shorter crc b bs g e hg))
    ]
