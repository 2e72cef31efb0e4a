-- ===== src/Recovery/Record/Decode.antt =====
-- A record that `from_bytes` accepts stands in the buffer as its own encoding.
use seerdb.Base.{
  ℕ, ◌+◌, ◌-◌, ◌<◌, ◌^◌, ◌≤◌, ◌≡◌, refl, sym, ap, ap₂, ◌∙◌, some, List, ◌∷◌, ◌++◌, length, get_or,
  All, IsByte, All-take, All-drop, arith, to_le, from_le, slice, drop, slice-append, length-to_le,
  length-slice, take-one-drop, drop-field, drop-slice, from_le-slice-lt,
}
use seerdb.Storage.Format.{Crc32c}
use seerdb.Recovery.Record.{WalRecord, RecordType, type_code, type_of_code, to_bytes, from_bytes}
use seerdb.Recovery.Record.RoundTrip.{IsEncodable, to_bytes_parts}

type_code-type_of_code : (c : ℕ) (t : RecordType) → type_of_code c ≡ some t → type_code t ≡ c
unfolding type_code type_of_code
type_code-type_of_code c t e = ground arith

-- The tests of `from_bytes` on the way to a record.
from_bytes-eq-some :
    (crc : Crc32c) (buf : List ℕ) {r : WalRecord} {n : ℕ}
    → from_bytes crc buf ≡ some (r, n)
    → (5 ≤ from_le (slice buf 0 4))
      × (n ≡ 4 + from_le (slice buf 0 4))
      × (n ≤ length buf)
      × (type_of_code (get_or buf 4 0) ≡ some r.record_type)
      × (from_le (slice buf (n - 4) n) ≡ crc.checksum (slice buf 4 (n - 4)))
      × (r.payload ≡ slice buf 5 (n - 4))
unfolding from_bytes
from_bytes-eq-some crc buf e = ground arith

-- A buffer as the five parts of a record that ends at `n`.
parts :
    (buf : List ℕ) (k n : ℕ)
    → All IsByte buf
    → k + 4 ≡ n
    → n ≤ length buf
    → 5 ≤ k
    → from_le (slice buf 0 4) ≡ k
    → buf
      ≡ to_le 4 k
        ++ ((get_or buf 4 0 ∷ slice buf 5 k) ++ (to_le 4 (from_le (slice buf k n)) ++ drop n buf))
parts buf k n all e room big len =
    let back : List ℕ = to_le 4 (from_le (slice buf k n)) ++ drop n buf in
    drop-field buf 0 4 4 all refl (omega arith) (
      drop-slice buf 4 5 (omega arith)
        (drop-slice buf 5 k big (drop-field buf k n 4 all e room refl)))
    ∙ ap₂ (λ v t. to_le 4 v ++ (t ++ (slice buf 5 k ++ back))) len
        (take-one-drop 4 buf 0 (omega arith))

-- A record that `from_bytes` returns can be encoded again, its length is the number of bytes
-- taken, and these bytes are its encoding.
pub wal_record_from_bytes_sound :
    (crc : Crc32c) (buf : List ℕ) {r : WalRecord} {n : ℕ}
    → All IsByte buf
    → from_bytes crc buf ≡ some (r, n)
    → IsEncodable r × (n ≡ length r.payload + 9) × (buf ≡ to_bytes crc r ++ drop n buf)
wal_record_from_bytes_sound crc buf {r} {n} all e =
    let (big, total, room, type, sum, payload) = from_bytes-eq-some crc buf e in
    let code : type_code r.record_type ≡ get_or buf 4 0 = type_code-type_of_code _ _ type in
    let k : ℕ = n - 4 in
    let size : length r.payload + 5 ≡ k = omega (
      arith,
      ap (length {A = ℕ}) payload,
      length-slice buf 5 k (k - 5) (omega arith) (omega arith),
    ) in
    let whole : buf
        ≡ to_le 4 k
          ++ ((type_code r.record_type ∷ r.payload)
              ++ (to_le 4 (from_le (slice buf k n)) ++ drop n buf)) =
      rw (code, payload) (parts buf k n all (omega arith) room (omega arith) (omega arith)) in
    let checked : slice buf 4 k ≡ type_code r.record_type ∷ r.payload =
      ap (λ b. slice b 4 k) whole
      ∙ slice-append 4 k (to_le 4 k) (type_code r.record_type ∷ r.payload) _
          (sym (length-to_le 4 k)) (omega arith) in
    let fits : length r.payload + 5 < 2 ^ 32 =
      omega (arith, from_le-slice-lt buf 0 4 4 all refl (omega arith)) in
    (
      record { bytes = rw payload (All-take IsByte _ _ (All-drop IsByte 5 buf all)); fits = fits },
      omega arith,
      (rw (sum, checked, ← size) at whole) ∙ sym (to_bytes_parts crc r (drop n buf) fits),
    )
