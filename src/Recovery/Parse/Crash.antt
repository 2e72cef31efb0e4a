-- ===== src/Recovery/Parse/Crash.antt =====
-- A log cut off anywhere: the scan of a prefix of what was written.
use seerdb.Base.{
  ℕ, zero, suc, ◌-◌, ◌<◌, ◌≤◌, ◌≡◌, refl, ap, ◌∙◌, false, List, [], ◌∷◌, ◌++◌, length,
  length-append, length-take, take, take-append_ge, take-append_le, All, arith, append-nil,
  append_assoc, ok, leb, ◌==◌, if◌then◌else◌, Bool-cases, inl, inr,
}
use seerdb.Storage.Format.{Crc32c}
use seerdb.Recovery.Record.{WalRecord, ParseStatus, complete, incomplete, to_bytes, encode_all}
use seerdb.Recovery.Record.RoundTrip.{IsEncodable}
use seerdb.Recovery.Parse.{parse_loop, parse_records_with_status}
use seerdb.Recovery.Parse.Steps.{parse_round_torn, parse_loop_finished}
use seerdb.Recovery.Parse.Complete.{parse_loop-to_bytes}

-- The records that lie whole in the first `n` bytes of a log.
unfoldable pub whole_records : Crc32c → ℕ → List WalRecord → List WalRecord
whole_records crc n [] = []
whole_records crc n (r ∷ rs) =
    let rest = whole_records crc (n - length (to_bytes crc r)) rs in
    if leb (length (to_bytes crc r)) n then r ∷ rest else []

-- Whether a cut after `n` bytes falls between two records, or behind the last one.
unfoldable pub cut_status : Crc32c → ℕ → List WalRecord → ParseStatus
cut_status crc n [] = complete
cut_status crc n (r ∷ rs) =
    let rest = cut_status crc (n - length (to_bytes crc r)) rs in
    if leb (length (to_bytes crc r)) n then rest else if n == 0 then complete else incomplete

module _ (crc : Crc32c) where
  -- What is left of a record that was cut.
  parse_loop_torn :
      (f n : ℕ) (r : WalRecord) (acc : List WalRecord)
      → IsEncodable r
      → n < length (to_bytes crc r)
      → n ≤ f
      → parse_loop crc f (take n (to_bytes crc r)) acc
        ≡ ok (acc, if n == 0 then complete else incomplete)
  parse_loop_torn f zero r acc h short enough = unfold parse_loop in refl
  parse_loop_torn f (suc n) r acc h short enough =
      let size = length-take (suc n) (to_bytes crc r) in
      let more : (suc n == 0) ≡ false = ground arith in
      rw more (
        parse_loop_finished crc f (take (suc n) (to_bytes crc r)) acc (omega arith) (omega arith)
          (parse_round_torn crc r (suc n) h.fits short))

  parse_loop-take :
      (f n : ℕ) (rs : List WalRecord) (acc : List WalRecord)
      → All IsEncodable rs
      → length (take n (encode_all crc rs)) ≤ f
      → parse_loop crc f (take n (encode_all crc rs)) acc
        ≡ ok (acc ++ whole_records crc n rs, cut_status crc n rs)
  unfolding whole_records cut_status encode_all
  parse_loop-take f zero [] acc h enough = rw append-nil (unfold parse_loop in refl)
  parse_loop-take f (suc n) [] acc h enough = rw append-nil (unfold parse_loop in refl)
  parse_loop-take f n (r ∷ rs) acc h enough =
      let first : List ℕ = to_bytes crc r in
      let back : List ℕ = encode_all crc rs in
      elim (Bool-cases (leb (length first) n)) [
        | inl fits ↦
            let m : ℕ = n - length first in
            let split = take-append_ge n first back (ground arith) in
            let room : length (first ++ take m back) ≤ f = rw split at enough in
            rw fits (
              ap (λ b. parse_loop crc f b acc) split
              ∙ parse_loop-to_bytes crc f r (take m back) acc h.0 room
              ∙ parse_loop-take f m rs (acc ++ (r ∷ [])) h.1
                  (omega (arith, room, length-append first (take m back)))
              ∙ ap (λ l. ok (l, cut_status crc m rs))
                  (append_assoc acc (r ∷ []) (whole_records crc m rs)))
        | inr cut ↦
            let short : n < length first = ground arith in
            let split = take-append_le n first back (omega arith) in
            let room : length (take n first) ≤ f = rw split at enough in
            rw (cut, append-nil)
              (ap (λ b. parse_loop crc f b acc) split
                ∙ parse_loop_torn f n r acc h.0 short (omega (arith, room, length-take n first)))
      ]

  -- A crash may cut a log of encodable records after any byte. The scan of what is left returns exactly the records
  -- that lie whole before the cut, and reports a torn tail, never corruption.
  pub parse-take-encode_all :
      (n : ℕ) (rs : List WalRecord)
      → All IsEncodable rs
      → parse_records_with_status crc (take n (encode_all crc rs))
        ≡ ok (whole_records crc n rs, cut_status crc n rs)
  unfolding parse_records_with_status
  parse-take-encode_all n rs h = parse_loop-take _ n rs [] h (omega arith)
