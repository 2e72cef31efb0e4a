-- ===== src/Recovery/Parse/Complete.antt =====
-- The scan of what was written: whole records are returned, a torn or unused tail is not an error.
use seerdb.Base.{
  ℕ, zero, suc, ◌+◌, ◌<◌, ◌≤◌, ◌≡◌, refl, sym, ap, ◌∙◌, List, [], ◌∷◌, ◌++◌, length, length-append,
  drop-append_left, All, arith, append-nil, append_assoc, ok, zeros, length-zeros,
}
use seerdb.Storage.Format.{Crc32c}
use seerdb.Recovery.Record.{WalRecord, complete, incomplete, to_bytes, encode_all}
use seerdb.Recovery.Record.RoundTrip.{IsEncodable, length-to_bytes}
use seerdb.Recovery.Parse.{parse_loop, parse_records_with_status}
use seerdb.Recovery.Parse.Steps.{
  parse_round-to_bytes, parse_round-zeros, parse_loop-fuel, parse_loop_next, parse_loop_finished,
}

module _ (crc : Crc32c) where
  -- One whole record at the front is one round.
  pub parse_loop-to_bytes :
      (f : ℕ) (r : WalRecord) (rest : List ℕ) (acc : List WalRecord)
      → IsEncodable r
      → length (to_bytes crc r ++ rest) ≤ f
      → parse_loop crc f (to_bytes crc r ++ rest) acc ≡ parse_loop crc f rest (acc ++ (r ∷ []))
  parse_loop-to_bytes zero r rest acc h enough =
      absurd (omega (arith, length-to_bytes crc r, length-append (to_bytes crc r) rest))
  parse_loop-to_bytes (suc f) r rest acc h enough =
      let size = length-to_bytes crc r in
      let fits : length rest ≤ f = omega (arith, size, length-append (to_bytes crc r) rest) in
      parse_loop_next crc f (to_bytes crc r ++ rest) acc (parse_round-to_bytes crc r rest h.fits)
      ∙ ap (λ b. parse_loop crc f b (acc ++ (r ∷ [])))
          (drop-append_left (length r.payload + 9) (to_bytes crc r) rest (sym size))
      ∙ parse_loop-fuel crc f (suc f) rest (acc ++ (r ∷ [])) fits (omega arith)

  -- Scanning whole records and then the rest is scanning the rest, with the records in hand.
  parse_loop-encode_all :
      (f : ℕ) (rs : List WalRecord) (rest : List ℕ) (acc : List WalRecord)
      → All IsEncodable rs
      → length (encode_all crc rs ++ rest) ≤ f
      → parse_loop crc f (encode_all crc rs ++ rest) acc ≡ parse_loop crc f rest (acc ++ rs)
  unfolding encode_all
  parse_loop-encode_all f [] rest acc h enough = rw append-nil
  parse_loop-encode_all f (r ∷ rs) rest acc h enough =
      let back : List ℕ = encode_all crc rs ++ rest in
      let regroup = append_assoc (to_bytes crc r) (encode_all crc rs) rest in
      let fits : length (to_bytes crc r ++ back) ≤ f = rw regroup at enough in
      ap (λ b. parse_loop crc f b acc) regroup
      ∙ parse_loop-to_bytes f r back acc h.0 fits
      ∙ parse_loop-encode_all f rs rest (acc ++ (r ∷ [])) h.1
          (omega (arith, fits, length-append (to_bytes crc r) back))
      ∙ ap (parse_loop crc f rest) (append_assoc acc (r ∷ []) rs)

  -- A log of whole, encodable records followed by anything: those records come first, and the scan of what
  -- follows goes on from them.
  pub parse-encode_all :
      (rs : List WalRecord) (rest : List ℕ)
      → All IsEncodable rs
      → parse_records_with_status crc (encode_all crc rs ++ rest)
        ≡ parse_loop crc (length rest) rest rs
  unfolding parse_records_with_status
  parse-encode_all rs rest h =
      parse_loop-encode_all _ rs rest [] h (omega arith)
      ∙ parse_loop-fuel crc _ (length rest) rest rs
          (omega (arith, length-append (encode_all crc rs) rest)) (omega arith)

  -- A log of whole records is scanned to its end.
  pub parse-encode_all_whole :
      (rs : List WalRecord)
      → All IsEncodable rs
      → parse_records_with_status crc (encode_all crc rs) ≡ ok (rs, complete)
  parse-encode_all_whole rs h =
      (rw append-nil at (parse-encode_all rs [] h)) ∙ unfold parse_loop in refl

  -- A preallocated log: unused zeros, one at least, behind encodable records end the scan as a
  -- torn tail, and all the records are returned.
  pub parse-encode_all-zeros :
      (rs : List WalRecord) (n : ℕ)
      → All IsEncodable rs
      → 0 < n
      → parse_records_with_status crc (encode_all crc rs ++ zeros n) ≡ ok (rs, incomplete)
  parse-encode_all-zeros rs zero h more = absurd (omega arith)
  parse-encode_all-zeros rs (suc n) h more =
      parse-encode_all rs (zeros (suc n)) h
      ∙ parse_loop_finished crc _ (zeros (suc n)) rs (omega (arith, length-zeros (suc n)))
          (omega arith) (parse_round-zeros crc n)
