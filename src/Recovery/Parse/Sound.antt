-- ===== src/Recovery/Parse/Sound.antt =====
-- The scan of any bytes: it ends, and what it returns stands in them.
use seerdb.Base.{
  ℕ, zero, suc, ◌≤◌, ◌≡◌, ◌≢◌, refl, sym, ap, ◌∙◌, List, [], ◌∷◌, ◌++◌, length, drop, All, IsByte,
  All-drop, arith, append-nil, append_assoc, ok, inl, inr, some, ◌⊎◌,
}
use seerdb.Storage.Format.{Crc32c}
use seerdb.Recovery.Record.{WalRecord, ParseStatus, complete, to_bytes, from_bytes, encode_all}
use seerdb.Recovery.Record.RoundTrip.{IsEncodable}
use seerdb.Recovery.Record.Decode.{wal_record_from_bytes_sound}
use seerdb.Recovery.Parse.{finished, parse_round, parse_loop, parse_records_with_status}
use seerdb.Recovery.Parse.Steps.{
  Round-cases, parse_round-eq-next, drop-shorter, parse_loop_next, parse_loop_finished,
}

-- Bytes are read as these records and a tail at which the scan stops with this status.
pub record Reads (crc : Crc32c) (buf : List ℕ) (rs : List WalRecord) (status : ParseStatus)
    : Type 0 where
  pub tail : List ℕ
  pub split : buf ≡ encode_all crc rs ++ tail
  pub encodable : All IsEncodable rs
  pub ending :
      ((status ≡ complete) × (tail ≡ []))
      ⊎ ((tail ≢ []) × (status ≢ complete) × (parse_round crc tail ≡ finished status))

parse_round-ne-complete : (crc : Crc32c) (buf : List ℕ) → parse_round crc buf ≢ finished complete
unfolding parse_round
parse_round-ne-complete crc buf e = ground arith

module _ (crc : Crc32c) where
  Reads-cons :
      (buf : List ℕ) {r : WalRecord} {n : ℕ} {rs : List WalRecord} {status : ParseStatus}
      → All IsByte buf
      → from_bytes crc buf ≡ some (r, n)
      → Reads crc (drop n buf) rs status
      → Reads crc buf (r ∷ rs) status
  unfolding encode_all
  Reads-cons buf {r} {n} {rs} all e found =
      let (valid, taken, front) = wal_record_from_bytes_sound crc buf all e in
      record {
        tail = found.tail;
        split =
            front
            ∙ ap (λ b. to_bytes crc r ++ b) found.split
            ∙ sym (append_assoc (to_bytes crc r) (encode_all crc rs) found.tail);
        encodable = (valid, found.encodable);
        ending = found.ending;
      }

  parse_loop-Reads :
      (f : ℕ) (buf : List ℕ) (acc : List WalRecord)
      → All IsByte buf
      → length buf ≤ f
      → (rs : List WalRecord) × (status : ParseStatus) × (parse_loop crc f buf acc
          ≡ ok (acc ++ rs, status))
        × Reads crc buf rs status
  parse_loop-Reads f [] acc all h = (
    [],
    complete,
    rw append-nil (unfold parse_loop in refl),
    record {
      tail = [];
      split = unfold encode_all in refl;
      encodable = tt;
      ending = inl (refl, refl);
    },
  )
  parse_loop-Reads zero (b ∷ bs) acc all h = absurd (omega arith)
  parse_loop-Reads (suc f) (b ∷ bs) acc all h = elim (Round-cases (parse_round crc (b ∷ bs))) [
    | inl (s, e) ↦ (
      [],
      s,
      rw append-nil (parse_loop_finished crc (suc f) (b ∷ bs) acc (omega arith) h e),
      record {
        tail = b ∷ bs;
        split = unfold encode_all in refl;
        encodable = tt;
        ending = inr (λ q. cc, λ q. parse_round-ne-complete crc (b ∷ bs) (rw q at e), e);
      },
    )
    | inr (r, n, e) ↦
        let (rs, status, runs, found) =
          parse_loop-Reads f (drop n (b ∷ bs)) (acc ++ (r ∷ [])) (All-drop IsByte n (b ∷ bs) all)
            (drop-shorter crc b bs f e h) in
        (
          r ∷ rs,
          status,
          parse_loop_next crc f (b ∷ bs) acc e
              ∙ runs
              ∙ ap (λ l. ok (l, status)) (append_assoc acc (r ∷ []) rs),
          Reads-cons (b ∷ bs) all (parse_round-eq-next crc (b ∷ bs) e) found,
        )
  ]

  -- On any bytes the scan ends. The bytes are the encodings of the records returned, in order,
  -- and a tail: the status is complete exactly when nothing is left, and otherwise the verdict of
  -- a round on the tail.
  pub parse_records_sound :
      (buf : List ℕ)
      → All IsByte buf
      → (rs : List WalRecord) × (status : ParseStatus) × (parse_records_with_status crc buf
          ≡ ok (rs, status))
        × Reads crc buf rs status
  unfolding parse_records_with_status
  parse_records_sound buf all = parse_loop-Reads (length buf) buf [] all (omega arith)
