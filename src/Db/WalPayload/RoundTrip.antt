-- ===== src/Db/WalPayload/RoundTrip.antt =====
-- The payloads that `WalRecord::put` and `WalRecord::delete` write are decoded to the mutation.
use seerdb.Base.{
  ℕ, ◌+◌, ◌%◌, ◌<◌, ◌^◌, ◌≡◌, refl, sym, ap, ◌∙◌, append_assoc, true, List, ◌++◌, length,
  length-append, drop, drop-append_left, arith, to_le, from_le, slice, from_le-to_le, length-to_le,
  slice-append, u32_mod, ok,
}
use seerdb.Recovery.Record.{new_put, new_delete}
use seerdb.Db.WalPayload.{decode_put_payload, decode_delete_payload}

module _ (key value : List ℕ) (hk : length key < 2 ^ 32) (hv : length value < 2 ^ 32) where
  payload_parts :
      (new_put key value).payload
      ≡ to_le 4 (length key) ++ (key ++ (to_le 4 (length value) ++ value))
  unfolding new_put
  payload_parts =
      let k : length key % u32_mod ≡ length key = omega arith in
      let v : length value % u32_mod ≡ length value = omega arith in rw (k, v)

  pub payload_size : length (new_put key value).payload ≡ 4 + length key + 4 + length value
  payload_size = rw payload_parts (
      omega (
        arith,
        length-append (to_le 4 (length key)) (key ++ (to_le 4 (length value) ++ value)),
        length-append key (to_le 4 (length value) ++ value),
        length-append (to_le 4 (length value)) value,
        length-to_le 4 (length key),
        length-to_le 4 (length value),
      ))

  key_len_field : from_le (slice (new_put key value).payload 0 4) ≡ length key
  key_len_field = rw payload_parts (unfold to_le in from_le-to_le 4 (length key) hk)

  key_field : slice (new_put key value).payload 4 (4 + length key) ≡ key
  key_field =
      rw payload_parts
        (slice-append 4 (4 + length key) (to_le 4 (length key)) key _ (sym (length-to_le 4 _)) refl)

  value_len_field :
      from_le (slice (new_put key value).payload (4 + length key) (4 + length key + 4))
      ≡ length value
  value_len_field =
      rw
        (payload_parts, ← append_assoc (to_le 4 (length key)) key (to_le 4 (length value) ++ value))
        (ap from_le (
            slice-append (4 + length key) (4 + length key + 4) (to_le 4 (length key) ++ key)
              (to_le 4 (length value)) value
              (omega (arith, length-append (to_le 4 (length key)) key, length-to_le 4 (length key)))
              (omega (arith, length-to_le 4 (length value))))
          ∙ from_le-to_le 4 _ hv)

  value_field : drop (4 + length key + 4) (new_put key value).payload ≡ value
  value_field =
      rw
        (
          payload_parts,
          ← append_assoc (to_le 4 (length key)) key (to_le 4 (length value) ++ value),
          ← append_assoc (to_le 4 (length key) ++ key) (to_le 4 (length value)) value,
        )
        (drop-append_left (4 + length key + 4)
          ((to_le 4 (length key) ++ key) ++ to_le 4 (length value)) value
          (omega (
            arith,
            length-append (to_le 4 (length key) ++ key) (to_le 4 (length value)),
            length-append (to_le 4 (length key)) key,
            length-to_le 4 (length key),
            length-to_le 4 (length value),
          )))

  -- A key and a value below 4 GiB each are decoded from the payload that `WalRecord::put` wrote.
  pub decode_put_payload-new_put :
      decode_put_payload true (new_put key value).payload ≡ ok (key, value)
  unfolding decode_put_payload
  decode_put_payload-new_put =
      ground (arith, payload_size, key_len_field, key_field, value_len_field, value_field)

-- A key below 4 GiB is decoded from the payload that `WalRecord::delete` wrote.
pub decode_delete_payload-new_delete :
    (key : List ℕ)
    → length key < 2 ^ 32
    → decode_delete_payload true (new_delete key).payload ≡ ok key
unfolding decode_delete_payload new_delete
decode_delete_payload-new_delete key h =
    let k : length key % u32_mod ≡ length key = omega arith in
    let field : from_le (slice (to_le 4 (length key) ++ key) 0 4) ≡ length key =
      unfold to_le in from_le-to_le 4 (length key) h in
    rw k (
      ground (
        arith,
        length-append (to_le 4 (length key)) key,
        length-to_le 4 (length key),
        field,
        drop-append_left 4 (to_le 4 (length key)) key (sym (length-to_le 4 (length key))),
      ))
