-- ===== src/Db/WalPayload.antt =====
-- db/wal_recovery.rs: the mutation payloads of the log, in the current (v2) and the legacy layout.
pub mod RoundTrip
pub mod Limits
use seerdb.Base.{
  ℕ, ◌+◌, Bool, ◌-◌, true, false, not, List, length, drop, from_le, slice, ltb, ◌==◌, if◌then◌else◌,
  checked_add, Result, Error, ok, err, corruption, invalid_argument, ok_or, ◌>>=◌, ◌>>◌, u32_mod,
}

-- `usize::checked_add` that fails with a corruption error.
abbrev end_of_key : ℕ → ℕ → Result Error ℕ
end_of_key start key_len = ok_or (checked_add start key_len) (corruption "WAL key length overflow")

unfoldable pub decode_put_payload : Bool → List ℕ → Result Error (List ℕ × List ℕ)
decode_put_payload true payload =
    if ltb (length payload) 8
    then err (corruption "WAL v2 put record too small")
    else let key_len = from_le (slice payload 0 4) in
      end_of_key 4 key_len >>= λ value_len_offset.
      if ltb (length payload) (value_len_offset + 4)
      then err (corruption "WAL v2 put key is truncated")
      else let value_len = from_le (slice payload value_len_offset (value_len_offset + 4)) in
        let value_offset = value_len_offset + 4 in
        if not (length payload == value_offset + value_len)
        then err (corruption "WAL v2 put value is truncated")
        else ok (slice payload 4 value_len_offset, drop value_offset payload)
decode_put_payload false payload =
    if ltb (length payload) 4
    then err (corruption "WAL put record too small")
    else let key_len = from_le (slice payload 0 2) in
      end_of_key 2 key_len >>= λ value_len_offset.
      if ltb (length payload) (value_len_offset + 2)
      then err (corruption "WAL put key is truncated")
      else let value_len = from_le (slice payload value_len_offset (value_len_offset + 2)) in
        let value_offset = value_len_offset + 2 in
        if not (length payload == value_offset + value_len)
        then err (corruption "WAL put value is truncated")
        else ok (slice payload 2 value_len_offset, drop value_offset payload)

unfoldable pub decode_delete_payload : Bool → List ℕ → Result Error (List ℕ)
decode_delete_payload true payload =
    if ltb (length payload) 4
    then err (corruption "WAL v2 delete record too small")
    else let key_len = from_le (slice payload 0 4) in
      if not (length payload == 4 + key_len)
      then err (corruption "WAL v2 delete key is truncated")
      else ok (drop 4 payload)
decode_delete_payload false payload =
    if ltb (length payload) 2
    then err (corruption "WAL delete record too small")
    else let key_len = from_le (slice payload 0 2) in
      if not (length payload == 2 + key_len)
      then err (corruption "WAL delete key is truncated")
      else ok (drop 2 payload)

-- `PAGE_SIZE - HEADER_SIZE - 4 - 4 - 8` of btree/node.rs.
abbrev pub max_key_size : ℕ
max_key_size = 4096 - 48 - 4 - 4 - 8

unfoldable pub validate_wal_key_length : List ℕ → Result Error (Unit {0})
validate_wal_key_length key =
    if ltb max_key_size (length key)
    then err (invalid_argument "key exceeds the maximum B-tree page key size")
    else if not (ltb (length key) u32_mod)
    then err (invalid_argument "key exceeds the durable WAL length limit")
    else ok tt

unfoldable pub validate_wal_put_lengths : List ℕ → List ℕ → Result Error (Unit {0})
unfolding validate_wal_key_length
validate_wal_put_lengths key value = do
  validate_wal_key_length key
  if not (ltb (length value) u32_mod)
      then err (invalid_argument "value exceeds the durable WAL length limit")
      else ok tt
