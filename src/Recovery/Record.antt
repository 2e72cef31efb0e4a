-- ===== src/Recovery/Record.antt =====
-- recovery/record.rs: the WAL record wire format and prefix parsing.
-- A record is length(u32) type(u8) payload crc32c(u32); `crc32c::crc32c` is a parameter.
-- Every slice of the source stands behind a test of the buffer's length.
pub mod RoundTrip
pub mod Decode
use seerdb.Base.{
  ℕ, zero, suc, ◌+◌, ◌-◌, ◌%◌, ◌<◌, ◌^◌, not, Option, none, some, List, [], ◌∷◌, ◌++◌, length, drop,
  get_or, All, IsByte, ltb, ◌==◌, if◌then◌else◌, to_le, from_le, slice, all_zero, u32_mod,
  checked_add, Result, ok, stuck, Error, Bool, true, false,
}
use seerdb.Storage.Format.{Crc32c}
use seerdb.Storage.Format.CommitRecord
use seerdb.Storage.Format.CommitRecord.{CommitRecord}

pub data RecordType : Type 0 where
  pmt_update page_alloc page_dealloc blob_append txn_commit txn_abort checkpoint : RecordType
  put delete commit put_v2 delete_v2 : RecordType

pub data ParseStatus : Type 0 where
  complete incomplete corrupt : ParseStatus

pub record WalRecord : Type 0 where
  pub record_type : RecordType
  pub payload : List ℕ

-- The discriminants of `RecordType`.
unfoldable pub type_code : RecordType → ℕ
type_code pmt_update = 1
type_code page_alloc = 2
type_code page_dealloc = 3
type_code blob_append = 4
type_code txn_commit = 5
type_code txn_abort = 6
type_code checkpoint = 7
type_code put = 8
type_code delete = 9
type_code commit = 10
type_code put_v2 = 11
type_code delete_v2 = 12

-- The `match buf[4]` of `from_bytes`.
unfoldable pub type_of_code : ℕ → Option RecordType
type_of_code c =
    if c == 1
    then some pmt_update
    else if c == 2
    then some page_alloc
    else if c == 3
    then some page_dealloc
    else if c == 4
    then some blob_append
    else if c == 5
    then some txn_commit
    else if c == 6
    then some txn_abort
    else if c == 7
    then some checkpoint
    else if c == 8
    then some put
    else if c == 9
    then some delete
    else if c == 10
    then some commit
    else if c == 11
    then some put_v2
    else if c == 12
    then some delete_v2
    else none

abbrev new : RecordType → List ℕ → WalRecord
new record_type payload = record { record_type = record_type; payload = payload }

-- The constructors: integers are little-endian.
unfoldable pub new_pmt_update : ℕ → ℕ → ℕ → WalRecord
new_pmt_update page_id file_id offset =
    new pmt_update (to_le 8 page_id ++ (to_le 4 file_id ++ to_le 8 offset))

unfoldable pub new_page_alloc : ℕ → ℕ → WalRecord
new_page_alloc page_id file_id = new page_alloc (to_le 8 page_id ++ to_le 4 file_id)

unfoldable pub new_page_dealloc : ℕ → WalRecord
new_page_dealloc page_id = new page_dealloc (to_le 8 page_id)

unfoldable pub new_txn_commit : ℕ → WalRecord
new_txn_commit txn_id = new txn_commit (to_le 8 txn_id)

unfoldable pub new_txn_abort : ℕ → WalRecord
new_txn_abort txn_id = new txn_abort (to_le 8 txn_id)

unfoldable pub new_commit : CommitRecord → WalRecord
new_commit c = new commit (CommitRecord.to_bytes c)

-- `(self.record_type == RecordType::Commit).then(...).flatten()`
unfoldable pub commit_record : WalRecord → Option CommitRecord
commit_record r = elim (r.record_type) [ commit ↦ CommitRecord.from_bytes r.payload | _ ↦ none ]

-- `key.len() as u32` keeps the low 32 bits.
unfoldable pub new_put : List ℕ → List ℕ → WalRecord
new_put key value =
    new put_v2
      (to_le 4 (length key % u32_mod) ++ (key ++ (to_le 4 (length value % u32_mod) ++ value)))

unfoldable pub new_delete : List ℕ → WalRecord
new_delete key = new delete_v2 (to_le 4 (length key % u32_mod) ++ key)

module _ (crc : Crc32c) where
  unfoldable pub to_bytes : WalRecord → List ℕ
  to_bytes r =
      let checked = type_code r.record_type ∷ r.payload in
      to_le 4 ((1 + length r.payload + 4) % u32_mod) ++ (checked ++ to_le 4 (crc.checksum checked))

  -- The record at the front of the buffer, and the bytes that it takes.
  unfoldable pub from_bytes : List ℕ → Option (WalRecord × ℕ)
  from_bytes buf =
      let len = from_le (slice buf 0 4) in
      let total_len = 4 + len in
      if ltb (length buf) 4
      then none
      else if ltb len 5
      then none
      else if ltb (length buf) total_len
      then none
      else elim (type_of_code (get_or buf 4 0)) [
        | none ↦ none
        | some record_type ↦
            if not (
              from_le (slice buf (total_len - 4) total_len)
              == crc.checksum (slice buf 4 (total_len - 4)))
            then none
            else some (new record_type (slice buf 5 (total_len - 4)), total_len)
      ]

  -- The log that holds these records, one after the other.
  unfoldable pub encode_all : List WalRecord → List ℕ
  encode_all [] = []
  encode_all (r ∷ rs) = to_bytes r ++ encode_all rs
