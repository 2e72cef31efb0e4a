-- ===== src/Storage/Retention.antt =====
-- storage/retention_format.rs: the registry of retained roots.
pub mod Registry
pub mod RoundTrip
use seerdb.Base.{
  ℕ, zero, suc, ◌+◌, ◌*◌, Bool, true, false, not, ◌||◌, Option, none, some, List, [], ◌∷◌, ◌++◌,
  length, take, drop, ltb, leb, ◌==◌, list_eq, if◌then◌else◌, to_le, from_le, slice, checked_add,
  checked_mul, contains, insert, u32_mod, String, Result, ok, err, stuck, ◌>>=◌, ok_or,
}
use seerdb.Storage.Format.{Crc32c, format_version}
use seerdb.Storage.Format.Manifest
use seerdb.Storage.Format.Manifest.{Manifest, manifest_slot_size}

pub record RetainedRoot : Type 0 where
  pub snapshot_id : ℕ
  pub manifest : Manifest

pub record RetentionRegistry : Type 0 where
  pub next_snapshot_id : ℕ
  pub roots : List RetainedRoot

-- b"SEERRET1"
abbrev pub retention_magic : List ℕ
retention_magic = 0x53 ∷ 0x45 ∷ 0x45 ∷ 0x52 ∷ 0x52 ∷ 0x45 ∷ 0x54 ∷ 0x31 ∷ []

abbrev pub retention_header_size : ℕ
retention_header_size = 8 + 4 + 8 + 4

abbrev pub retention_checksum_size : ℕ
retention_checksum_size = 4

unfoldable pub new : RetentionRegistry
new = record { next_snapshot_id = 1; roots = [] }

unfoldable pub insert_root : RetentionRegistry → Manifest → RetentionRegistry × Option ℕ
insert_root g manifest = elim (checked_add g.next_snapshot_id 1) [
  | none ↦ (g, none)
  | some next ↦ (
    record {
      next_snapshot_id = next;
      roots = g.roots ++ (record { snapshot_id = g.next_snapshot_id; manifest = manifest } ∷ []);
    },
    some g.next_snapshot_id,
  )
]

-- `position` and `Vec::remove`: the root with this ID, and the others.
unfoldable pub take_root : ℕ → List RetainedRoot → Option (RetainedRoot × List RetainedRoot)
take_root snapshot_id [] = none
take_root snapshot_id (r ∷ rs) =
    let rest = take_root snapshot_id rs in
    if r.snapshot_id == snapshot_id
    then some (r, rs)
    else elim rest [ none ↦ none | some (found, others) ↦ some (found, r ∷ others) ]

unfoldable pub remove_root : RetentionRegistry → ℕ → RetentionRegistry × Option RetainedRoot
remove_root g snapshot_id = elim (take_root snapshot_id g.roots) [
  | none ↦ (g, none)
  | some (found, others) ↦ (record g { roots = others }, some found)
]

-- The length up to the checksum.
unfoldable pub body_len : ℕ → Option ℕ
body_len count = elim (checked_mul count (8 + manifest_slot_size)) [
  | none ↦ none
  | some n ↦ checked_add retention_header_size n
]

-- `roots.iter().any(|root| root.snapshot_id.get() >= next_snapshot_id.get())`
unfoldable pub any_beyond : ℕ → List RetainedRoot → Bool
any_beyond next [] = false
any_beyond next (r ∷ rs) = leb next r.snapshot_id || any_beyond next rs

unfoldable pub check_next : ℕ → List RetainedRoot → Result String RetentionRegistry
check_next next roots =
    if any_beyond next roots
    then err "retention registry next ID is not beyond retained IDs"
    else ok (record { next_snapshot_id = next; roots = roots })

module _ (crc : Crc32c) where
  -- `for root in &self.roots`
  unfoldable pub encode_roots : List RetainedRoot → List ℕ
  encode_roots [] = []
  encode_roots (r ∷ rs) =
      (to_le 8 r.snapshot_id ++ Manifest.to_bytes crc r.manifest) ++ encode_roots rs

  unfoldable pub header : RetentionRegistry → List ℕ
  header g =
      retention_magic
      ++ (to_le 4 format_version ++ (to_le 8 g.next_snapshot_id ++ to_le 4 (length g.roots)))

  -- `u32::try_from(self.roots.len())` fails above 32 bits.
  unfoldable pub to_bytes : RetentionRegistry → Option (List ℕ)
  to_bytes g =
      let body = header g ++ encode_roots g.roots in
      if not (ltb (length g.roots) u32_mod) then none else elim (body_len (length g.roots)) [
        | none ↦ none
        | some len ↦ elim (checked_add len retention_checksum_size) [
          | none ↦ none
          | some total_len ↦ some (body ++ to_le 4 (crc.checksum body))
        ]
      ]

  -- What `from_bytes` reports for a root's manifest slot.
  unfoldable pub root_manifest : Result String (Option Manifest) → Result String Manifest
  root_manifest (ok none) = err "retention registry contains an empty manifest"
  root_manifest (ok (some m)) = ok m
  root_manifest (err e) = err "retention registry contains an invalid manifest"
  root_manifest stuck = stuck

  -- `for _ in 0..count`, on `bytes[offset..]`: the count is of the rounds left.
  unfoldable pub read_roots :
      ℕ → List ℕ → List ℕ → List RetainedRoot → Result String (List RetainedRoot)
  read_roots zero rest ids roots = ok roots
  read_roots (suc count) rest ids roots =
      let snapshot_id = from_le (take 8 rest) in
      let slot = take manifest_slot_size (drop 8 rest) in
      if snapshot_id == 0 || contains snapshot_id ids
      then err "retention registry contains a duplicate or invalid ID"
      else root_manifest (Manifest.from_bytes crc slot) >>= λ manifest.
          read_roots count (drop (8 + manifest_slot_size) rest) (insert snapshot_id ids)
            (roots ++ (record { snapshot_id = snapshot_id; manifest = manifest } ∷ []))

  unfoldable pub from_bytes : List ℕ → Result String RetentionRegistry
  from_bytes bytes =
      let next = from_le (slice bytes 12 20) in
      let count = from_le (slice bytes 20 24) in
      if ltb (length bytes) (retention_header_size + retention_checksum_size)
      then err "retention registry is truncated"
      else if not (list_eq (slice bytes 0 8) retention_magic)
      then err "invalid retention registry magic"
      else if not (from_le (slice bytes 8 12) == format_version)
      then err "unsupported retention registry format version"
      else if next == 0
      then err "retention registry next ID is invalid"
      else ok_or (body_len count) "retention registry length overflows" >>= λ checksum_offset.
          if not (length bytes == checksum_offset + retention_checksum_size)
          then err (
              if ltb (length bytes) (checksum_offset + retention_checksum_size)
              then "retention registry is truncated"
              else "retention registry has trailing bytes")
          else if not
              (from_le (drop checksum_offset bytes) == crc.checksum (take checksum_offset bytes))
          then err "retention registry checksum mismatch"
          else read_roots count (drop retention_header_size bytes) [] [] >>= check_next next
