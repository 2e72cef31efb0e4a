-- ===== src/Storage/History.antt =====
-- storage/manifest_history.rs, `ManifestHistory`: the append-only log of published manifests.
pub mod Order
pub mod Reconcile
pub mod RoundTrip
use seerdb.Base.{
  ℕ, zero, suc, ◌+◌, ◌-◌, ◌*◌, ◌/◌, Bool, true, false, not, ◌&&◌, ◌||◌, Option, none, some, List,
  [], ◌∷◌, ◌++◌, length, take, drop, ltb, ◌==◌, list_eq, if◌then◌else◌, to_le, from_le, slice,
  checked_add, checked_mul, contains, String, Result, ok, err, stuck, ◌>>=◌,
}
use seerdb.Storage.Format.{Crc32c, format_version, valid_page_size}
use seerdb.Storage.Format.Manifest
use seerdb.Storage.Format.Manifest.{Manifest, is_newer_than, manifest_slot_size}

-- b"SEERHST1"
abbrev pub manifest_history_magic : List ℕ
manifest_history_magic = 0x53 ∷ 0x45 ∷ 0x45 ∷ 0x52 ∷ 0x48 ∷ 0x53 ∷ 0x54 ∷ 0x31 ∷ []

abbrev pub header_size : ℕ
header_size = 12

abbrev pub entry_size : ℕ
entry_size = 260

pub record ManifestHistory : Type 0 where
  pub manifests : List Manifest

unfoldable pub new : ManifestHistory
new = record { manifests = [] }

-- The derived `==` of `Manifest`.
unfoldable pub manifest_eq : Manifest → Manifest → Bool
manifest_eq m n =
    list_eq m.database_id n.database_id
    && (m.history_id == n.history_id
        && (m.generation_id == n.generation_id
            && (m.commit_id == n.commit_id
                && (m.page_size == n.page_size
                    && (m.root_page_id == n.root_page_id
                        && (m.pmt_checkpoint_id == n.pmt_checkpoint_id
                            && (m.wal_segment == n.wal_segment
                                && (m.wal_offset == n.wal_offset
                                    && (m.mutation_count == n.mutation_count
                                        && (m.digest == n.digest
                                            && m.format_version == n.format_version))))))))))

-- `Vec::last`
unfoldable pub last : List Manifest → Option Manifest
last [] = none
last (m ∷ ms) = elim (last ms) [ none ↦ some m | some l ↦ some l ]

unfoldable pub latest : ManifestHistory → Option Manifest
latest h = last h.manifests

-- `iter().rev().find(|manifest| manifest.commit_id == commit_id)`
unfoldable pub find_last : ℕ → List Manifest → Option Manifest
find_last commit_id [] = none
find_last commit_id (m ∷ ms) = elim (find_last commit_id ms) [
  | some found ↦ some found
  | none ↦ if m.commit_id == commit_id then some m else none
]

unfoldable pub find_commit : ManifestHistory → ℕ → Option Manifest
find_commit h commit_id = find_last commit_id h.manifests

unfoldable pub reset : ManifestHistory → Manifest → ManifestHistory
reset h manifest = record { manifests = manifest ∷ [] }

unfoldable pub push : ManifestHistory → Manifest → Result String ManifestHistory
push h manifest =
    let appended : ManifestHistory = record { manifests = h.manifests ++ (manifest ∷ []) } in
    if not (manifest.format_version == format_version) || not (valid_page_size manifest.page_size)
    then err "invalid manifest format"
    else elim (latest h) [
      | none ↦ ok appended
      | some current ↦
          if manifest_eq current manifest
          then ok h
          else if not (is_newer_than manifest current)
          then err "manifest history is not monotonic"
          else ok appended
    ]

-- `iter().position(|manifest| *manifest == current)`
unfoldable pub position : Manifest → List Manifest → Option ℕ
position current [] = none
position current (m ∷ ms) =
    let rest = position current ms in
    if manifest_eq m current then some 0 else elim rest [ none ↦ none | some i ↦ some (suc i) ]

unfoldable pub reconcile_current : ManifestHistory → Manifest → Result String ManifestHistory
reconcile_current h current = elim (position current h.manifests) [
  | some index ↦ ok (record { manifests = take (index + 1) h.manifests })
  | none ↦ elim (latest h) [
    | none ↦ push h current
    | some l ↦
        let same_database = list_eq l.database_id current.database_id in
        let same_history = l.history_id == current.history_id in
        if same_database && (same_history && is_newer_than current l)
        then push h current
        else if same_database && not same_history
        then ok (reset h current)
        else err "manifest history disagrees with authoritative manifest"
  ]
]

-- `Vec::retain`
unfoldable pub retain : List ℕ → List Manifest → List Manifest
retain retained [] = []
retain retained (m ∷ ms) =
    let rest = retain retained ms in if contains m.generation_id retained then m ∷ rest else rest

-- The history that is left, and how many manifests were removed.
unfoldable pub prune_to_generations : ManifestHistory → List ℕ → ManifestHistory × ℕ
prune_to_generations h retained =
    let kept = retain retained h.manifests in
    (record { manifests = kept }, length h.manifests - length kept)

unfoldable pub header_bytes : List ℕ
header_bytes = manifest_history_magic ++ to_le 4 format_version

module _ (crc : Crc32c) where
  unfoldable pub entry_bytes : Manifest → List ℕ
  entry_bytes m =
      let manifest_bytes = Manifest.to_bytes crc m in
      manifest_bytes ++ to_le 4 (crc.checksum manifest_bytes)

  -- `for manifest in &self.manifests`
  unfoldable pub encode_entries : List Manifest → List ℕ
  encode_entries [] = []
  encode_entries (m ∷ ms) = entry_bytes m ++ encode_entries ms

  unfoldable pub to_bytes : ManifestHistory → Option (List ℕ)
  to_bytes h = elim (checked_mul (length h.manifests) entry_size) [
    | none ↦ none
    | some size ↦ elim (checked_add header_size size) [
      | none ↦ none
      | some total_len ↦ some (header_bytes ++ encode_entries h.manifests)
    ]
  ]

  -- What `from_bytes` reports for an entry's slot.
  unfoldable pub entry_manifest : Result String (Option Manifest) → Result String Manifest
  entry_manifest (ok none) = err "empty manifest history entry"
  entry_manifest (ok (some m)) = ok m
  entry_manifest (err e) = err "invalid manifest history manifest"
  entry_manifest stuck = stuck

  -- One entry of 260 bytes.
  unfoldable pub read_entry : List ℕ → ManifestHistory → Result String ManifestHistory
  read_entry chunk h =
      let slot = take manifest_slot_size chunk in
      if not (crc.checksum slot == from_le (drop manifest_slot_size chunk))
      then err "manifest history checksum mismatch"
      else entry_manifest (Manifest.from_bytes crc slot) >>= λ manifest. push h manifest

  -- `for chunk in ... as_chunks()`: the count is of the chunks left.
  unfoldable pub read_entries : ℕ → List ℕ → ManifestHistory → Result String ManifestHistory
  read_entries zero rest h = ok h
  read_entries (suc count) rest h = read_entry (take entry_size rest) h >>= λ pushed.
      read_entries count (drop entry_size rest) pushed

  unfoldable pub from_bytes : List ℕ → Result String ManifestHistory
  from_bytes bytes =
      if ltb (length bytes) header_size
      then err "manifest history is truncated"
      else if not (list_eq (slice bytes 0 8) manifest_history_magic)
      then err "invalid manifest history magic"
      else if not (from_le (slice bytes 8 12) == format_version)
      then err "unsupported manifest history format"
      else read_entries ((length bytes - header_size) / entry_size) (drop header_size bytes) new
