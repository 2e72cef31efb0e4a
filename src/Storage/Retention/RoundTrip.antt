-- ===== src/Storage/Retention/RoundTrip.antt =====
-- A registry is read back from its bytes.
use seerdb.Base.{
  ℕ, suc, ◌+◌, ◌*◌, ◌<◌, ◌^◌, ◌≡◌, refl, sym, ap, ◌∙◌, true, false, some, List, [], ◌∷◌, ◌++◌,
  append-nil, append_assoc, length, length-append, length-to_le, take, drop, take-append_left,
  drop-append_left, slice, from_le, to_le, from_le-to_le, All, list_eq, ==_refl, arith, ok, ◌==◌,
  ltb, ltb-false, contains, insert, contains-insert, Distinct,
}
use seerdb.Storage.Format.{Crc32c}
use seerdb.Storage.Format.Manifest
use seerdb.Storage.Format.Manifest.{Manifest, IsCurrent}
use seerdb.Storage.Format.Manifest.RoundTrip.{length-to_bytes, manifest_from_bytes-to_bytes}
use seerdb.Storage.Retention.{
  retention_magic, RetainedRoot, RetentionRegistry, header, encode_roots, to_bytes, root_manifest,
  read_roots, any_beyond, check_next, body_len, from_bytes,
}
use seerdb.Storage.Retention.Registry.{ids, IsIssued, IsWellFormed}

-- A root whose manifest can be stored.
abbrev pub IsStored : RetainedRoot → Type 0
IsStored r = Manifest.InRange r.manifest × IsCurrent r.manifest

positive-ne_zero : (n : ℕ) → 0 < n → (n == 0) ≡ false
positive-ne_zero n h = ground arith

body_len-fits : (count : ℕ) → count < 2 ^ 32 → body_len count ≡ some (24 + count * 264)
unfolding body_len
body_len-fits count few = ground arith

module _ (crc : Crc32c) where
  abbrev entry : RetainedRoot → List ℕ
  entry r = to_le 8 r.snapshot_id ++ Manifest.to_bytes crc r.manifest

  length-entry : (r : RetainedRoot) → IsStored r → length (entry r) ≡ 264
  length-entry r h = omega (
    arith,
    length-append (to_le 8 r.snapshot_id) (Manifest.to_bytes crc r.manifest),
    length-to_le 8 r.snapshot_id,
    length-to_bytes crc r.manifest h.0,
  )

  length-encode_roots :
      (rs : List RetainedRoot) → All IsStored rs → length (encode_roots crc rs) ≡ length rs * 264
  unfolding encode_roots
  length-encode_roots [] h = omega arith
  length-encode_roots (r ∷ rs) h = omega (
    arith,
    length-append (entry r) (encode_roots crc rs),
    length-entry r h.0,
    length-encode_roots rs h.1,
  )

  -- A round on the entry of a root whose ID is new.
  read_roots_round :
      (count next : ℕ) (r : RetainedRoot) (rest : List ℕ) (seen : List ℕ) (acc : List RetainedRoot)
      → IsStored r
      → IsIssued next r.snapshot_id
      → next < 2 ^ 64
      → contains r.snapshot_id seen ≡ false
      → read_roots crc (suc count) (entry r ++ rest) seen acc
        ≡ read_roots crc count rest (insert r.snapshot_id seen) (acc ++ (r ∷ []))
  unfolding read_roots root_manifest
  read_roots_round count next r rest seen acc stored issued bound fresh =
      let slot : List ℕ = Manifest.to_bytes crc r.manifest in
      let size = length-to_bytes crc r.manifest stored.0 in
      let id_field : from_le (take 8 (entry r ++ rest)) ≡ r.snapshot_id =
        unfold to_le in from_le-to_le 8 r.snapshot_id (omega (arith, issued)) in
      let slot_field : take 256 (drop 8 (entry r ++ rest)) ≡ slot =
        unfold to_le in take-append_left 256 slot rest (sym size) in
      let back : drop 264 (entry r ++ rest) ≡ rest =
        drop-append_left 264 (entry r) rest (sym (length-entry r stored)) in
      let positive = positive-ne_zero r.snapshot_id issued.0 in
      rw
        (
          id_field,
          positive,
          fresh,
          slot_field,
          manifest_from_bytes-to_bytes crc r.manifest stored.0 stored.1,
          back,
        )
        refl

  read_roots-encode_roots :
      (rs : List RetainedRoot) (next : ℕ) (seen : List ℕ) (acc : List RetainedRoot)
      → All IsStored rs
      → All (IsIssued next) (ids rs)
      → next < 2 ^ 64
      → Distinct (ids rs)
      → ((id : ℕ) → contains id (ids rs) ≡ true → contains id seen ≡ false)
      → (tail : List ℕ)
      → read_roots crc (length rs) (encode_roots crc rs ++ tail) seen acc ≡ ok (acc ++ rs)
  unfolding encode_roots
  read_roots-encode_roots [] next seen acc stored issued bound apart fresh tail =
      unfold read_roots in rw append-nil refl
  read_roots-encode_roots (r ∷ rs) next seen acc stored issued bound apart fresh tail =
      let back : List ℕ = encode_roots crc rs ++ tail in
      let new : contains r.snapshot_id seen ≡ false =
        fresh r.snapshot_id (unfold contains in ground arith) in
      ap (λ b. read_roots crc (suc (length rs)) b seen acc)
        (append_assoc (entry r) (encode_roots crc rs) tail)
      ∙ read_roots_round (length rs) next r back seen acc stored.0 issued.0 bound new
      ∙ read_roots-encode_roots rs next (insert r.snapshot_id seen) (acc ++ (r ∷ [])) stored.1
          issued.1 bound apart.1
          (λ j c.
            unfold contains in
            ground (arith, contains-insert r.snapshot_id j seen, fresh j, apart.0))
          tail
      ∙ ap ok (append_assoc acc (r ∷ []) rs)

  check_next-issued :
      (next : ℕ) (rs : List RetainedRoot)
      → All (IsIssued next) (ids rs)
      → any_beyond next rs ≡ false
  unfolding any_beyond
  check_next-issued next [] h = refl
  check_next-issued next (r ∷ rs) h = ground (arith, h.0, check_next-issued next rs h.1)

  length-header : (g : RetentionRegistry) → length (header crc g) ≡ 24
  unfolding header to_le
  length-header g = refl

  to_bytes-eq-some :
      (g : RetentionRegistry) {bytes : List ℕ}
      → to_bytes crc g ≡ some bytes
      → (length g.roots < 2 ^ 32)
        × (bytes
            ≡ (header crc g ++ encode_roots crc g.roots)
              ++ to_le 4 (crc.checksum (header crc g ++ encode_roots crc g.roots)))
  unfolding to_bytes body_len
  to_bytes-eq-some g e = ground arith

  -- The checksummed bytes of a registry, and its serialization.
  abbrev content : RetentionRegistry → List ℕ
  content g = header crc g ++ encode_roots crc g.roots

  abbrev sealed : RetentionRegistry → List ℕ
  sealed g = content g ++ to_le 4 (crc.checksum (content g))

  length-content :
      (g : RetentionRegistry)
      → All IsStored g.roots
      → length (content g) ≡ 24 + length g.roots * 264
  length-content g h = omega (
    arith,
    length-append (header crc g) (encode_roots crc g.roots),
    length-header g,
    length-encode_roots g.roots h,
  )

  -- The header's fields, and what is behind it.
  header_fields :
      (g : RetentionRegistry) (rest : List ℕ)
      → (slice (header crc g ++ rest) 8 12 ≡ to_le 4 2)
        × (slice (header crc g ++ rest) 12 20 ≡ to_le 8 g.next_snapshot_id)
        × (slice (header crc g ++ rest) 20 24 ≡ to_le 4 (length g.roots))
        × (drop 24 (header crc g ++ rest) ≡ rest)
        × (slice (header crc g ++ rest) 0 8
            ≡ 0x53 ∷ 0x45 ∷ 0x45 ∷ 0x52 ∷ 0x52 ∷ 0x45 ∷ 0x54 ∷ 0x31 ∷ [])
  unfolding header to_le
  header_fields g rest = (refl, refl, refl, refl, refl)

  -- A well-formed registry whose manifests can be stored and whose next ID fits 64 bits is read back
  -- from its serialization, when it has one.
  pub retention_from_bytes-to_bytes :
      (g : RetentionRegistry) {bytes : List ℕ}
      → IsWellFormed g
      → All IsStored g.roots
      → g.next_snapshot_id < 2 ^ 64
      → to_bytes crc g ≡ some bytes
      → from_bytes crc bytes ≡ ok g
  unfolding from_bytes check_next
  retention_from_bytes-to_bytes g {bytes} h stored bound e =
      let (few, whole) = to_bytes-eq-some g e in
      let roots : List ℕ = encode_roots crc g.roots in
      let sum : List ℕ = to_le 4 (crc.checksum (content g)) in
      let size = length-content g stored in
      let total : length (sealed g) ≡ 24 + length g.roots * 264 + 4 =
        omega
          (arith, length-append (content g) sum, size, length-to_le 4 (crc.checksum (content g))) in
      let group : sealed g ≡ header crc g ++ (roots ++ sum) =
        append_assoc (header crc g) roots sum in
      let (version, next, count, behind, magic) = header_fields g (roots ++ sum) in
      let version_field : from_le (slice (sealed g) 8 12) ≡ 2 =
        rw (group, version) (from_le-to_le 4 2 (omega arith)) in
      let next_field : from_le (slice (sealed g) 12 20) ≡ g.next_snapshot_id =
        rw (group, next) (from_le-to_le 8 g.next_snapshot_id bound) in
      let count_field : from_le (slice (sealed g) 20 24) ≡ length g.roots =
        rw (group, count) (from_le-to_le 4 (length g.roots) few) in
      let magic_field : list_eq (slice (sealed g) 0 8) retention_magic ≡ true =
        rw (group, magic) refl in
      let rest_field : drop 24 (sealed g) ≡ roots ++ sum = rw group behind in
      let content_field : take (24 + length g.roots * 264) (sealed g) ≡ content g =
        take-append_left (24 + length g.roots * 264) (content g) sum (sym size) in
      let sum_field : from_le (drop (24 + length g.roots * 264) (sealed g))
          ≡ crc.checksum (content g) =
        ap from_le (drop-append_left (24 + length g.roots * 264) (content g) sum (sym size))
        ∙ from_le-to_le 4 (crc.checksum (content g)) (crc.checksum-lt (content g)) in
      let read : read_roots crc (length g.roots) (roots ++ sum) [] [] ≡ ok g.roots =
        read_roots-encode_roots g.roots g.next_snapshot_id [] [] stored h.issued bound h.distinct
          (λ id c. unfold contains in refl) sum in
      let started = positive-ne_zero g.next_snapshot_id h.started in
      let long : ltb (24 + length g.roots * 264 + 4) 28 ≡ false = ltb-false _ 28 (omega arith) in
      rw
        (
          whole,
          total,
          long,
          magic_field,
          version_field,
          next_field,
          started,
          count_field,
          body_len-fits (length g.roots) few,
          ==_refl (24 + length g.roots * 264 + 4),
          sum_field,
          content_field,
          ==_refl (crc.checksum (content g)),
          rest_field,
          read,
          check_next-issued g.next_snapshot_id g.roots h.issued,
        )
        refl
