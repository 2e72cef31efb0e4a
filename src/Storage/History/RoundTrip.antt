-- ===== src/Storage/History/RoundTrip.antt =====
-- A history is read back from its log, and a torn last entry is ignored.
use seerdb.Base.{
  ltb, ltb-false, ℕ, ◌-◌, ◌*◌, ◌/◌, ◌<◌, ◌≡◌, refl, sym, ap, ◌∙◌, true, false, some, List, [], ◌∷◌,
  ◌++◌, append-nil, append_assoc, length, length-append, length-to_le, take-append_left,
  drop-append_left, from_le, to_le, from_le-to_le, All, ==_refl, arith, ok, Option-cases, inl, inr,
}
use seerdb.Storage.Format.{Crc32c}
use seerdb.Storage.Format.Manifest
use seerdb.Storage.Format.Manifest.{Manifest, is_newer_than, IsCurrent}
use seerdb.Storage.Format.Manifest.RoundTrip.{length-to_bytes, manifest_from_bytes-to_bytes}
use seerdb.Storage.History.{
  ManifestHistory, new, manifest_eq, last, latest, push, header_bytes, entry_bytes, encode_entries,
  to_bytes, entry_manifest, read_entry, read_entries, from_bytes,
}
use seerdb.Storage.History.Order.{Ordered, last-cons, last-nil}

-- A manifest that a history stores: its fields fit, and it is of the current format.
abbrev pub IsStored : Manifest → Type 0
IsStored m = Manifest.InRange m × IsCurrent m

newer→not_eq : (m l : Manifest) → is_newer_than m l ≡ true → manifest_eq l m ≡ false
unfolding is_newer_than manifest_eq
newer→not_eq m l newer = ground arith

-- In an ordered list, what follows a prefix is newer than the prefix's last manifest.
Ordered-newer :
    (front : List Manifest) (m l : Manifest) (back : List Manifest)
    → Ordered (front ++ (m ∷ back))
    → last front ≡ some l
    → is_newer_than m l ≡ true
Ordered-newer [] m l back h e = absurd (last-nil e)
Ordered-newer (n ∷ ns) m l back h e = elim (last-cons n ns e) [
  | inl (empty, same) ↦ rw same (rw empty at h.0).0
  | inr found ↦ Ordered-newer ns m l back h.1 found
]

push-next :
    (front : List Manifest) (m : Manifest) (back : List Manifest)
    → Ordered (front ++ (m ∷ back))
    → IsCurrent m
    → push (record { manifests = front }) m ≡ ok (record { manifests = front ++ (m ∷ []) })
unfolding push latest
push-next front m back h c = elim (Option-cases (last front)) [
  | inl empty ↦ ground (arith, empty, c.version, c.page_size)
  | inr (l, found) ↦
      let newer = Ordered-newer front m l back h found in
      ground (arith, found, c.version, c.page_size, newer→not_eq m l newer, newer)
]

module _ (crc : Crc32c) where
  length-entry_bytes : (m : Manifest) → Manifest.InRange m → length (entry_bytes crc m) ≡ 260
  unfolding entry_bytes
  length-entry_bytes m h = omega (
    arith,
    length-append (Manifest.to_bytes crc m) (to_le 4 (crc.checksum (Manifest.to_bytes crc m))),
    length-to_bytes crc m h,
    length-to_le 4 (crc.checksum (Manifest.to_bytes crc m)),
  )

  read_entry-entry_bytes :
      (m : Manifest) (h : ManifestHistory)
      → IsStored m
      → read_entry crc (entry_bytes crc m) h ≡ push h m
  unfolding read_entry entry_bytes entry_manifest
  read_entry-entry_bytes m h (fits, current) =
      let slot : List ℕ = Manifest.to_bytes crc m in
      rw (
        take-append_left 256 slot (to_le 4 (crc.checksum slot)) (sym (length-to_bytes crc m fits)),
        drop-append_left 256 slot (to_le 4 (crc.checksum slot)) (sym (length-to_bytes crc m fits)),
        from_le-to_le 4 (crc.checksum slot) (crc.checksum-lt slot),
        ==_refl (crc.checksum slot),
        manifest_from_bytes-to_bytes crc m fits current,
      )

  length-encode_entries :
      (ms : List Manifest) → All IsStored ms → length (encode_entries crc ms) ≡ length ms * 260
  unfolding encode_entries
  length-encode_entries [] h = omega arith
  length-encode_entries (m ∷ ms) h = omega (
    arith,
    length-append (entry_bytes crc m) (encode_entries crc ms),
    length-entry_bytes m h.0.0,
    length-encode_entries ms h.1,
  )

  read_entries-encode_entries :
      (ms front : List Manifest) (torn : List ℕ)
      → All IsStored ms
      → Ordered (front ++ ms)
      → read_entries crc (length ms) (encode_entries crc ms ++ torn) (record { manifests = front })
        ≡ ok (record { manifests = front ++ ms })
  unfolding read_entries encode_entries
  read_entries-encode_entries [] front torn stored ordered = rw append-nil refl
  read_entries-encode_entries (m ∷ ms) front torn stored ordered =
      let back : List ℕ = encode_entries crc ms ++ torn in
      let size = sym (length-entry_bytes m stored.0.0) in
      rw
        (
          append_assoc (entry_bytes crc m) (encode_entries crc ms) torn,
          take-append_left 260 (entry_bytes crc m) back size,
          drop-append_left 260 (entry_bytes crc m) back size,
          read_entry-entry_bytes m (record { manifests = front }) stored.0,
          push-next front m ms ordered stored.0.1,
        )
        (read_entries-encode_entries ms (front ++ (m ∷ [])) torn stored.1
            (rw (append_assoc front (m ∷ []) ms) ordered)
          ∙ ap (λ l. ok (record { manifests = l })) (append_assoc front (m ∷ []) ms))

  from_bytes-header :
      (rest : List ℕ)
      → from_bytes crc (header_bytes ++ rest)
        ≡ read_entries crc ((length (header_bytes ++ rest) - 12) / 260) rest new
  unfolding from_bytes header_bytes to_le from_le
  from_bytes-header rest =
      let long : ltb (length (header_bytes ++ rest)) 12 ≡ false =
        ltb-false (length (header_bytes ++ rest)) 12 (omega arith) in
      rw long refl

  length-header_bytes : length header_bytes ≡ 12
  unfolding header_bytes to_le
  length-header_bytes = refl

  -- The log of a valid history whose fields fit, with fewer than 260 bytes of a torn entry behind
  -- it, is read back as that history.
  pub history_from_bytes-to_bytes :
      (h : ManifestHistory) (torn : List ℕ) {bytes : List ℕ}
      → All IsStored h.manifests
      → Ordered h.manifests
      → to_bytes crc h ≡ some bytes
      → length torn < 260
      → from_bytes crc (bytes ++ torn) ≡ ok h
  unfolding from_bytes
  history_from_bytes-to_bytes h torn {bytes} stored ordered e short =
      let entries : List ℕ = encode_entries crc h.manifests in
      let whole : bytes ≡ header_bytes ++ entries = unfold to_bytes in ground arith in
      let number : (length (header_bytes ++ (entries ++ torn)) - 12) / 260 ≡ length h.manifests =
        omega (
          arith,
          length-append header_bytes (entries ++ torn),
          length-header_bytes,
          length-append entries torn,
          length-encode_entries h.manifests stored,
        ) in
      ap (λ b. from_bytes crc (b ++ torn)) whole
      ∙ ap (from_bytes crc) (append_assoc header_bytes entries torn)
      ∙ from_bytes-header (entries ++ torn)
      ∙ ap (λ n. read_entries crc n (entries ++ torn) new) number
      ∙ unfold new in read_entries-encode_entries h.manifests [] torn stored ordered
