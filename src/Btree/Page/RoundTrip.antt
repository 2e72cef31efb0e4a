-- ===== src/Btree/Page/RoundTrip.antt =====
-- btree/node/page_format.rs: a header is read back from its bytes.
use seerdb.Base.{ℕ, ◌<◌, ◌^◌, ◌≡◌, refl, List, arith, to_le, slice, from_le-to_le, ◌++◌}
use seerdb.Btree.Page.{
  PageType, internal, leaf, NodeHeader, header_to_bytes, header_from_bytes, page_type_of,
  page_type_code,
}

pub record InRange (h : NodeHeader) : Type 0 where
  pub magic : h.magic < 2 ^ 32
  pub version : h.version < 2 ^ 32
  pub count : h.count < 2 ^ 32
  pub free_space : h.free_space < 2 ^ 32
  pub checksum : h.checksum < 2 ^ 64
  pub parent_id : h.parent_id < 2 ^ 32
  pub leftmost_child : h.leftmost_child < 2 ^ 64
  pub write_generation : h.write_generation < 2 ^ 64

page_type-code : (t : PageType) → page_type_of (page_type_code t) ≡ t
unfolding page_type_of
page_type-code internal = refl
page_type-code leaf = refl

page_type_code-lt : (t : PageType) → page_type_code t < 2 ^ 32
page_type_code-lt internal = omega arith
page_type_code-lt leaf = omega arith

module _ (h : NodeHeader) (rest : List ℕ) where
  page_type_field : slice (header_to_bytes h ++ rest) 8 12 ≡ to_le 4 (page_type_code h.page_type)
  unfolding header_to_bytes to_le
  page_type_field = refl

  magic_field : slice (header_to_bytes h ++ rest) 0 4 ≡ to_le 4 h.magic
  unfolding header_to_bytes to_le
  magic_field = refl

  version_field : slice (header_to_bytes h ++ rest) 4 8 ≡ to_le 4 h.version
  unfolding header_to_bytes to_le
  version_field = refl

  count_field : slice (header_to_bytes h ++ rest) 12 16 ≡ to_le 4 h.count
  unfolding header_to_bytes to_le
  count_field = refl

  free_space_field : slice (header_to_bytes h ++ rest) 16 20 ≡ to_le 4 h.free_space
  unfolding header_to_bytes to_le
  free_space_field = refl

  checksum_field : slice (header_to_bytes h ++ rest) 20 28 ≡ to_le 8 h.checksum
  unfolding header_to_bytes to_le
  checksum_field = refl

  parent_id_field : slice (header_to_bytes h ++ rest) 28 32 ≡ to_le 4 h.parent_id
  unfolding header_to_bytes to_le
  parent_id_field = refl

  leftmost_child_field : slice (header_to_bytes h ++ rest) 32 40 ≡ to_le 8 h.leftmost_child
  unfolding header_to_bytes to_le
  leftmost_child_field = refl

  write_generation_field : slice (header_to_bytes h ++ rest) 40 48 ≡ to_le 8 h.write_generation
  unfolding header_to_bytes to_le
  write_generation_field = refl

  pub header_from_bytes-to_bytes : InRange h → header_from_bytes (header_to_bytes h ++ rest) ≡ h
  unfolding header_from_bytes
  header_from_bytes-to_bytes r =
      rw
        (
          page_type_field,
          from_le-to_le 4 _ (page_type_code-lt h.page_type),
          page_type-code h.page_type,
          magic_field,
          from_le-to_le 4 _ r.magic,
          version_field,
          from_le-to_le 4 _ r.version,
          count_field,
          from_le-to_le 4 _ r.count,
          free_space_field,
          from_le-to_le 4 _ r.free_space,
          checksum_field,
          from_le-to_le 8 _ r.checksum,
          parent_id_field,
          from_le-to_le 4 _ r.parent_id,
          leftmost_child_field,
          from_le-to_le 8 _ r.leftmost_child,
          write_generation_field,
          from_le-to_le 8 _ r.write_generation,
        )
        refl
