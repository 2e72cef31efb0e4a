-- ===== src/Btree/Page.antt =====
-- btree/node/page_format.rs: page types, blob pointers and the page header.
pub mod RoundTrip
use seerdb.Base.{
  ℕ, ◌<◌, ◌^◌, Bool, true, false, not, ◌&&◌, ◌||◌, Option, none, some, List, [], ◌∷◌, ◌++◌, ◌==◌,
  if◌then◌else◌, to_le, from_le, slice,
}

abbrev pub page_bytes : ℕ
page_bytes = 4096

abbrev pub header_size : ℕ
header_size = 48

abbrev pub magic_number : ℕ
magic_number = 0x53454552

abbrev pub page_version : ℕ
page_version = 3

pub data PageType : Type 0 where
  internal leaf : PageType

abbrev pub page_type_code : PageType → ℕ
page_type_code internal = 1
page_type_code leaf = 2

pub record BlobPointer : Type 0 where
  pub file_id : ℕ
  pub offset : ℕ
  pub length : ℕ

unfoldable pub pointer_to_bytes : BlobPointer → List ℕ
pointer_to_bytes p = to_le 4 p.file_id ++ (to_le 8 p.offset ++ to_le 4 p.length)

unfoldable pub pointer_from_bytes : List ℕ → BlobPointer
pointer_from_bytes buf = record {
  file_id = from_le (slice buf 0 4);
  offset = from_le (slice buf 4 12);
  length = from_le (slice buf 12 16);
}

pub record NodeHeader : Type 0 where
  pub magic : ℕ
  pub version : ℕ
  pub page_type : PageType
  pub count : ℕ
  pub free_space : ℕ
  pub checksum : ℕ
  pub parent_id : ℕ
  pub leftmost_child : ℕ
  pub write_generation : ℕ

unfoldable pub header_to_bytes : NodeHeader → List ℕ
header_to_bytes h =
    to_le 4 h.magic
    ++ (to_le 4 h.version
        ++ (to_le 4 (page_type_code h.page_type)
            ++ (to_le 4 h.count
                ++ (to_le 4 h.free_space
                    ++ (to_le 8 h.checksum
                        ++ (to_le 4 h.parent_id
                            ++ (to_le 8 h.leftmost_child ++ to_le 8 h.write_generation)))))))

-- An unknown code is read as a leaf.
unfoldable pub page_type_of : ℕ → PageType
page_type_of code = if code == 1 then internal else leaf

unfoldable pub header_from_bytes : List ℕ → NodeHeader
header_from_bytes buf = record {
  magic = from_le (slice buf 0 4);
  version = from_le (slice buf 4 8);
  page_type = page_type_of (from_le (slice buf 8 12));
  count = from_le (slice buf 12 16);
  free_space = from_le (slice buf 16 20);
  checksum = from_le (slice buf 20 28);
  parent_id = from_le (slice buf 28 32);
  leftmost_child = from_le (slice buf 32 40);
  write_generation = from_le (slice buf 40 48);
}

unfoldable pub is_valid : NodeHeader → Bool
is_valid h = h.magic == magic_number && h.version == page_version

unfoldable pub header_try_from_bytes : List ℕ → Option NodeHeader
header_try_from_bytes buf =
    let code = from_le (slice buf 8 12) in
    let header = header_from_bytes buf in
    if not (code == 1 || code == 2) then none else if is_valid header then some header else none

unfoldable pub new_header : PageType → NodeHeader
new_header page_type = record {
  magic = magic_number;
  version = page_version;
  page_type = page_type;
  count = 0;
  free_space = 4048;
  checksum = 0;
  parent_id = 0;
  leftmost_child = 0;
  write_generation = 0;
}
