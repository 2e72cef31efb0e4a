-- ===== src/Tests/Mvcc.antt =====
-- Tests of mvcc/: the page mapping table.
use seerdb.Base.{◌≡◌, refl, some, [], ◌∷◌, arith, to_le, from_le}
use seerdb.Mvcc.Pmt.{
  Pmt, new_mapping, find, without, put, new, insert, to_bytes, from_bytes, sort_by_page_id, place,
  encode_entries, mapping_to_bytes, mapping_from_bytes, read_entries, expected_size,
}
use seerdb.Mvcc.Pmt.Map.{IsWellFormed, pmt_from_bytes-IsWellFormed}

abbrev table : Pmt
table = record {
  mappings =
      record { page_id = 9; mapping = new_mapping 0 8192 2 }
      ∷ record { page_id = 4; mapping = new_mapping 0 4096 1 }
      ∷ [];
  next_version = 3;
}

table-IsWellFormed : IsWellFormed table
table-IsWellFormed = record { below = (omega arith, (omega arith, tt)); frontier = omega arith }

two_inserts_test : (insert (insert new 4 0 4096).0 9 0 8192).0 ≡ table
unfolding insert new put without find
two_inserts_test = refl

-- The serialization is in the order of the page IDs.
read_back_test :
    from_bytes (to_bytes table)
    ≡ some (record {
      mappings =
          record { page_id = 9; mapping = new_mapping 0 8192 2 }
          ∷ record { page_id = 4; mapping = new_mapping 0 4096 1 }
          ∷ [];
      next_version = 3;
    })
unfolding from_bytes to_bytes sort_by_page_id place encode_entries mapping_to_bytes to_le from_le
    mapping_from_bytes read_entries expected_size put without new
read_back_test = refl

pmt_from_bytes-IsWellFormed_example : IsWellFormed table
pmt_from_bytes-IsWellFormed_example = pmt_from_bytes-IsWellFormed (to_bytes table) read_back_test
