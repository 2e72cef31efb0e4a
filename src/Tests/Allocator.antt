-- ===== src/Tests/Allocator.antt =====
-- Tests of allocator.rs.
use seerdb.Base.{
  ℕ, ◌+◌, ◌-◌, ◌<◌, ◌≤◌, ◌⊎◌, saturating_add, ◌≡◌, refl, true, false, some, List, [], ◌∷◌, arith,
  contains, insert, remove, u64_max, from_le,
}
use seerdb.Allocator.{
  PageAllocator, pop, alloc, free, is_allocated, new, with_next_id, to_bytes, from_bytes, read_ids,
  expected_len,
}
use seerdb.Allocator.Invariant.{IsWellFormed}
use seerdb.Allocator.Reuse.{created, allocs, frees, Reach-alloc_fresh}
use seerdb.Allocator.Frontier.{after_allocs, alloc-after_allocs}
use seerdb.Allocator.Codec.{allocator_from_bytes-to_bytes, allocator_from_bytes-IsWellFormed}

-- Pages 1 and 4 are in use, 3 was freed before 2.
abbrev used_allocator : PageAllocator
used_allocator = record { next_id = 5; free_list = 3 ∷ 2 ∷ []; allocated = 4 ∷ 1 ∷ [] }

used_allocator-IsWellFormed : IsWellFormed used_allocator
unfolding contains
used_allocator-IsWellFormed = record {
  started = omega arith;
  distinct = ground arith;
  free_below = ground arith;
  allocated_below = λ id c. ground arith;
  disjoint = λ id c. ground arith;
}

last_freed_first_test : (alloc used_allocator).1 ≡ 2
unfolding alloc pop
last_freed_first_test = refl

in_sequence_test : (alloc (alloc new).0).1 ≡ 2
unfolding alloc pop new with_next_id
in_sequence_test = refl

double_free_test : (free (free used_allocator 4).0 4).1 ≡ false
unfolding free contains remove
double_free_test = refl

-- A page is allocated, freed and allocated again.
Reach-alloc_fresh_example :
    (is_allocated (free (alloc new).0 1).0 (alloc (free (alloc new).0 1).0).1 ≡ false)
    × (0 < (alloc (free (alloc new).0 1).0).1)
Reach-alloc_fresh_example =
    Reach-alloc_fresh (frees 1 (allocs created (unfold new with_next_id in omega arith)))

allocator_from_bytes-to_bytes_example :
    from_bytes (to_bytes used_allocator) ≡ some (record used_allocator { allocated = [] })
allocator_from_bytes-to_bytes_example =
    allocator_from_bytes-to_bytes used_allocator used_allocator-IsWellFormed (omega arith)
      (omega arith)

-- The frontier 5, and the freed page 3.
abbrev stored : List ℕ
stored = 5 ∷ 0 ∷ 0 ∷ 0 ∷ 0 ∷ 0 ∷ 0 ∷ 0 ∷ 1 ∷ 0 ∷ 0 ∷ 0 ∷ 3 ∷ 0 ∷ 0 ∷ 0 ∷ 0 ∷ 0 ∷ 0 ∷ 0 ∷ []

from_bytes_test :
    from_bytes stored ≡ some (record { next_id = 5; free_list = 3 ∷ []; allocated = [] })
unfolding from_bytes expected_len read_ids from_le contains insert
from_bytes_test = refl

allocator_from_bytes-IsWellFormed_example :
    IsWellFormed (record { next_id = 5; free_list = 3 ∷ []; allocated = [] })
allocator_from_bytes-IsWellFormed_example = allocator_from_bytes-IsWellFormed stored from_bytes_test

-- Two pages before the last ID: the fourth call returns a page that is in use.
alloc-after_allocs_example :
    ((alloc (after_allocs 3 (with_next_id (u64_max - 1)))).1
      ≡ saturating_add (with_next_id (u64_max - 1)).next_id 3)
    × ((((with_next_id (u64_max - 1)).next_id + 3 ≤ u64_max)
          × (is_allocated
                (after_allocs 3 (with_next_id (u64_max - 1)))
                ((with_next_id (u64_max - 1)).next_id + 3)
              ≡ is_allocated
                  (with_next_id (u64_max - 1))
                  ((with_next_id (u64_max - 1)).next_id + 3)))
        ⊎ ((u64_max < (with_next_id (u64_max - 1)).next_id + 3)
            × (is_allocated (after_allocs 3 (with_next_id (u64_max - 1))) u64_max ≡ true)))
alloc-after_allocs_example =
    alloc-after_allocs 3 (with_next_id (u64_max - 1)) (unfold with_next_id in refl)
      (unfold with_next_id in omega arith)
