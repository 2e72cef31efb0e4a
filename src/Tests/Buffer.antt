-- ===== src/Tests/Buffer.antt =====
-- Tests of buffer/: a pool of two frames.
use seerdb.Base.{
  ℕ, ◌≡◌, refl, true, false, some, List, [], ◌∷◌, arith, Result, ok, err, lookup, put, without,
}
use seerdb.Buffer.Frame.{cache_key, unversioned, read, write, is_dirty, drop_guard}
use seerdb.Buffer.Manager.{
  BufferManager, BufferError, PageGuard, dirty_page, all_frames_pinned, stale_writeback, Writeback,
  frame_at, set_frame, new, fetch_key, find_free_frame, first_free, miss, install, clock_evict,
  clock_loop, clock_error, visit, detach, after_clock,
}
use seerdb.Buffer.Writeback.{complete_writeback, refusal, evict_key}
use seerdb.Buffer.Validate.{validate_invariants}
use seerdb.Buffer.Spares.{IsKept}
use seerdb.Buffer.Fetch.{Shows, shown}
use seerdb.Buffer.Steps.{fetched, dropped, completed, Reach, start, step}
use seerdb.Buffer.Steps.Dirty.{StaysDirty}
use seerdb.Buffer.Pool.{
  Reach-validate_invariants, fetch_key_spares, fetch_key-Shows, fetch_key_granted, Reach-StaysDirty,
}

abbrev page_one : List ℕ
page_one = 7 ∷ 8 ∷ []

-- Page 1 is written, and its guard dropped.
abbrev written_pool : BufferManager
written_pool = (fetch_key (new 8192) (unversioned 1) page_one write).0

abbrev dirty_pool : BufferManager
dirty_pool = set_frame written_pool 0 (drop_guard (frame_at written_pool 0))

-- Page 2 is read beside it, and its guard dropped: the pool is full.
abbrev read_pool : BufferManager
read_pool = (fetch_key dirty_pool (unversioned 2) [] read).0

abbrev full_pool : BufferManager
full_pool = set_frame read_pool 1 (drop_guard (frame_at read_pool 1))

written_pool-Reach : Reach written_pool
written_pool-Reach =
    step (new 8192) written_pool (start 8192) (fetched (new 8192) (unversioned 1) page_one write)

dirty_pool-Reach : Reach dirty_pool
unfolding fetch_key new lookup find_free_frame first_free miss install put without
dirty_pool-Reach =
    step written_pool dirty_pool written_pool-Reach (dropped written_pool 0 (omega arith))

read_pool-Reach : Reach read_pool
read_pool-Reach =
    step dirty_pool read_pool dirty_pool-Reach (fetched dirty_pool (unversioned 2) [] read)

full_pool-Reach : Reach full_pool
unfolding fetch_key new lookup find_free_frame first_free miss install put without
full_pool-Reach = step read_pool full_pool read_pool-Reach (dropped read_pool 1 (omega arith))

Reach-validate_invariants_example : validate_invariants full_pool ≡ ok tt
Reach-validate_invariants_example = Reach-validate_invariants full_pool full_pool-Reach

-- A third page takes the frame of page 2; the dirty page 1 stays.
abbrev third_fetch : BufferManager × Result BufferError PageGuard
third_fetch = fetch_key full_pool (unversioned 3) (9 ∷ []) read

third_fetch_index : third_fetch.1 ≡ ok (record { frame_index = 1; page_id = 3; access = read })
unfolding fetch_key new lookup find_free_frame first_free miss install put without clock_evict
    clock_loop visit detach after_clock
third_fetch_index = refl

fetch_key_spares_example :
    (lookup (unversioned 1) third_fetch.0.page_map ≡ some 0)
    × IsKept (frame_at full_pool 0) (frame_at third_fetch.0 0)
unfolding fetch_key new lookup find_free_frame first_free miss install put without
fetch_key_spares_example =
    fetch_key_spares full_pool (unversioned 3) (unversioned 1) (9 ∷ []) read 0 full_pool-Reach refl
      refl refl

fetch_key-Shows_example :
    Shows third_fetch.0
      (unversioned 3)
      (shown full_pool (unversioned 3) (9 ∷ []))
      (record { frame_index = 1; page_id = 3; access = read })
fetch_key-Shows_example =
    fetch_key-Shows full_pool (unversioned 3) (9 ∷ []) read
      (record { frame_index = 1; page_id = 3; access = read }) full_pool-Reach third_fetch_index

fetch_key_granted_example : (g : PageGuard) × (third_fetch.1 ≡ ok g)
unfolding fetch_key new lookup find_free_frame first_free miss install put without
fetch_key_granted_example =
    fetch_key_granted full_pool 1 (unversioned 3) (9 ∷ []) read full_pool-Reach (omega arith) refl

-- Page 1 is written back.
abbrev image_of_one : Writeback
image_of_one = record { page_key = unversioned 1; data_bytes = page_one }

Reach-StaysDirty_example :
    StaysDirty full_pool
      (complete_writeback full_pool image_of_one).0
      0
      (completed full_pool image_of_one)
unfolding fetch_key new lookup find_free_frame first_free miss install put without
Reach-StaysDirty_example =
    Reach-StaysDirty full_pool (complete_writeback full_pool image_of_one).0 0 full_pool-Reach
      (completed full_pool image_of_one) (omega arith) refl

image_of_one_accepted :
    ((complete_writeback full_pool image_of_one).1 ≡ ok tt)
    × (is_dirty (frame_at (complete_writeback full_pool image_of_one).0 0) ≡ false)
unfolding fetch_key new lookup find_free_frame first_free miss install put without
    complete_writeback refusal
image_of_one_accepted = (refl, refl)

-- A stale image cleans nothing.
abbrev stale_image : Writeback
stale_image = record { page_key = unversioned 1; data_bytes = 6 ∷ [] }

stale_image_refused :
    ((complete_writeback full_pool stale_image).1 ≡ err (stale_writeback 1))
    × (is_dirty (frame_at (complete_writeback full_pool stale_image).0 0) ≡ true)
unfolding fetch_key new lookup find_free_frame first_free miss install put without
    complete_writeback refusal
stale_image_refused = (refl, refl)

-- A dirty page is not evicted, and a held pool refuses a fetch.
dirty_not_evicted : (evict_key full_pool (unversioned 1)).1 ≡ err (dirty_page 1)
unfolding fetch_key new lookup find_free_frame first_free miss install put without evict_key
dirty_not_evicted = refl

small_pool_refuses :
    (fetch_key (fetch_key (new 4096) (unversioned 1) [] read).0 (unversioned 2) [] read).1
    ≡ err all_frames_pinned
unfolding fetch_key new lookup find_free_frame first_free miss install put without clock_evict
    clock_loop visit after_clock clock_error
small_pool_refuses = refl
