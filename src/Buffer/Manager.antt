-- ===== src/Buffer/Manager.antt =====
-- buffer/manager.rs, `BufferManager`: the page table, the frames and the clock.
-- `page_map` never points outside the pool, so the default of a frame read is never seen.
use Prim.Native.Nat.{◌/◌}
use seerdb.Base.{
  ℕ, zero, suc, ◌+◌, ◌-◌, ◌*◌, ◌%◌, Bool, false, not, Option, none, some, List, [], ◌∷◌, length,
  get_or, set_at, replicate, if◌then◌else◌, ◌==◌, u64_mod, Pair, lookup, without, put, Result, ok,
  err, stuck,
}
use seerdb.Buffer.Frame.{
  PageCacheKey, cache_key, cache_key_eq, GuardAccess, read, write, Frame, new_empty, is_free,
  is_dirty, is_pinned, mark_dirty, acquire_guard, unpin, load, clear,
}

pub data BufferError : Type 0 where
  empty_pool all_frames_pinned : BufferError
  dirty_page pinned_page read_only_page stale_writeback : ℕ → BufferError

-- The counters that the manager keeps; `stats()` counts the pinned and the dirty frames anew.
pub record BufferStats : Type 0 where
  pub total_frames : ℕ
  pub free_frames : ℕ
  pub reads : ℕ
  pub writes : ℕ
  pub hits : ℕ
  pub writeback_requests : ℕ
  pub writeback_refusals : ℕ
  pub writeback_discards : ℕ
  pub eviction_attempts : ℕ
  pub eviction_refusals : ℕ
  pub evictions : ℕ

pub record Writeback : Type 0 where
  pub page_key : PageCacheKey
  pub data_bytes : List ℕ

pub record PageGuard : Type 0 where
  pub frame_index : ℕ
  pub page_id : ℕ
  pub access : GuardAccess

pub record BufferManager : Type 0 where
  pub frames : List Frame
  pub page_map : List (Pair PageCacheKey ℕ)
  pub clock_hand : ℕ
  pub stats : BufferStats

-- `+= 1` on a `u64`.
abbrev pub bump : ℕ → ℕ
bump n = (n + 1) % u64_mod

unfoldable pub new : ℕ → BufferManager
new capacity_bytes =
    let num_frames = capacity_bytes / 4096 in
    record {
      frames = replicate num_frames new_empty;
      page_map = [];
      clock_hand = 0;
      stats = record {
        total_frames = num_frames;
        free_frames = num_frames;
        reads = 0;
        writes = 0;
        hits = 0;
        writeback_requests = 0;
        writeback_refusals = 0;
        writeback_discards = 0;
        eviction_attempts = 0;
        eviction_refusals = 0;
        evictions = 0;
      };
    }

abbrev pub frame_at : BufferManager → ℕ → Frame
frame_at m index = get_or m.frames index new_empty

abbrev pub set_frame : BufferManager → ℕ → Frame → BufferManager
set_frame m index f = record m { frames = set_at m.frames index f }

unfoldable pub is_resident_key : BufferManager → PageCacheKey → Bool
is_resident_key m page_key = elim (lookup page_key m.page_map) [
  | none ↦ false
  | some index ↦ not (is_free (frame_at m index))
]

unfoldable pub rekey : BufferManager → PageCacheKey → PageCacheKey → BufferManager
rekey m from to = if cache_key_eq from to then m else elim (lookup from m.page_map) [
  | none ↦ m
  | some index ↦ elim (lookup to (without from m.page_map)) [
    | some other ↦ record m { page_map = put from index (without from m.page_map) }
    | none ↦ record m {
      page_map = put to index (without from m.page_map);
      frames = set_at m.frames index (record (frame_at m index) { page_key = some to });
    }
  ]
]

-- The first free frame, counted from an index on.
unfoldable pub first_free : List Frame → ℕ → Option ℕ
first_free [] index = none
first_free (f ∷ fs) index =
    let rest = first_free fs (index + 1) in if is_free f then some index else rest

-- What a round of the clock does with the frame under the hand.
pub data Visit : Type 0 where
  skip unreference note_dirty victim : Visit

unfoldable pub visit : Frame → Visit
visit f =
    if is_pinned f
    then skip
    else if f.referenced
    then unreference
    else if is_dirty f
    then note_dirty
    else victim

-- A clean victim is detached from the map.
unfoldable pub detach : BufferManager → ℕ → BufferManager
detach m index = record m {
  frames = set_at m.frames index (clear (frame_at m index));
  page_map = elim ((frame_at m index).page_key) [
    | none ↦ m.page_map
    | some page_key ↦ without page_key m.page_map
  ];
  stats = record (m.stats) {
    free_frames = m.stats.free_frames + 1;
    evictions = bump m.stats.evictions;
  };
}

unfoldable pub clock_error : Option PageCacheKey → BufferError
clock_error none = all_frames_pinned
clock_error (some page_key) = dirty_page page_key.logical_page_id

-- `for _ in 0..len.saturating_mul(2)`: the count is of the rounds left.
unfoldable pub clock_loop :
    ℕ → BufferManager → Option PageCacheKey → BufferManager × Result BufferError ℕ
clock_loop zero m dirty_key = (m, err (clock_error dirty_key))
clock_loop (suc rounds) m dirty_key =
    let index = m.clock_hand in
    let f = frame_at m index in
    let moved : BufferManager = record m { clock_hand = (index + 1) % length m.frames } in
    elim (visit f) [
      | skip ↦ clock_loop rounds moved dirty_key
      | unreference ↦
          clock_loop rounds (set_frame moved index (record f { referenced = false })) dirty_key
      | note_dirty ↦
          clock_loop rounds moved (elim dirty_key [ none ↦ f.page_key | some k ↦ some k ])
      | victim ↦ (detach moved index, ok index)
    ]

unfoldable pub clock_evict : BufferManager → BufferManager × Result BufferError ℕ
clock_evict m = clock_loop (length m.frames * 2) m none

-- The refusal is counted when the clock fails.
unfoldable pub after_clock :
    BufferManager × Result BufferError ℕ → BufferManager × Result BufferError ℕ
after_clock (m, ok index) = (m, ok index)
after_clock (m, stuck) = (m, stuck)
after_clock (m, err e) = (
  record m { stats = record (m.stats) { eviction_refusals = bump m.stats.eviction_refusals } },
  err e,
)

abbrev pub count_attempt : BufferManager → BufferManager
count_attempt m = record m {
  stats = record (m.stats) { eviction_attempts = bump m.stats.eviction_attempts };
}

unfoldable pub find_free_frame : BufferManager → BufferManager × Result BufferError ℕ
find_free_frame m =
    if length m.frames == 0 then (m, err empty_pool) else elim (first_free m.frames 0) [
      | some index ↦ (m, ok index)
      | none ↦ after_clock (clock_evict (count_attempt m))
    ]

abbrev pub mark_if_write : GuardAccess → Frame → Frame
mark_if_write read f = f
mark_if_write write f = mark_dirty f

abbrev pub guard_for : ℕ → PageCacheKey → GuardAccess → PageGuard
guard_for index page_key access = record {
  frame_index = index;
  page_id = page_key.logical_page_id;
  access = access;
}

unfoldable pub hit : BufferManager → ℕ → GuardAccess → BufferManager
hit m index access = record m {
  frames = set_at m.frames index (mark_if_write access (acquire_guard (frame_at m index)));
  stats = record (m.stats) { hits = bump m.stats.hits };
}

-- The page goes into a frame that was found.
unfoldable pub install : BufferManager → ℕ → PageCacheKey → List ℕ → GuardAccess → BufferManager
install m index page_key bytes access = record m {
  frames =
      set_at m.frames index
        (mark_if_write access (acquire_guard (load page_key bytes (frame_at m index))));
  page_map = put page_key index m.page_map;
  stats = record (m.stats) { reads = bump m.stats.reads; free_frames = m.stats.free_frames - 1 };
}

unfoldable pub miss :
    BufferManager × Result BufferError ℕ
    → PageCacheKey
    → List ℕ
    → GuardAccess
    → BufferManager × Result BufferError PageGuard
miss (m, ok index) page_key bytes access =
    (install m index page_key bytes access, ok (guard_for index page_key access))
miss (m, err e) page_key bytes access = (m, err e)
miss (m, stuck) page_key bytes access = (m, stuck)

unfoldable pub fetch_key :
    BufferManager
    → PageCacheKey
    → List ℕ
    → GuardAccess
    → BufferManager × Result BufferError PageGuard
fetch_key m page_key bytes access =
    let load_it = miss (find_free_frame m) page_key bytes access in
    elim (lookup page_key m.page_map) [
      | none ↦ load_it
      | some index ↦
          if is_free (frame_at m index)
          then load_it
          else (hit m index access, ok (guard_for index page_key access))
    ]

-- `frame_data_mut`, and the write of a whole page through what it lends.
unfoldable pub frame_data_mut :
    BufferManager → PageGuard → List ℕ → Result BufferError BufferManager
frame_data_mut m guard bytes = elim (guard.access) [
  | read ↦ err (read_only_page guard.page_id)
  | write ↦
      ok (
        set_frame m guard.frame_index
          (record (frame_at m guard.frame_index) { data_bytes = bytes }))
]

-- An operation on the frame that a key names, if it names one.
abbrev pub on_frame : (Frame → Frame) → BufferManager → PageCacheKey → BufferManager
on_frame change m page_key = elim (lookup page_key m.page_map) [
  | none ↦ m
  | some index ↦ set_frame m index (change (frame_at m index))
]

unfoldable pub mark_dirty_key : BufferManager → PageCacheKey → BufferManager
mark_dirty_key m page_key = on_frame mark_dirty m page_key

unfoldable pub unpin_key : BufferManager → PageCacheKey → BufferManager
unpin_key m page_key = on_frame unpin m page_key
