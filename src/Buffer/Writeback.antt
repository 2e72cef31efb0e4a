-- ===== src/Buffer/Writeback.antt =====
-- buffer/manager.rs, `BufferManager`: write-back of dirty pages, and explicit eviction.
use seerdb.Base.{
  ℕ, ◌+◌, ◌%◌, not, ◌||◌, Option, none, some, list_eq, if◌then◌else◌, u64_mod, saturating_add,
  set_at, lookup, without, Result, ok, err,
}
use seerdb.Buffer.Frame.{PageCacheKey, cache_key, Frame, is_dirty, is_pinned, mark_clean, clear}
use seerdb.Buffer.Manager.{
  BufferError, all_frames_pinned, dirty_page, pinned_page, stale_writeback, Writeback,
  BufferManager, frame_at,
}

abbrev bump : ℕ → ℕ
bump n = (n + 1) % u64_mod

-- The counters that are `Cell`s saturate.
abbrev pub count_request : BufferManager → BufferManager
count_request m = record m {
  stats = record (m.stats) { writeback_requests = saturating_add m.stats.writeback_requests 1 };
}

abbrev pub count_refusal : BufferManager → BufferManager
count_refusal m = record m {
  stats = record (m.stats) { writeback_refusals = saturating_add m.stats.writeback_refusals 1 };
}

abbrev writeback_of : PageCacheKey → Frame → Writeback
writeback_of page_key f = record { page_key = page_key; data_bytes = f.data_bytes }

unfoldable pub begin_writeback_key :
    BufferManager → PageCacheKey → BufferManager × Result BufferError (Option Writeback)
begin_writeback_key m page_key = elim (lookup page_key m.page_map) [
  | none ↦ (m, ok none)
  | some index ↦
      let f = frame_at m index in
      if not (is_dirty f)
      then (m, ok none)
      else if is_pinned f
      then (count_refusal (count_request m), err (pinned_page page_key.logical_page_id))
      else (count_request m, ok (some (writeback_of page_key f)))
]

-- What `complete_writeback` and `discard_writeback` refuse.
unfoldable pub refusal : Frame → Writeback → Option BufferError
refusal f w =
    if is_pinned f
    then some (pinned_page w.page_key.logical_page_id)
    else if not (is_dirty f) || not (list_eq f.data_bytes w.data_bytes)
    then some (stale_writeback w.page_key.logical_page_id)
    else none

unfoldable pub complete_writeback :
    BufferManager → Writeback → BufferManager × Result BufferError (Unit {0})
complete_writeback m w = elim (lookup w.page_key m.page_map) [
  | none ↦ (count_refusal m, err (stale_writeback w.page_key.logical_page_id))
  | some index ↦
      let f = frame_at m index in
      elim (refusal f w) [
        | some e ↦ (count_refusal m, err e)
        | none ↦ (
          record m {
            frames = set_at m.frames index (mark_clean f);
            stats = record (m.stats) { writes = bump m.stats.writes };
          },
          ok tt,
        )
      ]
]

unfoldable pub discard_writeback :
    BufferManager → Writeback → BufferManager × Result BufferError (Unit {0})
discard_writeback m w = elim (lookup w.page_key m.page_map) [
  | none ↦ (count_refusal m, err (stale_writeback w.page_key.logical_page_id))
  | some index ↦
      let f = frame_at m index in
      elim (refusal f w) [
        | some e ↦ (count_refusal m, err e)
        | none ↦ (
          record m {
            page_map = without w.page_key m.page_map;
            frames = set_at m.frames index (clear f);
            stats = record (m.stats) {
              free_frames = m.stats.free_frames + 1;
              writeback_discards = bump m.stats.writeback_discards;
            };
          },
          ok tt,
        )
      ]
]

abbrev pub count_eviction_attempt : BufferManager → BufferManager
count_eviction_attempt m = record m {
  stats = record (m.stats) { eviction_attempts = bump m.stats.eviction_attempts };
}

abbrev pub count_eviction_refusal : BufferManager → BufferManager
count_eviction_refusal m = record m {
  stats = record (m.stats) { eviction_refusals = bump m.stats.eviction_refusals };
}

-- A refused page is put back into the map, which is then as it was.
unfoldable pub evict_key :
    BufferManager → PageCacheKey → BufferManager × Result BufferError (Unit {0})
evict_key m page_key = elim (lookup page_key m.page_map) [
  | none ↦ (count_eviction_attempt m, ok tt)
  | some index ↦
      let tried = count_eviction_attempt m in
      let f = frame_at m index in
      if is_pinned f
      then (count_eviction_refusal tried, err all_frames_pinned)
      else if is_dirty f
      then (count_eviction_refusal tried, err (dirty_page page_key.logical_page_id))
      else (
        record tried {
          page_map = without page_key m.page_map;
          frames = set_at m.frames index (clear f);
          stats = record (tried.stats) {
            free_frames = m.stats.free_frames + 1;
            evictions = bump m.stats.evictions;
          };
        },
        ok tt,
      )
]
