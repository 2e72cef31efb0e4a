-- ===== src/Buffer/Steps.antt =====
-- buffer/manager.rs: the pools that the operations reach.
pub mod Frames
pub mod Consistent
pub mod Dirty
use seerdb.Base.{
  ℕ, zero, suc, ◌+◌, ◌-◌, ◌*◌, ◌/◌, ◌%◌, ◌<◌, ◌≤◌, ◌≡◌, refl, sym, ap, ◌∙◌, Bool, true, false, not,
  ◌&&◌, ◌||◌, Option, none, some, List, [], ◌∷◌, length, get_or, set_at, length-set_at, replicate,
  length-replicate, All, All-get_or, All-set_at, arith, if◌then◌else◌, ◌==◌, ltb, leb, lookup,
  without, put, Result, ok, err, stuck, Bool-cases, Option-cases, inl, inr, ◌⊎◌, u64_mod, u32_mod,
  list_eq,
}
use seerdb.Buffer.Frame.{
  PageCacheKey, cache_key, GuardAccess, Frame, new_empty, is_free, is_dirty, is_pinned, mark_clean,
  mark_dirty, pin, unpin, drop_guard,
}
use seerdb.Buffer.Manager.{
  BufferError, BufferManager, PageGuard, Writeback, frame_at, set_frame, new, rekey, fetch_key,
  frame_data_mut, mark_dirty_key, unpin_key, on_frame,
}
use seerdb.Buffer.Writeback.{
  begin_writeback_key, refusal, complete_writeback, discard_writeback, evict_key,
}
use seerdb.Buffer.Validate.{check_frame, has_key}
use seerdb.Buffer.Validate.Consistent.{
  IsSound, IsConsistent, number_free, mapped-resident, resident-has_key,
}
use seerdb.Buffer.Validate.Change.{change-IsConsistent, detach-IsConsistent, stats-IsConsistent}
use seerdb.Buffer.Spares.{Spares}
use seerdb.Buffer.Fetch.{fetch_key-Fetched}
use seerdb.Buffer.Rekey.{rekey-IsConsistent}

-- One call on the pool, or one change of a frame by who holds it: a guard that is dropped, a page that
-- is written through a guard, an explicit pin of a resident frame whose count does not overflow.
pub data Step : BufferManager → BufferManager → Type 0 where
  fetched :
      (m : BufferManager) (k : PageCacheKey) (bytes : List ℕ) (access : GuardAccess)
      → Step m (fetch_key m k bytes access).0
  rekeyed : (m : BufferManager) (k to : PageCacheKey) → Step m (rekey m k to)
  marked : (m : BufferManager) (k : PageCacheKey) → Step m (mark_dirty_key m k)
  unpinned : (m : BufferManager) (k : PageCacheKey) → Step m (unpin_key m k)
  begun : (m : BufferManager) (k : PageCacheKey) → Step m (begin_writeback_key m k).0
  completed : (m : BufferManager) (w : Writeback) → Step m (complete_writeback m w).0
  discarded : (m : BufferManager) (w : Writeback) → Step m (discard_writeback m w).0
  evicted : (m : BufferManager) (k : PageCacheKey) → Step m (evict_key m k).0
  dropped :
      (m : BufferManager) (i : ℕ)
      → i < length m.frames
      → Step m (set_frame m i (drop_guard (frame_at m i)))
  written :
      (m n : BufferManager) (g : PageGuard) (bytes : List ℕ)
      → g.frame_index < length m.frames
      → frame_data_mut m g bytes ≡ ok n
      → Step m n
  pinned :
      (m : BufferManager) (i : ℕ)
      → i < length m.frames
      → is_free (frame_at m i) ≡ false
      → (frame_at m i).pin_count + 1 < u32_mod
      → Step m (set_frame m i (pin (frame_at m i)))

-- The write-back that the step completes or discards, if it does.
unfoldable pub ended : {m n : BufferManager} → Step m n → Option Writeback
ended (fetched _ _ _ _) = none
ended (rekeyed _ _ _) = none
ended (marked _ _) = none
ended (unpinned _ _) = none
ended (begun _ _) = none
ended (completed _ w) = some w
ended (discarded _ w) = some w
ended (evicted _ _) = none
ended (dropped _ _ _) = none
ended (written _ _ _ _ _ _) = none
ended (pinned _ _ _ _ _) = none

pub data Reach : BufferManager → Type 0 where
  start : (capacity_bytes : ℕ) → Reach (new capacity_bytes)
  step : (m n : BufferManager) → Reach m → Step m n → Reach n
