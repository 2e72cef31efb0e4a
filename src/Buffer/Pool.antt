-- ===== src/Buffer/Pool.antt =====
-- buffer/manager.rs, `BufferManager`: what every pool that the operations reach promises.
use seerdb.Base.{ℕ, ◌<◌, ◌≡◌, true, false, some, List, length, lookup, ok}
use seerdb.Buffer.Frame.{PageCacheKey, cache_key, cache_key_eq, GuardAccess, is_dirty}
use seerdb.Buffer.Manager.{BufferManager, PageGuard, frame_at, fetch_key}
use seerdb.Buffer.Validate.{validate_invariants}
use seerdb.Buffer.Validate.Holds.{validate_invariants-ok}
use seerdb.Buffer.Spares.{is_held, IsKept}
use seerdb.Buffer.Fetch.{Shows, shown, fetch_key-Fetched}
use seerdb.Buffer.Steps.{Step, Reach}
use seerdb.Buffer.Steps.Consistent.{Reach-IsConsistent}
use seerdb.Buffer.Steps.Dirty.{StaysDirty, Step-StaysDirty}
use seerdb.Buffer.Progress.{fetch_key-ok}

-- In every pool that is reached from a new one by fetches, re-keyings, dirty marks, unpins, write-backs begun,
-- completed or discarded, evictions, dropped guards, writes through a guard and explicit pins that do not
-- overflow their count, `validate_invariants` finds no violation.
pub Reach-validate_invariants : (m : BufferManager) → Reach m → validate_invariants m ≡ ok tt
Reach-validate_invariants m r = validate_invariants-ok m (Reach-IsConsistent m r)

-- In a reachable pool, a fetch of one key leaves every other key whose frame is pinned or dirty mapped to the
-- same frame, with the same bytes, key, state and pins, whether the fetch hits, loads, evicts or fails.
pub fetch_key_spares :
    (m : BufferManager) (k l : PageCacheKey) (bytes : List ℕ) (access : GuardAccess) (i : ℕ)
    → Reach m
    → lookup l m.page_map ≡ some i
    → is_held (frame_at m i) ≡ true
    → cache_key_eq k l ≡ false
    → (lookup l (fetch_key m k bytes access).0.page_map ≡ some i)
      × IsKept (frame_at m i) (frame_at (fetch_key m k bytes access).0 i)
fetch_key_spares m k l bytes access i r e held apart =
    (fetch_key-Fetched m k bytes access (Reach-IsConsistent m r)).0.spared l i e held apart

-- In a reachable pool, when a fetch returns a guard, the pool it leaves maps the key to the guard's frame, that
-- frame is pinned, and it holds the bytes that the pool had for the key, or the bytes handed in if it had none.
pub fetch_key-Shows :
    (m : BufferManager) (k : PageCacheKey) (bytes : List ℕ) (access : GuardAccess) (g : PageGuard)
    → Reach m
    → (fetch_key m k bytes access).1 ≡ ok g
    → Shows (fetch_key m k bytes access).0 k (shown m k bytes) g
fetch_key-Shows m k bytes access g r e =
    (fetch_key-Fetched m k bytes access (Reach-IsConsistent m r)).1 g e

-- In a reachable pool where some frame is neither pinned nor dirty, every fetch returns a guard: the two turns
-- of the clock are enough to find a victim.
pub fetch_key_granted :
    (m : BufferManager) (j : ℕ) (k : PageCacheKey) (bytes : List ℕ) (access : GuardAccess)
    → Reach m
    → j < length m.frames
    → is_held (frame_at m j) ≡ false
    → (g : PageGuard) × ((fetch_key m k bytes access).1 ≡ ok g)
fetch_key_granted m j k bytes access r inside loose =
    fetch_key-ok m j k bytes access (Reach-IsConsistent m r) inside loose

-- In a reachable pool, a step leaves a dirty frame dirty, unless it is the completion or the discard of a
-- write-back, and that same write-back names a key that the map leads to the frame, holds exactly the bytes of
-- the frame, and the frame is not pinned.
pub Reach-StaysDirty :
    (m n : BufferManager) (i : ℕ)
    → Reach m
    → (s : Step m n) → i < length m.frames
    → is_dirty (frame_at m i) ≡ true
    → StaysDirty m n i s
Reach-StaysDirty m n i r s inside dirty =
    Step-StaysDirty m n i (Reach-IsConsistent m r) s inside dirty
