-- ===== src/Buffer/Steps/Consistent.antt =====
-- Each operation keeps the pool consistent.
use seerdb.Base.{
  ℕ, ◌<◌, ◌≡◌, refl, sym, true, false, none, List, length, arith, lookup, ok, Bool-cases,
  Option-cases, inl, inr, list_eq,
}
use seerdb.Buffer.Frame.{
  PageCacheKey, cache_key, Frame, is_dirty, is_pinned, mark_clean, mark_dirty, pin, unpin,
  drop_guard,
}
use seerdb.Buffer.Manager.{
  BufferManager, PageGuard, Writeback, frame_at, set_frame, frame_data_mut, mark_dirty_key,
  unpin_key, on_frame,
}
use seerdb.Buffer.Writeback.{
  begin_writeback_key, refusal, complete_writeback, discard_writeback, evict_key,
}
use seerdb.Buffer.Validate.Consistent.{IsConsistent, mapped-resident}
use seerdb.Buffer.Validate.Change.{change-IsConsistent, detach-IsConsistent, stats-IsConsistent}
use seerdb.Buffer.Fetch.{fetch_key-Fetched}
use seerdb.Buffer.Rekey.{rekey-IsConsistent}
use seerdb.Buffer.Steps.{
  Step, fetched, rekeyed, marked, unpinned, begun, completed, discarded, evicted, dropped, written,
  pinned, Reach, start, step,
}
use seerdb.Buffer.Steps.Frames.{
  new-IsConsistent, frame-IsConsistent, IsSound-at, dirty-IsSound, clean-IsSound, unpin-IsSound,
  pin-IsSound, drop-IsSound, written-IsSound,
}

marked-IsConsistent :
    (m : BufferManager) (k : PageCacheKey) → IsConsistent m → IsConsistent (mark_dirty_key m k)
unfolding mark_dirty_key
marked-IsConsistent m k h = elim (Option-cases (lookup k m.page_map)) [
  | inl e ↦ rw (e, mark_dirty_key, on_frame) h
  | inr (i, e) ↦
      let (inside, resident, sound) = mapped-resident m k h e in
      rw (e, mark_dirty_key, on_frame)
        (frame-IsConsistent m i (mark_dirty (frame_at m i)) h inside
          (dirty-IsSound (frame_at m i) sound resident) refl (sym resident))
]

unpinned-IsConsistent :
    (m : BufferManager) (k : PageCacheKey) → IsConsistent m → IsConsistent (unpin_key m k)
unfolding unpin_key
unpinned-IsConsistent m k h = elim (Option-cases (lookup k m.page_map)) [
  | inl e ↦ rw (e, unpin_key, on_frame) h
  | inr (i, e) ↦
      let (inside, resident, sound) = mapped-resident m k h e in
      rw (e, unpin_key, on_frame)
        (frame-IsConsistent m i (unpin (frame_at m i)) h inside
          (unpin-IsSound (frame_at m i) sound resident) refl refl)
]

begun-IsConsistent :
    (m : BufferManager) (k : PageCacheKey)
    → IsConsistent m
    → IsConsistent (begin_writeback_key m k).0
unfolding begin_writeback_key
begun-IsConsistent m k h = elim (Option-cases (lookup k m.page_map)) [
  | inl e ↦ rw (e, begin_writeback_key) h
  | inr (i, e) ↦ elim (Bool-cases (is_dirty (frame_at m i))) [
    | inr d ↦ rw (e, begin_writeback_key, d) h
    | inl d ↦ elim (Bool-cases (is_pinned (frame_at m i))) [
      | inl p ↦
          rw (e, begin_writeback_key, d, p) (stats-IsConsistent m m.clock_hand _ h h.hand refl refl)
      | inr p ↦
          rw (e, begin_writeback_key, d, p) (stats-IsConsistent m m.clock_hand _ h h.hand refl refl)
    ]
  ]
]

-- What a write-back that is not refused has found.
pub refusal-none :
    (f : Frame) (w : Writeback)
    → refusal f w ≡ none
    → (is_pinned f ≡ false) × (is_dirty f ≡ true) × (list_eq f.data_bytes w.data_bytes ≡ true)
unfolding refusal
refusal-none f w e = (ground arith, ground arith, ground arith)

completed-IsConsistent :
    (m : BufferManager) (w : Writeback) → IsConsistent m → IsConsistent (complete_writeback m w).0
unfolding complete_writeback
completed-IsConsistent m w h = elim (Option-cases (lookup w.page_key m.page_map)) [
  | inl e ↦ rw (e, complete_writeback) (stats-IsConsistent m m.clock_hand _ h h.hand refl refl)
  | inr (i, e) ↦ elim (Option-cases (refusal (frame_at m i) w)) [
    | inr (x, r) ↦
        rw (e, complete_writeback, r) (stats-IsConsistent m m.clock_hand _ h h.hand refl refl)
    | inl r ↦
        let (inside, resident, sound) = mapped-resident m w.page_key h e in
        rw (e, complete_writeback, r)
          (change-IsConsistent m i (mark_clean (frame_at m i)) m.clock_hand _ h inside
            (clean-IsSound (frame_at m i) sound resident) refl (sym resident) (h.hand (omega arith))
            refl refl)
  ]
]

discarded-IsConsistent :
    (m : BufferManager) (w : Writeback) → IsConsistent m → IsConsistent (discard_writeback m w).0
unfolding discard_writeback
discarded-IsConsistent m w h = elim (Option-cases (lookup w.page_key m.page_map)) [
  | inl e ↦ rw (e, discard_writeback) (stats-IsConsistent m m.clock_hand _ h h.hand refl refl)
  | inr (i, e) ↦ elim (Option-cases (refusal (frame_at m i) w)) [
    | inr (x, r) ↦
        rw (e, discard_writeback, r) (stats-IsConsistent m m.clock_hand _ h h.hand refl refl)
    | inl r ↦
        let (inside, resident, sound) = mapped-resident m w.page_key h e in
        let (loose, dirty, same) = refusal-none (frame_at m i) w r in
        rw (e, discard_writeback, r)
          (detach-IsConsistent m i w.page_key m.clock_hand _ h e loose (h.hand (omega arith)) refl
            refl)
  ]
]

evicted-IsConsistent :
    (m : BufferManager) (k : PageCacheKey) → IsConsistent m → IsConsistent (evict_key m k).0
unfolding evict_key
evicted-IsConsistent m k h = elim (Option-cases (lookup k m.page_map)) [
  | inl e ↦ rw (e, evict_key) (stats-IsConsistent m m.clock_hand _ h h.hand refl refl)
  | inr (i, e) ↦ elim (Bool-cases (is_pinned (frame_at m i))) [
    | inl p ↦ rw (e, evict_key, p) (stats-IsConsistent m m.clock_hand _ h h.hand refl refl)
    | inr p ↦ elim (Bool-cases (is_dirty (frame_at m i))) [
      | inl d ↦ rw (e, evict_key, p, d) (stats-IsConsistent m m.clock_hand _ h h.hand refl refl)
      | inr d ↦
          let (inside, resident, sound) = mapped-resident m k h e in
          rw (e, evict_key, p, d)
            (detach-IsConsistent m i k m.clock_hand _ h e p (h.hand (omega arith)) refl refl)
    ]
  ]
]

written-IsConsistent :
    (m n : BufferManager) (g : PageGuard) (bytes : List ℕ)
    → IsConsistent m
    → g.frame_index < length m.frames
    → frame_data_mut m g bytes ≡ ok n
    → IsConsistent n
unfolding frame_data_mut
written-IsConsistent m n g bytes h inside e =
    let i = g.frame_index in
    let f : Frame = record (frame_at m i) { data_bytes = bytes } in
    let q : set_frame m i f ≡ n = ground (arith, e) in
    rw (← q) (
      frame-IsConsistent m i f h inside
        (written-IsSound (frame_at m i) bytes (IsSound-at m i h inside)) refl refl)

Step-IsConsistent : (m n : BufferManager) → IsConsistent m → Step m n → IsConsistent n
Step-IsConsistent m _ h (fetched _ k bytes access) =
    (fetch_key-Fetched m k bytes access h).0.consistent
Step-IsConsistent m _ h (rekeyed _ k to) = rekey-IsConsistent m k to h
Step-IsConsistent m _ h (marked _ k) = marked-IsConsistent m k h
Step-IsConsistent m _ h (unpinned _ k) = unpinned-IsConsistent m k h
Step-IsConsistent m _ h (begun _ k) = begun-IsConsistent m k h
Step-IsConsistent m _ h (completed _ w) = completed-IsConsistent m w h
Step-IsConsistent m _ h (discarded _ w) = discarded-IsConsistent m w h
Step-IsConsistent m _ h (evicted _ k) = evicted-IsConsistent m k h
Step-IsConsistent m _ h (dropped _ i b) =
    frame-IsConsistent m i (drop_guard (frame_at m i)) h b
      (drop-IsSound (frame_at m i) (IsSound-at m i h b)) refl refl
Step-IsConsistent m _ h (written _ n g bytes b e) = written-IsConsistent m n g bytes h b e
Step-IsConsistent m _ h (pinned _ i b r c) =
    frame-IsConsistent m i (pin (frame_at m i)) h b
      (pin-IsSound (frame_at m i) (IsSound-at m i h b) r c) refl refl

pub Reach-IsConsistent : (m : BufferManager) → Reach m → IsConsistent m
Reach-IsConsistent _ (start c) = new-IsConsistent c
Reach-IsConsistent _ (step m n r s) = Step-IsConsistent m n (Reach-IsConsistent m r) s
