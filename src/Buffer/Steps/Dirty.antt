-- ===== src/Buffer/Steps/Dirty.antt =====
-- buffer/manager.rs: how a frame stops to be dirty.
use seerdb.Base.{
  ℕ, ◌<◌, ◌≡◌, refl, sym, ap, ◌∙◌, true, false, none, some, List, length, get_or, set_at,
  get_or-set_at, get_or-set_at_ne, All-get_or, arith, ◌==◌, list_eq→eq, lookup, without, ok,
  Bool-cases, Option-cases, inl, inr, ◌⊎◌,
}
use seerdb.Buffer.Frame.{
  PageCacheKey, cache_key, cache_key_eq, cache_key_eq→eq, GuardAccess, read, write, Frame,
  new_empty, is_free, is_dirty, is_pinned, acquire_guard, mark_dirty, mark_clean, clear, pin, unpin,
  drop_guard, state_is_dirty,
}
use seerdb.Buffer.Manager.{
  BufferManager, PageGuard, Writeback, frame_at, set_frame, rekey, hit, fetch_key, frame_data_mut,
  mark_dirty_key, unpin_key, on_frame, mark_if_write,
}
use seerdb.Buffer.Writeback.{
  begin_writeback_key, refusal, complete_writeback, discard_writeback, evict_key,
}
use seerdb.Buffer.Validate.Consistent.{IsSound, IsConsistent, resident-has_key}
use seerdb.Buffer.Fetch.{fetch_key-Fetched}
use seerdb.Buffer.Steps.{
  Step, ended, fetched, rekeyed, marked, unpinned, begun, completed, discarded, evicted, dropped,
  written, pinned,
}
use seerdb.Buffer.Steps.Consistent.{refusal-none}

-- A write-back of exactly the bytes of frame `i`, which nobody held.
abbrev pub IsWrittenBack : BufferManager → Writeback → ℕ → Type 0
IsWrittenBack m w i =
    (lookup w.page_key m.page_map ≡ some i)
    × (w.data_bytes ≡ (frame_at m i).data_bytes)
    × (is_pinned (frame_at m i) ≡ false)

-- The frame is dirty still, or the write-back that the step itself ended is one of its bytes.
abbrev pub StaysDirty : (m n : BufferManager) → ℕ → Step m n → Type 0
StaysDirty m n i s =
    (is_dirty (frame_at n i) ≡ true) ⊎ ((w : Writeback) × (ended s ≡ some w) × IsWrittenBack m w i)

dirty-resident : (f : Frame) → is_dirty f ≡ true → is_free f ≡ false
dirty-resident f e = ground arith

-- One frame is set; it is dirty when it was.
set-dirty :
    (fs : List Frame) (i j : ℕ) (f : Frame)
    → i < length fs
    → is_dirty (get_or fs i new_empty) ≡ true
    → (j ≡ i → is_dirty f ≡ true)
    → is_dirty (get_or (set_at fs j f) i new_empty) ≡ true
set-dirty fs i j f b d same = elim (Bool-cases (j == i)) [
  | inl at ↦
      let q : j ≡ i = ground arith in
      let b' : j < length fs = omega arith in rw (← q, get_or-set_at fs j f new_empty b') (same q)
  | inr off ↦ rw (get_or-set_at_ne fs j i f new_empty (λ e. ground arith)) d
]

-- A frame that is set and a clean frame are not the same.
apart-dirty :
    (m : BufferManager) (i j : ℕ)
    → is_dirty (frame_at m i) ≡ true
    → is_dirty (frame_at m j) ≡ false
    → j ≡ i
    → ⊥
apart-dirty m i j d c q = ground (arith, rw q at c, d)

marked-dirty :
    (access : GuardAccess) (f : Frame)
    → is_dirty f ≡ true
    → is_dirty (mark_if_write access f) ≡ true
marked-dirty read f d = d
marked-dirty write f d = refl

fetched-dirty :
    (m : BufferManager) (k : PageCacheKey) (bytes : List ℕ) (access : GuardAccess) (i : ℕ)
    → IsConsistent m
    → i < length m.frames
    → is_dirty (frame_at m i) ≡ true
    → is_dirty (frame_at (fetch_key m k bytes access).0 i) ≡ true
unfolding fetch_key hit
fetched-dirty m k bytes access i h b d =
    let sound = All-get_or IsSound m.frames i new_empty h.frames b in
    let (l, key) = resident-has_key (frame_at m i) sound (dirty-resident (frame_at m i) d) in
    let named = h.named i l b key in
    elim (Bool-cases (cache_key_eq k l)) [
      | inr apart ↦
          let serves = (fetch_key-Fetched m k bytes access h).0 in
          let (e, kept) = serves.spared l i named (ground (arith, d)) apart in
          ap state_is_dirty kept.state ∙ d
      | inl same ↦
          let q : k ≡ l = cache_key_eq→eq k l same in
          let e : lookup k m.page_map ≡ some i = rw q named in
          let resident = dirty-resident (frame_at m i) d in
          rw (e, fetch_key, resident)
            (set-dirty m.frames i i (mark_if_write access (acquire_guard (frame_at m i))) b d
              (λ _. marked-dirty access (acquire_guard (frame_at m i)) d))
    ]

on_frame-dirty :
    (change : Frame → Frame) (m : BufferManager) (k : PageCacheKey) (i : ℕ)
    → ((f : Frame) → is_dirty f ≡ true → is_dirty (change f) ≡ true)
    → i < length m.frames
    → is_dirty (frame_at m i) ≡ true
    → is_dirty (frame_at (on_frame change m k) i) ≡ true
on_frame-dirty change m k i keeps b d = elim (Option-cases (lookup k m.page_map)) [
  | inl e ↦ rw (e, on_frame) d
  | inr (j, e) ↦
      rw (e, on_frame)
        (set-dirty m.frames i j (change (frame_at m j)) b d (λ q. rw q (keeps (frame_at m i) d)))
]

rekeyed-dirty :
    (m : BufferManager) (k to : PageCacheKey) (i : ℕ)
    → i < length m.frames
    → is_dirty (frame_at m i) ≡ true
    → is_dirty (frame_at (rekey m k to) i) ≡ true
unfolding rekey
rekeyed-dirty m k to i b d = elim (Bool-cases (cache_key_eq k to)) [
  | inl same ↦ rw same d
  | inr apart ↦ elim (Option-cases (lookup k m.page_map)) [
    | inl e ↦ rw (apart, e) d
    | inr (j, e) ↦ elim (Option-cases (lookup to (without k m.page_map))) [
      | inr (o, p) ↦ rw (apart, e, p) d
      | inl p ↦
          rw (apart, e, p)
            (set-dirty m.frames i j (record (frame_at m j) { page_key = some to }) b d
              (λ q. rw q d))
    ]
  ]
]

begun-dirty :
    (m : BufferManager) (k : PageCacheKey) (i : ℕ)
    → is_dirty (frame_at m i) ≡ true
    → is_dirty (frame_at (begin_writeback_key m k).0 i) ≡ true
unfolding begin_writeback_key
begun-dirty m k i d = elim (Option-cases (lookup k m.page_map)) [
  | inl e ↦ rw (e, begin_writeback_key) d
  | inr (j, e) ↦ elim (Bool-cases (is_dirty (frame_at m j))) [
    | inr c ↦ rw (e, begin_writeback_key, c) d
    | inl c ↦ elim (Bool-cases (is_pinned (frame_at m j))) [
      | inl p ↦ rw (e, begin_writeback_key, c, p) d
      | inr p ↦ rw (e, begin_writeback_key, c, p) d
    ]
  ]
]

-- The frame of an accepted write-back is the only one that changes.
settled-dirty :
    (m : BufferManager) (w : Writeback) (i j : ℕ) (f : Frame)
    → i < length m.frames
    → is_dirty (frame_at m i) ≡ true
    → lookup w.page_key m.page_map ≡ some j
    → refusal (frame_at m j) w ≡ none
    → (is_dirty (get_or (set_at m.frames j f) i new_empty) ≡ true) ⊎ IsWrittenBack m w i
settled-dirty m w i j f b d e r =
    let (loose, dirty, same) = refusal-none (frame_at m j) w r in
    elim (Bool-cases (j == i)) [
      | inl at ↦
          let q : j ≡ i = ground arith in
          inr (
            rw (← q) e,
            rw (← q) (sym (list_eq→eq (frame_at m j).data_bytes w.data_bytes same)),
            rw (← q) loose,
          )
      | inr off ↦ inl (set-dirty m.frames i j f b d (λ q. ground arith))
    ]

completed-dirty :
    (m : BufferManager) (w : Writeback) (i : ℕ)
    → i < length m.frames
    → is_dirty (frame_at m i) ≡ true
    → (is_dirty (frame_at (complete_writeback m w).0 i) ≡ true) ⊎ IsWrittenBack m w i
unfolding complete_writeback
completed-dirty m w i b d = elim (Option-cases (lookup w.page_key m.page_map)) [
  | inl e ↦ rw (e, complete_writeback) (inl d)
  | inr (j, e) ↦ elim (Option-cases (refusal (frame_at m j) w)) [
    | inr (x, r) ↦ rw (e, complete_writeback, r) (inl d)
    | inl r ↦ elim (settled-dirty m w i j (mark_clean (frame_at m j)) b d e r) [
      | inl c ↦ inl (rw (e, complete_writeback, r) c)
      | inr c ↦ inr c
    ]
  ]
]

discarded-dirty :
    (m : BufferManager) (w : Writeback) (i : ℕ)
    → i < length m.frames
    → is_dirty (frame_at m i) ≡ true
    → (is_dirty (frame_at (discard_writeback m w).0 i) ≡ true) ⊎ IsWrittenBack m w i
unfolding discard_writeback
discarded-dirty m w i b d = elim (Option-cases (lookup w.page_key m.page_map)) [
  | inl e ↦ rw (e, discard_writeback) (inl d)
  | inr (j, e) ↦ elim (Option-cases (refusal (frame_at m j) w)) [
    | inr (x, r) ↦ rw (e, discard_writeback, r) (inl d)
    | inl r ↦ elim (settled-dirty m w i j (clear (frame_at m j)) b d e r) [
      | inl c ↦ inl (rw (e, discard_writeback, r) c)
      | inr c ↦ inr c
    ]
  ]
]

evicted-dirty :
    (m : BufferManager) (k : PageCacheKey) (i : ℕ)
    → i < length m.frames
    → is_dirty (frame_at m i) ≡ true
    → is_dirty (frame_at (evict_key m k).0 i) ≡ true
unfolding evict_key
evicted-dirty m k i b d = elim (Option-cases (lookup k m.page_map)) [
  | inl e ↦ rw (e, evict_key) d
  | inr (j, e) ↦ elim (Bool-cases (is_pinned (frame_at m j))) [
    | inl p ↦ rw (e, evict_key, p) d
    | inr p ↦ elim (Bool-cases (is_dirty (frame_at m j))) [
      | inl c ↦ rw (e, evict_key, p, c) d
      | inr c ↦
          rw (e, evict_key, p, c)
            (set-dirty m.frames i j (clear (frame_at m j)) b d
              (λ q. absurd (apart-dirty m i j d c q)))
    ]
  ]
]

written-dirty :
    (m n : BufferManager) (g : PageGuard) (bytes : List ℕ) (i : ℕ)
    → i < length m.frames
    → is_dirty (frame_at m i) ≡ true
    → frame_data_mut m g bytes ≡ ok n
    → is_dirty (frame_at n i) ≡ true
unfolding frame_data_mut
written-dirty m n g bytes i b d e =
    let j = g.frame_index in
    let f : Frame = record (frame_at m j) { data_bytes = bytes } in
    let q : set_frame m j f ≡ n = ground (arith, e) in
    rw (← q) (set-dirty m.frames i j f b d (λ p. rw p d))

pub Step-StaysDirty :
    (m n : BufferManager) (i : ℕ)
    → IsConsistent m
    → (s : Step m n) → i < length m.frames
    → is_dirty (frame_at m i) ≡ true
    → StaysDirty m n i s
unfolding mark_dirty_key lookup unpin_key ended
Step-StaysDirty m _ i h (fetched _ k bytes access) b d =
    inl (fetched-dirty m k bytes access i h b d)
Step-StaysDirty m _ i h (rekeyed _ k to) b d = inl (rekeyed-dirty m k to i b d)
Step-StaysDirty m _ i h (marked _ k) b d = inl (on_frame-dirty mark_dirty m k i (λ f e. refl) b d)
Step-StaysDirty m _ i h (unpinned _ k) b d = inl (on_frame-dirty unpin m k i (λ f e. e) b d)
Step-StaysDirty m _ i h (begun _ k) b d = inl (begun-dirty m k i d)
Step-StaysDirty m _ i h (completed _ w) b d = elim (completed-dirty m w i b d) [
  | inl e ↦ inl e
  | inr e ↦ inr (w, refl, e)
]
Step-StaysDirty m _ i h (discarded _ w) b d = elim (discarded-dirty m w i b d) [
  | inl e ↦ inl e
  | inr e ↦ inr (w, refl, e)
]
Step-StaysDirty m _ i h (evicted _ k) b d = inl (evicted-dirty m k i b d)
Step-StaysDirty m _ i h (dropped _ j c) b d =
    inl (set-dirty m.frames i j (drop_guard (frame_at m j)) b d (λ q. rw q d))
Step-StaysDirty m _ i h (written _ n g bytes c e) b d = inl (written-dirty m n g bytes i b d e)
Step-StaysDirty m _ i h (pinned _ j c r o) b d =
    inl (set-dirty m.frames i j (pin (frame_at m j)) b d (λ q. rw q d))
