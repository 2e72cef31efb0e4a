-- ===== src/Buffer/Progress.antt =====
-- buffer/manager.rs, `clock_evict`: two turns of the clock find a frame when one can be given up.
use seerdb.Base.{
  ℕ, zero, suc, ◌+◌, ◌-◌, ◌*◌, ◌%◌, ◌<◌, ◌≡◌, refl, sym, ◌∙◌, true, false, Option, none, some, List,
  length, get_or, set_at, length-set_at, get_or-set_at, get_or-set_at_ne, arith, if◌then◌else◌,
  ◌==◌, ltb, leb, lookup, Result, ok, err, stuck, Bool-cases, Option-cases, inl, inr, ◌⊎◌,
}
use native.Mathlib.Nat.{mod-lt, mod-eq_of_lt, mod_self}
use seerdb.Buffer.Frame.{PageCacheKey, cache_key, GuardAccess, Frame, new_empty}
use seerdb.Buffer.Manager.{
  BufferError, BufferManager, PageGuard, frame_at, set_frame, visit, skip, unreference, note_dirty,
  victim, clock_loop, clock_evict, after_clock, first_free, find_free_frame, miss, fetch_key,
  count_attempt, guard_for, Visit,
}
use seerdb.Buffer.Validate.Consistent.{IsConsistent, mapped-resident}
use seerdb.Buffer.Spares.{is_held}
use seerdb.Buffer.Clock.{moved, Visit-cases}

-- How far the hand has to go.
abbrev distance : ℕ → ℕ → ℕ → ℕ
distance size hand j = if leb hand j then j - hand else j + size - hand

next-cases :
    (hand size : ℕ)
    → hand < size
    → ((hand + 1 < size) × ((hand + 1) % size ≡ hand + 1))
      ⊎ ((hand + 1 ≡ size) × ((hand + 1) % size ≡ 0))
next-cases hand size h = elim (Bool-cases (ltb (hand + 1) size)) [
  | inl inside ↦ let b : hand + 1 < size = ground arith in inl (b, mod-eq_of_lt b)
  | inr last ↦ let e : hand + 1 ≡ size = ground arith in inr (e, rw e (mod_self size))
]

distance-next :
    (hand size j : ℕ)
    → hand < size
    → j < size
    → (hand ≡ j → ⊥)
    → distance size ((hand + 1) % size) j + 1 ≡ distance size hand j
distance-next hand size j h b apart = elim (next-cases hand size h) [
  | inl (inside, e) ↦ rw e (ground (arith, apart))
  | inr (last, e) ↦ rw e (ground (arith, apart))
]

distance-turn : (size j : ℕ) → j < size → distance size ((j + 1) % size) j + 1 ≡ size
distance-turn size j b = elim (next-cases j size b) [
  | inl (inside, e) ↦ rw e (ground arith)
  | inr (last, e) ↦ rw e (ground arith)
]

distance-same : (size j : ℕ) → distance size j j ≡ 0
distance-same size j = ground arith

-- A referenced frame is passed over once.
abbrev rounds_for : BufferManager → ℕ → ℕ
rounds_for m j =
    distance (length m.frames) m.clock_hand j
    + (if (frame_at m j).referenced then length m.frames else 0)

visit_unheld-cases :
    (f : Frame)
    → is_held f ≡ false
    → ((visit f ≡ victim) × (f.referenced ≡ false))
      ⊎ ((visit f ≡ unreference) × (f.referenced ≡ true))
unfolding visit
visit_unheld-cases f h = elim (Bool-cases f.referenced) [
  | inl r ↦ inr (ground arith, r)
  | inr r ↦ inl (ground arith, r)
]

moved-rounds_for :
    (m : BufferManager) (j : ℕ)
    → m.clock_hand < length m.frames
    → j < length m.frames
    → (m.clock_hand ≡ j → ⊥)
    → rounds_for (moved m) j + 1 ≡ rounds_for m j
moved-rounds_for m j h b apart =
    omega (arith, distance-next m.clock_hand (length m.frames) j h b apart)

clear_reference : BufferManager → BufferManager
clear_reference m =
    set_frame (moved m) m.clock_hand (record (frame_at m m.clock_hand) { referenced = false })

-- Where the state of the pool matters to the count of rounds.
record Awaits (m : BufferManager) (j rounds : ℕ) : Type 0 where
  hand : m.clock_hand < length m.frames
  inside : j < length m.frames
  loose : is_held (frame_at m j) ≡ false
  enough : rounds_for m j < rounds

passed-Awaits :
    (m : BufferManager) (j n : ℕ)
    → Awaits m j (suc n)
    → (m.clock_hand ≡ j → ⊥)
    → Awaits (moved m) j n
passed-Awaits m j n a apart = record {
  hand = mod-lt (m.clock_hand + 1) (omega (arith, a.inside));
  inside = a.inside;
  loose = a.loose;
  enough = omega (arith, moved-rounds_for m j a.hand a.inside apart, a.enough);
}

cleared-Awaits :
    (m : BufferManager) (j n : ℕ)
    → Awaits m j (suc n)
    → ((frame_at m m.clock_hand).referenced ≡ true)
    → Awaits (clear_reference m) j n
unfolding clear_reference
cleared-Awaits m j n a on =
    let index = m.clock_hand in
    let f : Frame = record (frame_at m index) { referenced = false } in
    let size = length-set_at m.frames index f in
    elim (Bool-cases (index == j)) [
      | inl at ↦
          let q : index ≡ j = ground arith in
          let same : get_or (set_at m.frames index f) j new_empty ≡ f =
            rw (← q) (get_or-set_at m.frames index f new_empty a.hand) in
          let on' : (frame_at m j).referenced ≡ true = rw q at on in
          let turn = distance-turn (length m.frames) j a.inside in
          let start = distance-same (length m.frames) j in
          record {
            hand = rw size (mod-lt (index + 1) (omega (arith, a.inside)));
            inside = rw size a.inside;
            loose = rw (same, q) a.loose;
            enough = rw (same, size, q) (ground (arith, turn, start, a.enough, q, on'));
          }
      | inr off ↦
          let apart : index ≡ j → ⊥ = λ e. ground arith in
          let same : get_or (set_at m.frames index f) j new_empty ≡ frame_at m j =
            get_or-set_at_ne m.frames index j f new_empty apart in
          let p = passed-Awaits m j n a apart in
          record {
            hand = rw size p.hand;
            inside = rw size p.inside;
            loose = rw same p.loose;
            enough = rw (same, size) p.enough;
          }
    ]

visit-unreference : (f : Frame) → visit f ≡ unreference → f.referenced ≡ true
unfolding visit
visit-unreference f e = ground arith

held_apart :
    (m : BufferManager) (j n : ℕ) (v : Visit)
    → Awaits m j n
    → visit (frame_at m m.clock_hand) ≡ v
    → (v ≡ unreference → ⊥)
    → (v ≡ victim → ⊥)
    → m.clock_hand ≡ j
    → ⊥
held_apart m j n v a e not_reference not_victim at =
    elim (visit_unheld-cases (frame_at m j) a.loose) [
      | inl (p, r) ↦ not_victim (let q : visit (frame_at m j) ≡ v = rw at at e in sym q ∙ p)
      | inr (p, r) ↦ not_reference (let q : visit (frame_at m j) ≡ v = rw at at e in sym q ∙ p)
    ]

clock_loop-ok :
    (rounds : ℕ) (m : BufferManager) (dirty_key : Option PageCacheKey) (j : ℕ)
    → Awaits m j rounds
    → (i : ℕ) × ((clock_loop rounds m dirty_key).1 ≡ ok i)
unfolding clock_loop clear_reference
clock_loop-ok zero m dirty_key j a = absurd (omega (arith, a.enough))
clock_loop-ok (suc n) m dirty_key j a = elim (Visit-cases (visit (frame_at m m.clock_hand))) [
  | inl e ↦
      let apart = held_apart m j (suc n) skip a e (λ p. ground arith) (λ p. ground arith) in
      rw (e, clock_loop) (clock_loop-ok n (moved m) dirty_key j (passed-Awaits m j n a apart))
  | inr (inl e) ↦
      rw (e, clock_loop)
        (clock_loop-ok n (clear_reference m) dirty_key j
          (cleared-Awaits m j n a (visit-unreference (frame_at m m.clock_hand) e)))
  | inr (inr (inl e)) ↦
      let apart = held_apart m j (suc n) note_dirty a e (λ p. ground arith) (λ p. ground arith) in
      let noted : Option PageCacheKey = elim dirty_key [
        | none ↦ (frame_at m m.clock_hand).page_key
        | some k ↦ some k
      ] in
      rw (e, clock_loop) (clock_loop-ok n (moved m) noted j (passed-Awaits m j n a apart))
  | inr (inr (inr e)) ↦ rw (e, clock_loop) (m.clock_hand, refl)
]

after_clock-ok :
    (p : BufferManager × Result BufferError ℕ) (i : ℕ) → p.1 ≡ ok i → (after_clock p).1 ≡ ok i
unfolding after_clock
after_clock-ok (m, ok a) i e = e
after_clock-ok (m, err a) i e = absurd (ground (arith, e))
after_clock-ok (m, stuck) i e = absurd (ground (arith, e))

find_free_frame-ok :
    (m : BufferManager) (j : ℕ)
    → IsConsistent m
    → j < length m.frames
    → is_held (frame_at m j) ≡ false
    → (i : ℕ) × ((find_free_frame m).1 ≡ ok i)
unfolding find_free_frame clock_evict
find_free_frame-ok m j h inside loose =
    let some_frames : (length m.frames == 0) ≡ false = ground arith in
    elim (Option-cases (first_free m.frames 0)) [
      | inr (i, e) ↦ rw (some_frames, e) (i, refl)
      | inl e ↦
          let n = count_attempt m in
          let hand = h.hand (omega arith) in
          let (i, found) = clock_loop-ok (length m.frames * 2) n none j (record {
            hand = hand;
            inside = inside;
            loose = loose;
            enough = ground (arith, hand);
          }) in
          rw (some_frames, e) (i, after_clock-ok (clock_loop (length m.frames * 2) n none) i found)
    ]

miss-ok :
    (p : BufferManager × Result BufferError ℕ) (k : PageCacheKey) (bytes : List ℕ)
    (access : GuardAccess) (i : ℕ)
    → p.1 ≡ ok i
    → (g : PageGuard) × ((miss p k bytes access).1 ≡ ok g)
unfolding miss
miss-ok (m, ok a) k bytes access i e = (guard_for a k access, refl)
miss-ok (m, err a) k bytes access i e = absurd (ground (arith, e))
miss-ok (m, stuck) k bytes access i e = absurd (ground (arith, e))

pub fetch_key-ok :
    (m : BufferManager) (j : ℕ) (k : PageCacheKey) (bytes : List ℕ) (access : GuardAccess)
    → IsConsistent m
    → j < length m.frames
    → is_held (frame_at m j) ≡ false
    → (g : PageGuard) × ((fetch_key m k bytes access).1 ≡ ok g)
unfolding fetch_key
fetch_key-ok m j k bytes access h inside loose = elim (Option-cases (lookup k m.page_map)) [
  | inl e ↦
      let (i, found) = find_free_frame-ok m j h inside loose in
      rw (e, fetch_key) (miss-ok (find_free_frame m) k bytes access i found)
  | inr (i, e) ↦
      let (b, resident, sound) = mapped-resident m k h e in
      rw (e, fetch_key, resident) (guard_for i k access, refl)
]
