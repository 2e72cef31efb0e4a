-- ===== src/Buffer/Search.antt =====
-- buffer/manager.rs, `find_free_frame`: it spares what is held, and finds a free frame.
use seerdb.Base.{
  ℕ, zero, suc, ◌+◌, ◌-◌, ◌*◌, ◌%◌, ◌<◌, ◌≤◌, ◌≡◌, refl, true, false, none, some, List, [], ◌∷◌,
  length, get_or, arith, ◌==◌, Result, ok, err, stuck, Bool-cases, Option-cases, inl, inr, u64_mod,
}
use seerdb.Buffer.Frame.{cache_key, Frame, new_empty, is_free}
use seerdb.Buffer.Manager.{
  BufferError, BufferManager, BufferStats, frame_at, clock_loop, clock_evict, after_clock,
  first_free, find_free_frame, count_attempt,
}
use seerdb.Buffer.Validate.Consistent.{IsConsistent}
use seerdb.Buffer.Validate.Change.{stats-IsConsistent}
use seerdb.Buffer.Spares.{IsKept-refl, Spares, Spares-trans, Spares-refl}
use seerdb.Buffer.Clock.{Found, clock_loop-Spares}

first_free-some :
    (fs : List Frame) (index i : ℕ)
    → first_free fs index ≡ some i
    → (index ≤ i) × (i - index < length fs) × (is_free (get_or fs (i - index) new_empty) ≡ true)
unfolding first_free
first_free-some [] index i e = absurd (ground arith)
first_free-some (f ∷ fs) index i e = elim (Bool-cases (is_free f)) [
  | inl here ↦
      let at : index ≡ i = ground arith in
      let zero_off : i - index ≡ 0 = omega arith in (omega arith, omega arith, rw zero_off here)
  | inr there ↦
      let e' : first_free fs (index + 1) ≡ some i = ground arith in
      let (a, b, c) = first_free-some fs (index + 1) i e' in
      let off : i - index ≡ suc (i - (index + 1)) = omega arith in
      (omega arith, omega arith, rw off c)
]

first_free-none :
    (fs : List Frame) (index i : ℕ)
    → first_free fs index ≡ none
    → i < length fs
    → is_free (get_or fs i new_empty) ≡ false
unfolding first_free
first_free-none [] index i e b = absurd (omega arith)
first_free-none (f ∷ fs) index zero e b = ground (arith, first_free fs (index + 1))
first_free-none (f ∷ fs) index (suc i) e b =
    first_free-none fs (index + 1) i (ground (arith, first_free fs (index + 1))) (omega arith)

-- Counters that are not read.
counted-Spares :
    (m : BufferManager) (s : BufferStats)
    → IsConsistent m
    → s.total_frames ≡ m.stats.total_frames
    → s.free_frames ≡ m.stats.free_frames
    → Spares m (record m { stats = s })
counted-Spares m s h total free = record {
  consistent = stats-IsConsistent m m.clock_hand s h h.hand total free;
  size = refl;
  absent = λ k e. e;
  spared = λ k i e p. (e, IsKept-refl (frame_at m i));
}

after_clock-Spares :
    (m n : BufferManager) (r : Result BufferError ℕ)
    → Spares m n
    → Found n r
    → Spares m (after_clock (n, r)).0 × Found (after_clock (n, r)).0 (after_clock (n, r)).1
unfolding after_clock
after_clock-Spares m n (ok i) s f = (s, f)
after_clock-Spares m n stuck s f = (s, f)
after_clock-Spares m n (err e) s f =
    let counted : BufferStats = record (n.stats) {
      eviction_refusals = (n.stats.eviction_refusals + 1) % u64_mod;
    } in
    (
      Spares-trans m n (record n { stats = counted }) s
          (counted-Spares n counted s.consistent refl refl),
      λ i q. absurd (ground arith),
    )

pub find_free_frame-Spares :
    (m : BufferManager)
    → IsConsistent m
    → Spares m (find_free_frame m).0 × Found (find_free_frame m).0 (find_free_frame m).1
unfolding find_free_frame clock_evict
find_free_frame-Spares m h = elim (Bool-cases (length m.frames == 0)) [
  | inl nothing ↦ rw nothing (Spares-refl m h, λ i q. absurd (ground arith))
  | inr some_frames ↦ elim (Option-cases (first_free m.frames 0)) [
    | inr (i, e) ↦
        let (a, b, c) = first_free-some m.frames 0 i e in
        rw (some_frames, e)
          (
            Spares-refl m h,
            λ j q.
                let at : i ≡ j = ground (arith, q) in
                rw (← at) (omega arith, rw (let z : i - 0 ≡ i = omega arith in z) at c),
          )
    | inl e ↦
        let n = count_attempt m in
        let counted : Spares m n = counted-Spares m n.stats h refl refl in
        let (s, f) =
          clock_loop-Spares (length m.frames * 2) n none counted.consistent
            (λ i b. first_free-none m.frames 0 i e b) (ground arith) in
        let r = clock_loop (length m.frames * 2) n none in
        rw (some_frames, e) (after_clock-Spares m r.0 r.1 (Spares-trans m n r.0 counted s) f)
  ]
]
