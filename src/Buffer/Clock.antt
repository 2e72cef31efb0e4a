-- ===== src/Buffer/Clock.antt =====
-- What a search for a frame leaves alone, and what it finds.
use seerdb.Base.{
  ℕ, zero, suc, ◌+◌, ◌%◌, ◌<◌, ◌≡◌, refl, ◌∙◌, true, false, Option, none, some, length,
  length-set_at, get_or-set_at, get_or-set_at_ne, All-get_or, arith, ◌==◌, lookup, lookup-without,
  Result, ok, Bool-cases, inl, inr, ◌⊎◌, u64_mod,
}
use native.Mathlib.Nat.{mod-lt}
use seerdb.Buffer.Frame.{
  PageCacheKey, cache_key, cache_key_eq, cache_key_eq→eq, cache_key_eq_refl, Frame, new_empty,
  is_free, is_dirty, is_pinned, clear,
}
use seerdb.Buffer.Manager.{
  BufferError, BufferManager, frame_at, set_frame, Visit, skip, unreference, note_dirty, victim,
  visit, detach, clock_loop,
}
use seerdb.Buffer.Spares.{IsKept-refl, Spares, Spares-trans, Spares-refl, set-Spares}
use seerdb.Buffer.Validate.{check_frame}
use seerdb.Buffer.Validate.Consistent.{IsSound, IsConsistent, resident-has_key}
use seerdb.Buffer.Validate.Change.{detach-IsConsistent, stats-IsConsistent}

abbrev pub AllResident : BufferManager → Type 0
AllResident m = (i : ℕ) → i < length m.frames → is_free (frame_at m i) ≡ false

-- A frame that was found is free, and of the pool.
abbrev pub Found : BufferManager → Result BufferError ℕ → Type 0
Found m r = (i : ℕ) → r ≡ ok i → (i < length m.frames) × (is_free (frame_at m i) ≡ true)

pub Visit-cases : (v : Visit) → (v ≡ skip) ⊎ (v ≡ unreference) ⊎ (v ≡ note_dirty) ⊎ (v ≡ victim)
Visit-cases skip = inl refl
Visit-cases unreference = inr (inl refl)
Visit-cases note_dirty = inr (inr (inl refl))
Visit-cases victim = inr (inr (inr refl))

visit-victim : (f : Frame) → visit f ≡ victim → (is_pinned f ≡ false) × (is_dirty f ≡ false)
unfolding visit
visit-victim f e = (ground arith, ground arith)

-- The hand moves.
abbrev pub moved : BufferManager → BufferManager
moved m = record m { clock_hand = (m.clock_hand + 1) % length m.frames }

moved-Spares : (m : BufferManager) → IsConsistent m → 0 < length m.frames → Spares m (moved m)
moved-Spares m h nonempty = record {
  consistent =
      stats-IsConsistent m ((m.clock_hand + 1) % length m.frames) m.stats h
        (λ _. mod-lt (m.clock_hand + 1) nonempty) refl refl;
  size = refl;
  absent = λ k e. e;
  spared = λ k i e p. (e, IsKept-refl (frame_at m i));
}

unreferenced-IsSound : (f : Frame) → IsSound f → IsSound (record f { referenced = false })
unfolding check_frame
unreferenced-IsSound f h = record { checked = h.checked; unguarded = h.unguarded }

-- An unpinned clean page leaves.
detach-Spares :
    (m : BufferManager) (i : ℕ)
    → IsConsistent m
    → i < length m.frames
    → is_free (frame_at m i) ≡ false
    → visit (frame_at m i) ≡ victim
    → Spares m (detach (moved m) i)
      × ((i < length ((detach (moved m) i).frames))
          × (is_free (frame_at (detach (moved m) i) i) ≡ true))
unfolding detach
detach-Spares m i h inside resident v =
    let (unpinned, undirty) = visit-victim (frame_at m i) v in
    let sound = All-get_or IsSound m.frames i new_empty h.frames inside in
    let (k, key) = resident-has_key (frame_at m i) sound resident in
    let size = length-set_at m.frames i (clear (frame_at m i)) in
    let found = h.named i k inside key in
    rw key (
      record {
        consistent =
            detach-IsConsistent m i k ((m.clock_hand + 1) % length m.frames)
              (record (m.stats) {
                free_frames = m.stats.free_frames + 1;
                evictions = (m.stats.evictions + 1) % u64_mod;
              })
              h found unpinned (mod-lt (m.clock_hand + 1) (omega arith)) refl refl;
        size = size;
        absent = λ l e. ground (arith, lookup-without k l m.page_map);
        spared = λ l j e p. elim (Bool-cases (cache_key_eq k l)) [
          | inl same ↦
              let q : k ≡ l = cache_key_eq→eq k l same in
              let e' : lookup l m.page_map ≡ some i = rw q at found in
              let at : i ≡ j = ground (arith, e, e') in
              absurd (ground (arith, rw at at unpinned, rw at at undirty, p))
          | inr other ↦ (
            ground (arith, lookup-without k l m.page_map),
            elim (Bool-cases (i == j)) [
              | inl at ↦
                  let q : i ≡ j = ground arith in
                  let key' = (h.names l j e).1 in
                  absurd (ground (arith, rw q at key, key', cache_key_eq_refl l))
              | inr off ↦
                  rw
                    (get_or-set_at_ne m.frames i j (clear (frame_at m i)) new_empty
                      (λ e. ground arith))
                    (IsKept-refl (frame_at m j))
            ],
          )
        ];
      },
      (omega arith, rw (get_or-set_at m.frames i (clear (frame_at m i)) new_empty inside) refl),
    )

set-AllResident :
    (m : BufferManager) (i : ℕ) (f : Frame)
    → AllResident m
    → i < length m.frames
    → is_free f ≡ is_free (frame_at m i)
    → AllResident (set_frame (moved m) i f)
set-AllResident m i f all inside same j b =
    let size = length-set_at m.frames i f in
    elim (Bool-cases (i == j)) [
      | inl at ↦
          let q : i ≡ j = ground arith in
          rw (← q, get_or-set_at m.frames i f new_empty inside) (same ∙ all i inside)
      | inr off ↦
          rw (get_or-set_at_ne m.frames i j f new_empty (λ e. ground arith)) (all j (omega arith))
    ]

-- The clock, on a pool without a free frame.
pub clock_loop-Spares :
    (rounds : ℕ) (m : BufferManager) (dirty_key : Option PageCacheKey)
    → IsConsistent m
    → AllResident m
    → 0 < length m.frames
    → Spares m ((clock_loop rounds m dirty_key).0)
      × Found ((clock_loop rounds m dirty_key).0) ((clock_loop rounds m dirty_key).1)
unfolding clock_loop
clock_loop-Spares zero m dirty_key h all nonempty =
    (Spares-refl m h, λ i e. absurd (ground (arith, e)))
clock_loop-Spares (suc n) m dirty_key h all nonempty =
    let index = m.clock_hand in
    let inside = h.hand nonempty in
    let here : (index + 1) % length m.frames < length m.frames = mod-lt (index + 1) nonempty in
    let turn = moved-Spares m h nonempty in
    elim (Visit-cases (visit (frame_at m index))) [
      | inl e ↦
          let (s, found) = clock_loop-Spares n (moved m) dirty_key turn.consistent all nonempty in
          rw (e, clock_loop)
            (Spares-trans m (moved m) ((clock_loop n (moved m) dirty_key).0) turn s, found)
      | inr (inl e) ↦
          let f : Frame = record (frame_at m index) { referenced = false } in
          let sound = All-get_or IsSound m.frames index new_empty h.frames inside in
          let o : BufferManager = set_frame (moved m) index f in
          let kept : Spares m o =
            set-Spares m index ((index + 1) % length m.frames) f h inside here
              (unreferenced-IsSound (frame_at m index) sound)
              (record { bytes = refl; key = refl; state = refl; pins = refl }) in
          let (s, found) =
            clock_loop-Spares n o dirty_key kept.consistent
              (set-AllResident m index f all inside refl) (omega (arith, kept.size)) in
          rw (e, clock_loop) (Spares-trans m o ((clock_loop n o dirty_key).0) kept s, found)
      | inr (inr (inl e)) ↦
          let noted : Option PageCacheKey = elim dirty_key [
            | none ↦ (frame_at m index).page_key
            | some k ↦ some k
          ] in
          let (s, found) = clock_loop-Spares n (moved m) noted turn.consistent all nonempty in
          rw (e, clock_loop)
            (Spares-trans m (moved m) ((clock_loop n (moved m) noted).0) turn s, found)
      | inr (inr (inr e)) ↦
          let (s, (b, free)) = detach-Spares m index h inside (all index inside) e in
          rw (e, clock_loop)
            (s, λ i q. let at : index ≡ i = ground (arith, q) in rw (← at) (b, free))
    ]
