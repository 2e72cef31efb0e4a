-- ===== src/Buffer/Validate/Change.antt =====
-- The changes of one frame, and of the key that names it, that keep the pool consistent.
use seerdb.Base.{
  ℕ, ◌+◌, ◌-◌, ◌<◌, ◌≡◌, refl, sym, ap, ◌∙◌, true, false, none, some, length, get_or, set_at,
  length-set_at, get_or-set_at, get_or-set_at_ne, All-set_at, All-get_or, arith, if◌then◌else◌,
  ◌==◌, lookup, without, put, lookup-put, lookup-without, Bool-cases, inl, inr,
}
use seerdb.Buffer.Frame.{
  PageCacheKey, cache_key, cache_key_eq, cache_key_eq→eq, cache_key_eq_refl, Frame, new_empty,
  is_free, is_pinned, clear,
}
use seerdb.Buffer.Manager.{BufferManager, BufferStats, frame_at}
use seerdb.Buffer.Validate.Consistent.{
  IsSound, free_bit, number_free-set_at, DistinctKeys-without, IsConsistent, free-no_key,
  clear-IsSound, mapped-resident,
}

-- A change of one frame that keeps its key and whether it is free.
pub change-IsConsistent :
    (m : BufferManager) (i : ℕ) (f : Frame) (hand : ℕ) (s : BufferStats)
    → IsConsistent m
    → i < length m.frames
    → IsSound f
    → f.page_key ≡ (frame_at m i).page_key
    → is_free f ≡ is_free (frame_at m i)
    → hand < length m.frames
    → s.total_frames ≡ m.stats.total_frames
    → s.free_frames ≡ m.stats.free_frames
    → IsConsistent (record {
      frames = set_at m.frames i f;
      page_map = m.page_map;
      clock_hand = hand;
      stats = s;
    })
change-IsConsistent m i f hand s h inside sound key same here total free =
    let size = length-set_at m.frames i f in
    let key_at : (j : ℕ)
        → (get_or (set_at m.frames i f) j new_empty).page_key ≡ (frame_at m j).page_key =
      λ j. elim (Bool-cases (i == j)) [
        | inl at ↦
            let e : i ≡ j = ground arith in
            rw (← e, get_or-set_at m.frames i f new_empty inside) key
        | inr off ↦
            ap (λ g. g.page_key) (get_or-set_at_ne m.frames i j f new_empty (λ e. ground arith))
      ] in
    record {
      total = total ∙ h.total ∙ sym size;
      hand = λ _. omega arith;
      frames = All-set_at IsSound m.frames i f h.frames sound;
      names = λ k j e. let (a, b) = h.names k j e in (omega arith, key_at j ∙ b);
      named = λ j k a b. h.named j k (omega arith) (sym (key_at j) ∙ b);
      free_frames =
          let count = number_free-set_at m.frames i f inside in
          let bits : free_bit f ≡ free_bit (frame_at m i) = ap (λ b. if b then 1 else 0) same in
          omega (arith, free, h.free_frames, count, bits);
      distinct = h.distinct;
    }

-- A frame of the pool after one of them was set.
pub frame-set :
    (m : BufferManager) (i j : ℕ) (f : Frame)
    → i < length m.frames
    → get_or (set_at m.frames i f) j new_empty ≡ (if i == j then f else frame_at m j)
frame-set m i j f inside = elim (Bool-cases (i == j)) [
  | inl at ↦
      let e : i ≡ j = ground arith in rw (at, ← e) (get_or-set_at m.frames i f new_empty inside)
  | inr off ↦ rw off (get_or-set_at_ne m.frames i j f new_empty (λ e. ground arith))
]

-- An unpinned page leaves its frame and the map.
pub detach-IsConsistent :
    (m : BufferManager) (i : ℕ) (k : PageCacheKey) (hand : ℕ) (s : BufferStats)
    → IsConsistent m
    → lookup k m.page_map ≡ some i
    → is_pinned (frame_at m i) ≡ false
    → hand < length m.frames
    → s.total_frames ≡ m.stats.total_frames
    → s.free_frames ≡ m.stats.free_frames + 1
    → IsConsistent (record {
      frames = set_at m.frames i (clear (frame_at m i));
      page_map = without k m.page_map;
      clock_hand = hand;
      stats = s;
    })
detach-IsConsistent m i k hand s h found unpinned here total free =
    let (inside, resident, sound) = mapped-resident m k h found in
    let f : Frame = clear (frame_at m i) in
    let size = length-set_at m.frames i f in
    let key_i = (h.names k i found).1 in
    record {
      total = total ∙ h.total ∙ sym size;
      hand = λ _. omega arith;
      frames = All-set_at IsSound m.frames i f h.frames (clear-IsSound (frame_at m i) unpinned);
      names = λ l j e. elim (Bool-cases (cache_key_eq k l)) [
        | inl same ↦ absurd (ground (arith, lookup-without k l m.page_map))
        | inr other ↦
            let e' : lookup l m.page_map ≡ some j = ground (arith, lookup-without k l m.page_map) in
            let (a, b) = h.names l j e' in
            elim (Bool-cases (i == j)) [
              | inl at ↦
                  let p : i ≡ j = ground arith in
                  absurd (ground (arith, rw p at key_i, b, cache_key_eq_refl l))
              | inr off ↦ (omega arith, rw (frame-set m i j f inside, off) b)
            ]
      ];
      named = λ j l a b. elim (Bool-cases (i == j)) [
        | inl at ↦ absurd (ground (arith, rw (frame-set m i j f inside, at) at b))
        | inr off ↦
            let b' : (frame_at m j).page_key ≡ some l = rw (frame-set m i j f inside, off) at b in
            let e' = h.named j l (omega arith) b' in
            elim (Bool-cases (cache_key_eq k l)) [
              | inl same ↦
                  let q : k ≡ l = cache_key_eq→eq k l same in
                  let found' : lookup l m.page_map ≡ some i = rw q at found in
                  absurd (ground (arith, found', e'))
              | inr other ↦ ground (arith, lookup-without k l m.page_map)
            ]
      ];
      free_frames =
          let count = number_free-set_at m.frames i f inside in
          let bit : free_bit (frame_at m i) ≡ 0 = rw resident refl in
          omega (arith, free, h.free_frames, count, bit);
      distinct = DistinctKeys-without k m.page_map h.distinct;
    }

-- A page that no key names goes into a free frame.
pub install-IsConsistent :
    (m : BufferManager) (i : ℕ) (k : PageCacheKey) (f : Frame) (s : BufferStats)
    → IsConsistent m
    → i < length m.frames
    → is_free (frame_at m i) ≡ true
    → lookup k m.page_map ≡ none
    → IsSound f
    → f.page_key ≡ some k
    → is_free f ≡ false
    → s.total_frames ≡ m.stats.total_frames
    → s.free_frames ≡ m.stats.free_frames - 1
    → IsConsistent (record {
      frames = set_at m.frames i f;
      page_map = put k i m.page_map;
      clock_hand = m.clock_hand;
      stats = s;
    })
unfolding put
install-IsConsistent m i k f s h inside empty absent sound key resident total free =
    let size = length-set_at m.frames i f in
    let no_key =
      free-no_key (frame_at m i) (All-get_or IsSound m.frames i new_empty h.frames inside) empty in
    record {
      total = total ∙ h.total ∙ sym size;
      hand = λ p. omega (arith, h.hand (omega arith));
      frames = All-set_at IsSound m.frames i f h.frames sound;
      names = λ l j e. elim (Bool-cases (cache_key_eq k l)) [
        | inl same ↦
            let q : k ≡ l = cache_key_eq→eq k l same in
            let p : i ≡ j = ground (arith, lookup-put k l i m.page_map) in
            (omega arith, rw (← p, ← q, get_or-set_at m.frames i f new_empty inside) key)
        | inr other ↦
            let e' : lookup l m.page_map ≡ some j = ground (arith, lookup-put k l i m.page_map) in
            let (a, b) = h.names l j e' in
            elim (Bool-cases (i == j)) [
              | inl at ↦ let p : i ≡ j = ground arith in absurd (cc (rw p at no_key, b))
              | inr off ↦ (omega arith, rw (frame-set m i j f inside, off) b)
            ]
      ];
      named = λ j l a b. elim (Bool-cases (i == j)) [
        | inl at ↦
            let b' : f.page_key ≡ some l = rw (frame-set m i j f inside, at) at b in
            let q : k ≡ l = ground (arith, key, b') in
            let p : i ≡ j = ground arith in
            ground (arith, lookup-put k l i m.page_map, rw q at (cache_key_eq_refl k))
        | inr off ↦
            let b' : (frame_at m j).page_key ≡ some l = rw (frame-set m i j f inside, off) at b in
            let e' = h.named j l (omega arith) b' in
            elim (Bool-cases (cache_key_eq k l)) [
              | inl same ↦
                  let q : k ≡ l = cache_key_eq→eq k l same in absurd (cc (rw q at absent, e'))
              | inr other ↦ ground (arith, lookup-put k l i m.page_map)
            ]
      ];
      free_frames =
          let count = number_free-set_at m.frames i f inside in
          let bit : free_bit (frame_at m i) ≡ 1 = rw empty refl in
          let bit' : free_bit f ≡ 0 = rw resident refl in
          omega (arith, free, h.free_frames, count, bit, bit');
      distinct = (
        ground (arith, lookup-without k k m.page_map, cache_key_eq_refl k),
        DistinctKeys-without k m.page_map h.distinct,
      );
    }

-- Only the hand and the counters that are not read.
pub stats-IsConsistent :
    (m : BufferManager) (hand : ℕ) (s : BufferStats)
    → IsConsistent m
    → (0 < length m.frames → hand < length m.frames)
    → s.total_frames ≡ m.stats.total_frames
    → s.free_frames ≡ m.stats.free_frames
    → IsConsistent (record m { clock_hand = hand; stats = s })
stats-IsConsistent m hand s h here total free = record {
  total = total ∙ h.total;
  hand = here;
  frames = h.frames;
  names = h.names;
  named = h.named;
  free_frames = free ∙ h.free_frames;
  distinct = h.distinct;
}
