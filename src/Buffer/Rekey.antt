-- ===== src/Buffer/Rekey.antt =====
-- buffer/manager.rs, `rekey`: a page takes the name of another version.
use seerdb.Base.{
  ℕ, ◌≡◌, refl, sym, ◌∙◌, false, none, some, set_at, length-set_at, get_or-set_at, All-set_at,
  arith, if◌then◌else◌, ◌==◌, lookup, without, put, lookup-put, lookup-without, Bool-cases,
  Option-cases, inl, inr,
}
use seerdb.Buffer.Frame.{
  PageCacheKey, cache_key, cache_key_eq, cache_key_eq→eq, cache_key_eq_refl, Frame, new_empty,
  is_free,
}
use seerdb.Buffer.Manager.{BufferManager, frame_at, rekey}
use seerdb.Buffer.Validate.{check_frame}
use seerdb.Buffer.Validate.Consistent.{
  IsSound, IsConsistent, DistinctKeys-without, mapped-resident, number_free-set_at,
}
use seerdb.Buffer.Validate.Change.{frame-set}

-- The map back to what it was.
back-IsConsistent :
    (m : BufferManager) (k : PageCacheKey) (i : ℕ)
    → IsConsistent m
    → lookup k m.page_map ≡ some i
    → IsConsistent (record m { page_map = put k i (without k m.page_map) })
unfolding put
back-IsConsistent m k i h e =
    let back : (l : PageCacheKey)
        → lookup l (put k i (without k m.page_map)) ≡ lookup l m.page_map =
      λ l. elim (Bool-cases (cache_key_eq k l)) [
        | inl same ↦
            let q : k ≡ l = cache_key_eq→eq k l same in
            let e' : lookup l m.page_map ≡ some i = rw q at e in
            ground (arith, lookup-put k l i (without k m.page_map), e')
        | inr other ↦
            ground (arith, lookup-put k l i (without k m.page_map), lookup-without k l m.page_map)
      ] in
    record {
      total = h.total;
      hand = h.hand;
      frames = h.frames;
      names = λ l j p. h.names l j (sym (back l) ∙ p);
      named = λ j l b p. back l ∙ h.named j l b p;
      free_frames = h.free_frames;
      distinct = (
        ground (arith, lookup-without k k (without k m.page_map), cache_key_eq_refl k),
        DistinctKeys-without k (without k m.page_map)
            (DistinctKeys-without k m.page_map h.distinct),
      );
    }

renamed-IsSound :
    (f : Frame) (k : PageCacheKey)
    → IsSound f
    → is_free f ≡ false
    → IsSound (record f { page_key = some k })
unfolding check_frame
renamed-IsSound f k h e = record {
  checked = ground (arith, h.checked);
  unguarded = λ p. absurd (ground (arith, e, p));
}

renamed-IsConsistent :
    (m : BufferManager) (k to : PageCacheKey) (i : ℕ)
    → IsConsistent m
    → lookup k m.page_map ≡ some i
    → lookup to m.page_map ≡ none
    → IsConsistent (record m {
      page_map = put to i (without k m.page_map);
      frames = set_at m.frames i (record (frame_at m i) { page_key = some to });
    })
unfolding put
renamed-IsConsistent m k to i h e absent =
    let (inside, resident, sound) = mapped-resident m k h e in
    let key = (h.names k i e).1 in
    let f : Frame = record (frame_at m i) { page_key = some to } in
    let size = length-set_at m.frames i f in
    let map_at : (l : PageCacheKey)
        → lookup l (put to i (without k m.page_map)) ≡ (
            if cache_key_eq to l
            then some i
            else if cache_key_eq k l
            then none
            else lookup l m.page_map) =
      λ l.
        ground (arith, lookup-put to l i (without k m.page_map), lookup-without k l m.page_map) in
    record {
      total = h.total ∙ sym size;
      hand = λ p. omega (arith, h.hand (omega arith));
      frames =
          All-set_at IsSound m.frames i f h.frames
            (renamed-IsSound (frame_at m i) to sound resident);
      names = λ l j p. elim (Bool-cases (cache_key_eq to l)) [
        | inl same ↦
            let q : to ≡ l = cache_key_eq→eq to l same in
            let at : i ≡ j = ground (arith, map_at l) in
            (omega arith, rw (← at, ← q, get_or-set_at m.frames i f new_empty inside) refl)
        | inr other ↦
            let apart : cache_key_eq k l ≡ false = ground (arith, map_at l) in
            let p' : lookup l m.page_map ≡ some j = ground (arith, map_at l) in
            let (a, b) = h.names l j p' in
            elim (Bool-cases (i == j)) [
              | inl at ↦
                  let q : i ≡ j = ground arith in
                  absurd (ground (arith, rw q at key, b, cache_key_eq_refl l))
              | inr off ↦ (omega arith, rw (frame-set m i j f inside, off) b)
            ]
      ];
      named = λ j l a b. elim (Bool-cases (i == j)) [
        | inl at ↦
            let b' : some to ≡ some l = rw (frame-set m i j f inside, at) at b in
            let q : to ≡ l = ground arith in
            let p : i ≡ j = ground arith in ground (arith, map_at l, rw q at (cache_key_eq_refl to))
        | inr off ↦
            let b' : (frame_at m j).page_key ≡ some l = rw (frame-set m i j f inside, off) at b in
            let e' = h.named j l (omega arith) b' in
            let apart : cache_key_eq to l ≡ false = elim (Bool-cases (cache_key_eq to l)) [
              | inr other ↦ other
              | inl same ↦
                  let q : to ≡ l = cache_key_eq→eq to l same in
                  let absent' : lookup l m.page_map ≡ none = rw q at absent in
                  absurd (ground (arith, absent', e'))
            ] in
            elim (Bool-cases (cache_key_eq k l)) [
              | inl same ↦
                  let q : k ≡ l = cache_key_eq→eq k l same in
                  let found' : lookup l m.page_map ≡ some i = rw q at e in
                  absurd (ground (arith, found', e'))
              | inr other ↦ ground (arith, map_at l)
            ]
      ];
      free_frames =
          let count = number_free-set_at m.frames i f inside in omega (arith, h.free_frames, count);
      distinct = (
        ground (arith, lookup-without to to (without k m.page_map), cache_key_eq_refl to),
        DistinctKeys-without to (without k m.page_map)
            (DistinctKeys-without k m.page_map h.distinct),
      );
    }

pub rekey-IsConsistent :
    (m : BufferManager) (k to : PageCacheKey) → IsConsistent m → IsConsistent (rekey m k to)
unfolding rekey
rekey-IsConsistent m k to h = elim (Bool-cases (cache_key_eq k to)) [
  | inl same ↦ rw same h
  | inr apart ↦ elim (Option-cases (lookup k m.page_map)) [
    | inl e ↦ rw (apart, e) h
    | inr (i, e) ↦ elim (Option-cases (lookup to (without k m.page_map))) [
      | inr (j, p) ↦ rw (apart, e, p) (back-IsConsistent m k i h e)
      | inl p ↦
          let absent : lookup to m.page_map ≡ none =
            ground (arith, lookup-without k to m.page_map) in
          rw (apart, e, p) (renamed-IsConsistent m k to i h e absent)
    ]
  ]
]
