-- ===== src/Buffer/Validate/Holds.antt =====
-- buffer/manager.rs, `validate_invariants`: it finds nothing in a consistent pool.
use seerdb.Base.{
  ℕ, suc, ◌+◌, ◌<◌, ◌≡◌, refl, true, false, not, ◌&&◌, none, some, List, [], ◌∷◌, length, get_or,
  All, arith, ◌==◌, leb, Pair, lookup, ok, contains, Bool-cases, inl, inr,
}
use seerdb.Buffer.Frame.{
  PageCacheKey, cache_key, cache_key_eq, cache_key_eq→eq, cache_key_eq_refl, Frame, new_empty,
  is_free,
}
use seerdb.Buffer.Manager.{BufferManager, frame_at}
use seerdb.Buffer.Validate.{check_map, count_free, check_frames, validate_invariants, key_is}
use seerdb.Buffer.Validate.Consistent.{
  IsSound, IsConsistent, DistinctKeys, number_free, mapped-resident,
}

-- A name further down the map is a name of the map.
lookup-tail :
    (p : Pair PageCacheKey ℕ) (ps : List (Pair PageCacheKey ℕ)) (k : PageCacheKey) (i : ℕ)
    → DistinctKeys (p ∷ ps)
    → lookup k ps ≡ some i
    → (lookup k (p ∷ ps) ≡ some i) × (cache_key_eq p.at k ≡ false)
unfolding lookup
lookup-tail p ps k i h e = elim (Bool-cases (cache_key_eq p.at k)) [
  | inl same ↦
      let q : p.at ≡ k = cache_key_eq→eq p.at k same in
      let absent : lookup k ps ≡ none = rw q at (h.0) in absurd (ground (arith, absent, e))
  | inr apart ↦ (rw apart e, apart)
]

lookup-head :
    (p : Pair PageCacheKey ℕ) (ps : List (Pair PageCacheKey ℕ)) → lookup p.at (p ∷ ps) ≡ some p.held
unfolding lookup
lookup-head p ps = ground (arith, cache_key_eq_refl p.at)

check_map-step :
    (m : BufferManager) (p : Pair PageCacheKey ℕ) (ps : List (Pair PageCacheKey ℕ))
    (seen s : List ℕ)
    → p.held < length m.frames
    → contains p.held seen ≡ false
    → is_free (frame_at m p.held) ≡ false
    → (frame_at m p.held).page_key ≡ some p.at
    → check_map m ps (p.held ∷ seen) ≡ ok s
    → check_map m (p ∷ ps) seen ≡ ok s
unfolding check_map key_is
check_map-step m p ps seen s inside unseen busy key e =
    let here : key_is ((frame_at m p.held).page_key) p.at ≡ true =
      rw key (cache_key_eq_refl p.at) in
    let bound : leb (length m.frames) p.held ≡ false = ground arith in
    rw (bound, unseen, busy, here, e) refl

check_map-ok :
    (m : BufferManager) (ps : List (Pair PageCacheKey ℕ)) (seen : List ℕ)
    → IsConsistent m
    → DistinctKeys ps
    → ((k : PageCacheKey) (i : ℕ) → lookup k ps ≡ some i → lookup k m.page_map ≡ some i)
    → ((k : PageCacheKey) (i : ℕ) → contains i seen ≡ true → lookup k ps ≡ some i → ⊥)
    → ((i : ℕ) → contains i seen ≡ true → is_free (frame_at m i) ≡ false)
    → (s : List ℕ) × (check_map m ps seen ≡ ok s)
      × ((i : ℕ) → contains i s ≡ true → is_free (frame_at m i) ≡ false)
unfolding check_map contains lookup
check_map-ok m [] seen h distinct names fresh resident = (seen, refl, resident)
check_map-ok m (p ∷ ps) seen h distinct names fresh resident =
    let at = names p.at p.held (lookup-head p ps) in
    let (inside, busy, sound) = mapped-resident m p.at h at in
    let key = (h.names p.at p.held at).1 in
    let new_frame : contains p.held seen ≡ false = elim (Bool-cases (contains p.held seen)) [
      | inr out ↦ out
      | inl twice ↦ absurd (fresh p.at p.held twice (lookup-head p ps))
    ] in
    let (s, e, r) =
      check_map-ok m ps (p.held ∷ seen) h distinct.1
        (λ k i q. names k i ((lookup-tail p ps k i distinct q).0))
        (λ k i c q.
          let (q', apart) = lookup-tail p ps k i distinct q in
          elim (Bool-cases (i == p.held)) [
            | inl same ↦
                let z : i ≡ p.held = ground arith in
                let key' = (h.names k i (names k i q')).1 in
                absurd (ground (arith, rw z at key', key, cache_key_eq_refl k))
            | inr other ↦ fresh k i (ground (arith, contains i seen)) q'
          ])
        (λ i c. elim (Bool-cases (i == p.held)) [
          | inl same ↦ let z : i ≡ p.held = ground arith in rw z busy
          | inr other ↦ resident i (ground (arith, contains i seen))
        ]) in
    (s, check_map-step m p ps seen s inside new_frame busy key e, r)

count_free-number_free :
    (fs : List Frame) (index : ℕ) (seen : List ℕ)
    → ((j : ℕ) → contains (index + j) seen ≡ true → is_free (get_or fs j new_empty) ≡ false)
    → count_free fs index seen ≡ number_free fs
unfolding count_free
count_free-number_free [] index seen h = refl
count_free-number_free (f ∷ fs) index seen h =
    let rest : count_free fs (index + 1) seen ≡ number_free fs =
      count_free-number_free fs (index + 1) seen
        (λ j c. h (suc j) (let z : index + 1 + j ≡ index + suc j = omega arith in rw z at c)) in
    let here : contains index seen ≡ true → is_free f ≡ false =
      λ c. h 0 (let z : index + 0 ≡ index = omega arith in rw z c) in
    elim (Bool-cases (contains index seen)) [
      | inl c ↦ ground (arith, rest, here c)
      | inr c ↦ ground (arith, rest)
    ]

check_frames-ok : (fs : List Frame) → All IsSound fs → check_frames fs ≡ ok tt
unfolding check_frames
check_frames-ok [] h = refl
check_frames-ok (f ∷ fs) h = rw (h.0.checked) (check_frames-ok fs h.1)

pub validate_invariants-ok : (m : BufferManager) → IsConsistent m → validate_invariants m ≡ ok tt
unfolding validate_invariants lookup contains
validate_invariants-ok m h =
    let (s, e, r) =
      check_map-ok m m.page_map [] h h.distinct (λ k i q. q) (λ k i c q. absurd (ground arith))
        (λ i c. absurd (ground arith)) in
    let size : (m.stats.total_frames == length m.frames) ≡ true = ground (arith, h.total) in
    let hand : (not (length m.frames == 0) && leb (length m.frames) m.clock_hand) ≡ false =
      elim (Bool-cases (length m.frames == 0)) [
        | inl empty ↦ ground arith
        | inr full ↦ let b = h.hand (ground arith) in ground (arith, b)
      ] in
    let count : (count_free m.frames 0 s == m.stats.free_frames) ≡ true = ground (
      arith,
      count_free-number_free m.frames 0 s
          (λ j c. r j (let z : 0 + j ≡ j = omega arith in rw z at c)),
      h.free_frames,
    ) in
    rw (size, hand, e, count) (check_frames-ok m.frames h.frames)
