-- ===== src/Buffer/Validate/Consistent.antt =====
-- The map and the frames as one state.
use seerdb.Base.{
  ℕ, zero, suc, ◌+◌, ◌<◌, ◌≡◌, refl, true, false, none, some, List, [], ◌∷◌, length, get_or, set_at,
  All, All-get_or, arith, if◌then◌else◌, Pair, lookup, without, lookup-without, ok, Bool-cases,
  Option-cases, inl, inr,
}
use seerdb.Buffer.Frame.{
  PageCacheKey, cache_key, cache_key_eq, Frame, new_empty, is_free, is_pinned, clear,
}
use seerdb.Buffer.Manager.{BufferManager, frame_at}
use seerdb.Buffer.Validate.{check_frame}

-- A frame passes the check, and has no guard while it is free.
pub record IsSound (f : Frame) : Type 0 where
  pub checked : check_frame f ≡ ok tt
  pub unguarded : is_free f ≡ true → f.guards ≡ 0

abbrev pub free_bit : Frame → ℕ
free_bit f = if is_free f then 1 else 0

abbrev pub number_free : List Frame → ℕ
number_free [] = 0
number_free (f ∷ fs) = free_bit f + number_free fs

-- Every key stands once.
abbrev pub DistinctKeys : List (Pair PageCacheKey ℕ) → Type 0
DistinctKeys [] = Unit {0}
DistinctKeys (p ∷ ps) = (lookup p.at ps ≡ none) × DistinctKeys ps

pub record IsConsistent (m : BufferManager) : Type 0 where
  pub total : m.stats.total_frames ≡ length m.frames
  pub hand : 0 < length m.frames → m.clock_hand < length m.frames
  pub frames : All IsSound m.frames
  pub names :
      (k : PageCacheKey) (i : ℕ)
      → lookup k m.page_map ≡ some i
      → (i < length m.frames) × ((frame_at m i).page_key ≡ some k)
  pub named :
      (i : ℕ) (k : PageCacheKey)
      → i < length m.frames
      → (frame_at m i).page_key ≡ some k
      → lookup k m.page_map ≡ some i
  pub free_frames : m.stats.free_frames ≡ number_free m.frames
  pub distinct : DistinctKeys m.page_map

pub number_free-set_at :
    (fs : List Frame) (i : ℕ) (f : Frame)
    → i < length fs
    → number_free (set_at fs i f) + free_bit (get_or fs i new_empty) ≡ number_free fs + free_bit f
number_free-set_at [] i f h = absurd (omega arith)
number_free-set_at (g ∷ fs) zero f h = omega arith
number_free-set_at (g ∷ fs) (suc i) f h = omega (arith, number_free-set_at fs i f (omega arith))

pub resident-has_key :
    (f : Frame) → IsSound f → is_free f ≡ false → (k : PageCacheKey) × (f.page_key ≡ some k)
unfolding check_frame
resident-has_key f h e = elim (Option-cases f.page_key) [
  | inl without_key ↦ absurd (ground (arith, h.checked))
  | inr (k, found) ↦ (k, found)
]

pub free-no_key : (f : Frame) → IsSound f → is_free f ≡ true → f.page_key ≡ none
unfolding check_frame
free-no_key f h e = elim (Option-cases f.page_key) [
  | inl without_key ↦ without_key
  | inr (k, found) ↦ absurd (ground (arith, h.checked, found))
]

pub keyed-resident :
    (f : Frame) (k : PageCacheKey) → IsSound f → f.page_key ≡ some k → is_free f ≡ false
keyed-resident f k h e = elim (Bool-cases (is_free f)) [
  | inr resident ↦ resident
  | inl empty ↦ absurd (cc (free-no_key f h empty, e))
]

pub clear-IsSound : (f : Frame) → is_pinned f ≡ false → IsSound (clear f)
unfolding check_frame
clear-IsSound f e = record { checked = refl; unguarded = λ h. ground arith }

pub DistinctKeys-without :
    (k : PageCacheKey) (ps : List (Pair PageCacheKey ℕ))
    → DistinctKeys ps
    → DistinctKeys (without k ps)
unfolding without
DistinctKeys-without k [] h = tt
DistinctKeys-without k (p ∷ ps) h = elim (Bool-cases (cache_key_eq p.at k)) [
  | inl here ↦ rw here (DistinctKeys-without k ps h.1)
  | inr there ↦
      rw there (ground (arith, lookup-without k p.at ps, h.0), DistinctKeys-without k ps h.1)
]

-- The lookup that an index names stands in the pool, with a resident frame.
pub mapped-resident :
    (m : BufferManager) (k : PageCacheKey) {i : ℕ}
    → IsConsistent m
    → lookup k m.page_map ≡ some i
    → (i < length m.frames) × (is_free (frame_at m i) ≡ false) × IsSound (frame_at m i)
mapped-resident m k {i} h e =
    let (inside, key) = h.names k i e in
    let sound = All-get_or IsSound m.frames i new_empty h.frames inside in
    (inside, keyed-resident (frame_at m i) k sound key, sound)
