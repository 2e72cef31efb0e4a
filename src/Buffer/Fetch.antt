-- ===== src/Buffer/Fetch.antt =====
-- buffer/manager.rs, `fetch_key`: a page is found, or goes into a frame that was found.
use seerdb.Base.{
  ℕ, ◌+◌, ◌-◌, ◌%◌, ◌<◌, ◌≡◌, refl, sym, ◌∙◌, true, false, none, some, List, length, length-set_at,
  get_or-set_at, get_or-set_at_ne, All-get_or, arith, ◌==◌, lookup, lookup-put, Result, ok, err,
  stuck, Bool-cases, Option-cases, inl, inr, u64_mod,
}
use seerdb.Buffer.Frame.{
  PageCacheKey, cache_key, cache_key_eq, cache_key_eq_refl, GuardAccess, read, write, Frame,
  new_empty, is_free, is_pinned, acquire_guard, load,
}
use seerdb.Buffer.Manager.{
  BufferError, BufferManager, BufferStats, PageGuard, frame_at, find_free_frame, hit, install, miss,
  fetch_key, mark_if_write, guard_for,
}
use seerdb.Buffer.Validate.{check_frame}
use seerdb.Buffer.Validate.Consistent.{IsSound, IsConsistent, mapped-resident}
use seerdb.Buffer.Validate.Change.{change-IsConsistent, install-IsConsistent}
use seerdb.Buffer.Spares.{IsKept, IsKept-refl, IsKept-trans, IsKept-is_held, is_held, Spares}
use seerdb.Buffer.Clock.{Found}
use seerdb.Buffer.Search.{find_free_frame-Spares}

marked-IsSound :
    (access : GuardAccess) (f : Frame)
    → IsSound f
    → is_free f ≡ false
    → IsSound (mark_if_write access f) × (is_free (mark_if_write access f) ≡ false)
unfolding check_frame
marked-IsSound read f h e = (h, e)
marked-IsSound write f h e =
    (record { checked = ground (arith, h.checked); unguarded = λ p. absurd (ground arith) }, refl)

acquired-IsSound : (f : Frame) → IsSound f → is_free f ≡ false → IsSound (acquire_guard f)
unfolding check_frame
acquired-IsSound f h e = record {
  checked = h.checked;
  unguarded = λ p. absurd (ground (arith, e, p));
}

loaded-IsSound :
    (f : Frame) (k : PageCacheKey) (bytes : List ℕ)
    → IsSound f
    → is_free f ≡ true
    → IsSound (load k bytes f)
unfolding check_frame
loaded-IsSound f k bytes h e = record {
  checked = ground (arith, h.checked);
  unguarded = λ p. absurd (ground arith);
}

marked-same :
    (access : GuardAccess) (f : Frame)
    → ((mark_if_write access f).page_key ≡ f.page_key)
      × ((mark_if_write access f).data_bytes ≡ f.data_bytes)
      × (is_pinned (mark_if_write access f) ≡ is_pinned f)
marked-same read f = (refl, refl, refl)
marked-same write f = (refl, refl, refl)

-- What a fetch promises: the page asked for stands in the frame of the guard, pinned, and every
-- other page that is pinned or dirty is where it was.
pub record Serves (m n : BufferManager) (k : PageCacheKey) : Type 0 where
  pub consistent : IsConsistent n
  pub size : length n.frames ≡ length m.frames
  pub spared :
      (l : PageCacheKey) (i : ℕ)
      → lookup l m.page_map ≡ some i
      → is_held (frame_at m i) ≡ true
      → cache_key_eq k l ≡ false
      → (lookup l n.page_map ≡ some i) × IsKept (frame_at m i) (frame_at n i)

-- The bytes that a fetch shows: those of the pool when the page is in it.
abbrev pub shown : BufferManager → PageCacheKey → List ℕ → List ℕ
shown m k bytes = elim (lookup k m.page_map) [ none ↦ bytes | some i ↦ (frame_at m i).data_bytes ]

pub record Shows (n : BufferManager) (k : PageCacheKey) (bytes : List ℕ) (g : PageGuard)
    : Type 0 where
  pub names : lookup k n.page_map ≡ some g.frame_index
  pub image : (frame_at n g.frame_index).data_bytes ≡ bytes
  pub pinned : is_pinned (frame_at n g.frame_index) ≡ true

hit-Serves :
    (m : BufferManager) (k : PageCacheKey) (i : ℕ) (access : GuardAccess)
    → IsConsistent m
    → lookup k m.page_map ≡ some i
    → Serves m (hit m i access) k
      × Shows (hit m i access) k ((frame_at m i).data_bytes) (guard_for i k access)
unfolding hit
hit-Serves m k i access h e =
    let (inside, resident, sound) = mapped-resident m k h e in
    let taken : Frame = acquire_guard (frame_at m i) in
    let (sound', resident') =
      marked-IsSound access taken (acquired-IsSound (frame_at m i) sound resident) resident in
    let (key, image, pins) = marked-same access taken in
    let f : Frame = mark_if_write access taken in
    (
      record {
        consistent =
            change-IsConsistent m i f m.clock_hand
              (record (m.stats) { hits = (m.stats.hits + 1) % u64_mod }) h inside sound' key
              (resident' ∙ sym resident) (h.hand (omega arith)) refl refl;
        size = length-set_at m.frames i f;
        spared = λ l j e' held apart. (
          e',
          elim (Bool-cases (i == j)) [
            | inl at ↦
                let q : i ≡ j = ground arith in
                let a = (h.names k i e).1 in
                let b = (h.names l j e').1 in
                absurd (ground (arith, rw q at a, b, cache_key_eq_refl l))
            | inr off ↦
                rw (get_or-set_at_ne m.frames i j f new_empty (λ e. ground arith))
                  (IsKept-refl (frame_at m j))
          ],
        );
      },
      record {
        names = e;
        image = rw (get_or-set_at m.frames i f new_empty inside) image;
        pinned = rw (get_or-set_at m.frames i f new_empty inside) (pins ∙ ground arith);
      },
    )

install-Serves :
    (m : BufferManager) (k : PageCacheKey) (i : ℕ) (bytes : List ℕ) (access : GuardAccess)
    → IsConsistent m
    → lookup k m.page_map ≡ none
    → i < length m.frames
    → is_free (frame_at m i) ≡ true
    → Serves m (install m i k bytes access) k
      × Shows (install m i k bytes access) k bytes (guard_for i k access)
unfolding install
install-Serves m k i bytes access h absent inside empty =
    let sound = All-get_or IsSound m.frames i new_empty h.frames inside in
    let taken : Frame = acquire_guard (load k bytes (frame_at m i)) in
    let (sound', resident') =
      marked-IsSound access taken
        (acquired-IsSound (load k bytes (frame_at m i))
          (loaded-IsSound (frame_at m i) k bytes sound empty) refl)
        refl in
    let (key, image, pins) = marked-same access taken in
    let f : Frame = mark_if_write access taken in
    let counted : BufferStats = record (m.stats) {
      reads = (m.stats.reads + 1) % u64_mod;
      free_frames = m.stats.free_frames - 1;
    } in
    (
      record {
        consistent =
            install-IsConsistent m i k f counted h inside empty absent sound' key resident' refl
              refl;
        size = length-set_at m.frames i f;
        spared = λ l j e held apart. (
          ground (arith, lookup-put k l i m.page_map),
          elim (Bool-cases (i == j)) [
            | inl at ↦
                let q : i ≡ j = ground arith in
                let (a, resident, b) = mapped-resident m l h e in
                absurd (cc (rw q at empty, resident))
            | inr off ↦
                rw (get_or-set_at_ne m.frames i j f new_empty (λ e. ground arith))
                  (IsKept-refl (frame_at m j))
          ],
        );
      },
      record {
        names = ground (arith, lookup-put k k i m.page_map, cache_key_eq_refl k);
        image = rw (get_or-set_at m.frames i f new_empty inside) image;
        pinned = rw (get_or-set_at m.frames i f new_empty inside) (pins ∙ ground arith);
      },
    )

Spares-Serves :
    (m n o : BufferManager) (k : PageCacheKey) → Spares m n → Serves n o k → Serves m o k
Spares-Serves m n o k a b = record {
  consistent = b.consistent;
  size = b.size ∙ a.size;
  spared = λ l i e held apart.
      let (e₁, s₁) = a.spared l i e held in
      let (e₂, s₂) =
        b.spared l i e₁ (IsKept-is_held (frame_at m i) (frame_at n i) s₁ ∙ held) apart in
      (e₂, IsKept-trans (frame_at m i) (frame_at n i) (frame_at o i) s₁ s₂);
}

Serves-refl : (m : BufferManager) (k : PageCacheKey) → IsConsistent m → Serves m m k
Serves-refl m k h = record {
  consistent = h;
  size = refl;
  spared = λ l i e held apart. (e, IsKept-refl (frame_at m i));
}

-- What is promised of the result of a fetch.
abbrev pub Fetched :
    BufferManager → BufferManager × Result BufferError PageGuard → PageCacheKey → List ℕ → Type 0
Fetched m p k bytes = Serves m p.0 k × ((g : PageGuard) → p.1 ≡ ok g → Shows p.0 k bytes g)

miss-Fetched :
    (m : BufferManager) (p : BufferManager × Result BufferError ℕ) (k : PageCacheKey)
    (bytes : List ℕ) (access : GuardAccess)
    → Spares m p.0
    → Found p.0 p.1
    → lookup k m.page_map ≡ none
    → Fetched m (miss p k bytes access) k bytes
unfolding miss
miss-Fetched m (n, ok i) k bytes access s found absent =
    let (inside, empty) = found i refl in
    let (serves, shows) =
      install-Serves n k i bytes access s.consistent (s.absent k absent) inside empty in
    (
      Spares-Serves m n (install n i k bytes access) k s serves,
      λ g e. let q : guard_for i k access ≡ g = ground (arith, e) in rw (← q) shows,
    )
miss-Fetched m (n, err x) k bytes access s found absent =
    (Spares-Serves m n n k s (Serves-refl n k s.consistent), λ g e. absurd (ground (arith, e)))
miss-Fetched m (n, stuck) k bytes access s found absent =
    (Spares-Serves m n n k s (Serves-refl n k s.consistent), λ g e. absurd (ground (arith, e)))

pub fetch_key-Fetched :
    (m : BufferManager) (k : PageCacheKey) (bytes : List ℕ) (access : GuardAccess)
    → IsConsistent m
    → Fetched m (fetch_key m k bytes access) k (shown m k bytes)
unfolding fetch_key
fetch_key-Fetched m k bytes access h = elim (Option-cases (lookup k m.page_map)) [
  | inl e ↦
      let (s, found) = find_free_frame-Spares m h in
      rw (shown, e, fetch_key) (miss-Fetched m (find_free_frame m) k bytes access s found e)
  | inr (i, e) ↦
      let (inside, resident, sound) = mapped-resident m k h e in
      let (serves, shows) = hit-Serves m k i access h e in
      rw (shown, e, fetch_key, resident)
        (serves, λ g q. let at : guard_for i k access ≡ g = ground (arith, q) in rw (← at) shows)
]
