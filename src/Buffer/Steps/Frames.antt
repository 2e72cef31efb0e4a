-- ===== src/Buffer/Steps/Frames.antt =====
-- The frames that the operations make are sound, and a new pool is consistent.
use seerdb.Base.{
  ℕ, zero, suc, ◌+◌, ◌/◌, ◌<◌, ◌≡◌, refl, sym, false, List, length, get_or, replicate,
  length-replicate, All, All-get_or, arith, lookup, u32_mod,
}
use seerdb.Buffer.Frame.{
  cache_key, Frame, new_empty, is_free, mark_clean, mark_dirty, pin, unpin, drop_guard,
}
use seerdb.Buffer.Manager.{BufferManager, frame_at, set_frame, new}
use seerdb.Buffer.Validate.{check_frame}
use seerdb.Buffer.Validate.Consistent.{IsSound, IsConsistent, number_free}
use seerdb.Buffer.Validate.Change.{change-IsConsistent}

replicate-IsSound : (n : ℕ) → All IsSound (replicate n new_empty)
unfolding check_frame
replicate-IsSound zero = tt
replicate-IsSound (suc n) = (record { checked = refl; unguarded = λ p. refl }, replicate-IsSound n)

number_free-replicate : (n : ℕ) → number_free (replicate n new_empty) ≡ n
number_free-replicate zero = refl
number_free-replicate (suc n) = omega (arith, number_free-replicate n)

get_or-replicate : (n i : ℕ) → get_or (replicate n new_empty) i new_empty ≡ new_empty
get_or-replicate zero i = refl
get_or-replicate (suc n) zero = refl
get_or-replicate (suc n) (suc i) = get_or-replicate n i

pub new-IsConsistent : (capacity_bytes : ℕ) → IsConsistent (new capacity_bytes)
unfolding new lookup
new-IsConsistent c =
    let n = c / 4096 in
    let size = length-replicate n new_empty in
    record {
      total = sym size;
      hand = λ p. p;
      frames = replicate-IsSound n;
      names = λ k i e. absurd (ground (arith, e));
      named = λ i k b e. absurd (ground (arith, rw (get_or-replicate n i) at e));
      free_frames = sym (number_free-replicate n);
      distinct = tt;
    }

-- A change of one frame that neither frees nor renames it.
pub frame-IsConsistent :
    (m : BufferManager) (i : ℕ) (f : Frame)
    → IsConsistent m
    → i < length m.frames
    → IsSound f
    → f.page_key ≡ (frame_at m i).page_key
    → is_free f ≡ is_free (frame_at m i)
    → IsConsistent (set_frame m i f)
frame-IsConsistent m i f h inside sound key same =
    change-IsConsistent m i f m.clock_hand m.stats h inside sound key same (h.hand (omega arith))
      refl refl

pub IsSound-at :
    (m : BufferManager) (i : ℕ) → IsConsistent m → i < length m.frames → IsSound (frame_at m i)
IsSound-at m i h inside = All-get_or IsSound m.frames i new_empty h.frames inside

pub dirty-IsSound : (f : Frame) → IsSound f → is_free f ≡ false → IsSound (mark_dirty f)
unfolding check_frame
dirty-IsSound f h e = record {
  checked = ground (arith, h.checked);
  unguarded = λ p. absurd (ground arith);
}

pub clean-IsSound : (f : Frame) → IsSound f → is_free f ≡ false → IsSound (mark_clean f)
unfolding check_frame
clean-IsSound f h e = record {
  checked = ground (arith, h.checked);
  unguarded = λ p. absurd (ground arith);
}

pub unpin-IsSound : (f : Frame) → IsSound f → is_free f ≡ false → IsSound (unpin f)
unfolding check_frame
unpin-IsSound f h e = record {
  checked = ground (arith, h.checked);
  unguarded = λ p. absurd (ground (arith, e, p));
}

pub pin-IsSound :
    (f : Frame) → IsSound f → is_free f ≡ false → f.pin_count + 1 < u32_mod → IsSound (pin f)
unfolding check_frame
pin-IsSound f h e b = record {
  checked = ground (arith, h.checked);
  unguarded = λ p. absurd (ground (arith, e, p));
}

pub drop-IsSound : (f : Frame) → IsSound f → IsSound (drop_guard f)
unfolding check_frame
drop-IsSound f h = record { checked = h.checked; unguarded = λ p. omega (arith, h.unguarded p) }

pub written-IsSound :
    (f : Frame) (bytes : List ℕ) → IsSound f → IsSound (record f { data_bytes = bytes })
unfolding check_frame
written-IsSound f bytes h = record { checked = h.checked; unguarded = h.unguarded }
