-- ===== src/Buffer/Spares.antt =====
-- What a change of the pool leaves alone: pages that are pinned or dirty.
use seerdb.Base.{
  ℕ, ◌<◌, ◌≡◌, refl, ap, ◌∙◌, Bool, true, ◌||◌, none, some, length, set_at, length-set_at,
  get_or-set_at, get_or-set_at_ne, arith, ◌==◌, lookup, Bool-cases, inl, inr,
}
use seerdb.Buffer.Frame.{
  PageCacheKey, cache_key, Frame, state_is_free, new_empty, is_dirty, is_pinned,
}
use seerdb.Buffer.Manager.{BufferManager, frame_at}
use seerdb.Buffer.Validate.Consistent.{IsSound, IsConsistent}
use seerdb.Buffer.Validate.Change.{change-IsConsistent}

-- The same page image, held the same way.
pub record IsKept (f g : Frame) : Type 0 where
  pub bytes : g.data_bytes ≡ f.data_bytes
  pub key : g.page_key ≡ f.page_key
  pub state : g.state ≡ f.state
  pub pins : is_pinned g ≡ is_pinned f

pub IsKept-refl : (f : Frame) → IsKept f f
IsKept-refl f = record { bytes = refl; key = refl; state = refl; pins = refl }

pub IsKept-trans : (f g h : Frame) → IsKept f g → IsKept g h → IsKept f h
IsKept-trans f g h p q = record {
  bytes = q.bytes ∙ p.bytes;
  key = q.key ∙ p.key;
  state = q.state ∙ p.state;
  pins = q.pins ∙ p.pins;
}

-- A page that must not leave its frame.
abbrev pub is_held : Frame → Bool
is_held f = is_pinned f || is_dirty f

-- A change of the pool that keeps it consistent, names no new page, and spares what is held.
pub record Spares (m n : BufferManager) : Type 0 where
  pub consistent : IsConsistent n
  pub size : length n.frames ≡ length m.frames
  pub absent : (k : PageCacheKey) → lookup k m.page_map ≡ none → lookup k n.page_map ≡ none
  pub spared :
      (k : PageCacheKey) (i : ℕ)
      → lookup k m.page_map ≡ some i
      → is_held (frame_at m i) ≡ true
      → (lookup k n.page_map ≡ some i) × IsKept (frame_at m i) (frame_at n i)

pub IsKept-is_held : (f g : Frame) → IsKept f g → is_held g ≡ is_held f
IsKept-is_held f g h = rw (h.pins, h.state) refl

pub Spares-trans : (m n o : BufferManager) → Spares m n → Spares n o → Spares m o
Spares-trans m n o a b = record {
  consistent = b.consistent;
  size = b.size ∙ a.size;
  absent = λ k e. b.absent k (a.absent k e);
  spared = λ k i e h.
      let (e₁, s₁) = a.spared k i e h in
      let (e₂, s₂) = b.spared k i e₁ (IsKept-is_held (frame_at m i) (frame_at n i) s₁ ∙ h) in
      (e₂, IsKept-trans (frame_at m i) (frame_at n i) (frame_at o i) s₁ s₂);
}

pub Spares-refl : (m : BufferManager) → IsConsistent m → Spares m m
Spares-refl m h = record {
  consistent = h;
  size = refl;
  absent = λ k e. e;
  spared = λ k i e p. (e, IsKept-refl (frame_at m i));
}

-- A frame of the pool that is given another image of the same page.
pub set-Spares :
    (m : BufferManager) (i hand : ℕ) (f : Frame)
    → IsConsistent m
    → i < length m.frames
    → hand < length m.frames
    → IsSound f
    → IsKept (frame_at m i) f
    → Spares m (record m { frames = set_at m.frames i f; clock_hand = hand })
set-Spares m i hand f h inside here sound kept = record {
  consistent =
      change-IsConsistent m i f hand m.stats h inside sound kept.key (ap state_is_free kept.state)
        here refl refl;
  size = length-set_at m.frames i f;
  absent = λ k e. e;
  spared = λ k j e p. (
    e,
    elim (Bool-cases (i == j)) [
      | inl at ↦
          let q : i ≡ j = ground arith in rw (← q, get_or-set_at m.frames i f new_empty inside) kept
      | inr off ↦
          rw (get_or-set_at_ne m.frames i j f new_empty (λ e. ground arith))
            (IsKept-refl (frame_at m j))
    ],
  );
}
