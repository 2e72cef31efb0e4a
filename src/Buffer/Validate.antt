-- ===== src/Buffer/Validate.antt =====
-- buffer/manager.rs, `validate_invariants`: the runtime check of the map against the frames.
-- A message is the constructor that names it. The hash map is visited in the order of its list.
pub mod Consistent
pub mod Change
pub mod Holds
use seerdb.Base.{
  ℕ, suc, ◌+◌, Bool, true, false, not, ◌&&◌, ◌||◌, Option, none, some, List, [], ◌∷◌, length,
  if◌then◌else◌, ◌==◌, leb, contains, Pair, Result, ok, err, ◌>>=◌, ◌>>◌,
}
use seerdb.Buffer.Frame.{PageCacheKey, cache_key_eq, Frame, is_free}
use seerdb.Buffer.Manager.{BufferManager, frame_at}

pub data Violation : Type 0 where
  frame_count hand_outside_pool index_outside_pool frame_mapped_twice mapped_frame_free : Violation
  key_mismatch free_count free_frame_in_use resident_without_key pin_mismatch : Violation

unfoldable pub key_is : Option PageCacheKey → PageCacheKey → Bool
key_is none page_key = false
key_is (some k) page_key = cache_key_eq k page_key

-- `for (&page_key, &frame_index) in &self.page_map`; `seen` are the frames marked as mapped.
unfoldable pub check_map :
    BufferManager → List (Pair PageCacheKey ℕ) → List ℕ → Result Violation (List ℕ)
check_map m [] seen = ok seen
check_map m (p ∷ ps) seen =
    let rest = check_map m ps (p.held ∷ seen) in
    let f = frame_at m p.held in
    if leb (length m.frames) p.held
    then err index_outside_pool
    else if contains p.held seen
    then err frame_mapped_twice
    else if is_free f
    then err mapped_frame_free
    else if not (key_is f.page_key p.at)
    then err key_mismatch
    else rest

-- The free frames that no key names, from an index on.
unfoldable pub count_free : List Frame → ℕ → List ℕ → ℕ
count_free [] index seen = 0
count_free (f ∷ fs) index seen =
    let rest = count_free fs (index + 1) seen in
    if is_free f && not (contains index seen) then suc rest else rest

abbrev pub has_key : Frame → Bool
has_key f = elim (f.page_key) [ none ↦ false | some k ↦ true ]

-- `frame.pinned != (frame.pin_count != 0)`
abbrev pub pins_disagree : Frame → Bool
pins_disagree f = if f.pinned then f.pin_count == 0 else not (f.pin_count == 0)

unfoldable pub check_frame : Frame → Result Violation (Unit {0})
check_frame f =
    if is_free f
    then (if has_key f || (not (f.pin_count == 0) || f.pinned)
        then err free_frame_in_use
        else ok tt)
    else if not (has_key f)
    then err resident_without_key
    else if pins_disagree f
    then err pin_mismatch
    else ok tt

unfoldable pub check_frames : List Frame → Result Violation (Unit {0})
check_frames [] = ok tt
check_frames (f ∷ fs) = check_frame f >> check_frames fs

unfoldable pub validate_invariants : BufferManager → Result Violation (Unit {0})
validate_invariants m =
    if not (m.stats.total_frames == length m.frames)
    then err frame_count
    else if not (length m.frames == 0) && leb (length m.frames) m.clock_hand
    then err hand_outside_pool
    else check_map m m.page_map [] >>= λ seen.
        if not (count_free m.frames 0 seen == m.stats.free_frames)
        then err free_count
        else check_frames m.frames
