-- ===== src/Buffer/Frame.antt =====
-- buffer/frame.rs, `Frame`, with the keys and access levels of buffer/types.rs and buffer/guard.rs.
-- The `Arc` that a frame shares with its guards is the number of guards alive. Access times, which
-- nothing reads, are left out.
use seerdb.Base.{
  ℕ, ◌+◌, ◌-◌, ◌%◌, ◌≡◌, Bool, true, false, ◌&&◌, ◌||◌, Option, none, some, List, ltb, ◌==◌,
  if◌then◌else◌, zeros, u32_mod, Key, arith,
}

pub record PageCacheKey : Type 0 where
  pub logical_page_id : ℕ
  pub physical_version : ℕ

abbrev pub unversioned : ℕ → PageCacheKey
unversioned page_id = record { logical_page_id = page_id; physical_version = 0 }

-- The derived `==`.
abbrev pub cache_key_eq : PageCacheKey → PageCacheKey → Bool
cache_key_eq a b =
    a.logical_page_id == b.logical_page_id && a.physical_version == b.physical_version

pub cache_key_eq→eq : (a b : PageCacheKey) → cache_key_eq a b ≡ true → a ≡ b
cache_key_eq→eq a b e = ground arith

pub cache_key_eq_refl : (a : PageCacheKey) → cache_key_eq a a ≡ true
cache_key_eq_refl a = ground arith

instance abbrev pub cache_key : Key PageCacheKey
cache_key = record { same = cache_key_eq; same→eq = cache_key_eq→eq; same_refl = cache_key_eq_refl }

pub data GuardAccess : Type 0 where
  read write : GuardAccess

pub data FrameState : Type 0 where
  free clean dirty : FrameState

pub record Frame : Type 0 where
  pub data_bytes : List ℕ
  pub page_key : Option PageCacheKey
  pub state : FrameState
  pub pin_count : ℕ
  pub pinned : Bool
  pub referenced : Bool
  pub guards : ℕ

abbrev pub new_empty : Frame
new_empty = record {
  data_bytes = zeros 4096;
  page_key = none;
  state = free;
  pin_count = 0;
  pinned = false;
  referenced = false;
  guards = 0;
}

abbrev pub state_is_free : FrameState → Bool
state_is_free free = true
state_is_free clean = false
state_is_free dirty = false

abbrev pub state_is_dirty : FrameState → Bool
state_is_dirty free = false
state_is_dirty clean = false
state_is_dirty dirty = true

abbrev pub is_free : Frame → Bool
is_free f = state_is_free f.state

abbrev pub is_dirty : Frame → Bool
is_dirty f = state_is_dirty f.state

-- `Arc::strong_count(&self.guard_token) > 1`: the frame holds one of the counts.
abbrev pub is_pinned : Frame → Bool
is_pinned f = f.pinned || ltb 0 f.guards

abbrev pub mark_clean : Frame → Frame
mark_clean f = record f { state = clean }

abbrev pub mark_dirty : Frame → Frame
mark_dirty f = record f { state = dirty }

abbrev pub pin : Frame → Frame
pin f = record f { pin_count = (f.pin_count + 1) % u32_mod; pinned = true; referenced = true }

abbrev pub acquire_guard : Frame → Frame
acquire_guard f = record f { referenced = true; guards = f.guards + 1 }

-- `PageGuard::drop`
abbrev pub drop_guard : Frame → Frame
drop_guard f = record f { guards = f.guards - 1 }

abbrev pub unpin : Frame → Frame
unpin f =
    let pin_count = if ltb 0 f.pin_count then f.pin_count - 1 else f.pin_count in
    record f { pin_count = pin_count; pinned = if pin_count == 0 then false else f.pinned }

abbrev pub load : PageCacheKey → List ℕ → Frame → Frame
load page_key bytes f = record f {
  page_key = some page_key;
  data_bytes = bytes;
  state = clean;
  referenced = true;
}

abbrev pub clear : Frame → Frame
clear f = record f {
  page_key = none;
  state = free;
  pin_count = 0;
  pinned = false;
  data_bytes = zeros 4096;
}
