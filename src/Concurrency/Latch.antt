-- ===== src/Concurrency/Latch.antt =====
-- concurrency/latch.rs: the hybrid latch, a `u32` that threads change by atomic operations.
-- A thread is between two atomic operations of a method, or between two calls; it releases only
-- what it holds. Every atomic operation is one step, so a run is any interleaving of them.
pub mod Exclusion
use seerdb.Base.{
  ℕ, ◌+◌, ◌-◌, ◌^◌, ◌≡◌, ◌≢◌, Bool, true, false, not, Option, none, some, List, ◌∷◌, ◌++◌, ◌==◌,
  if◌then◌else◌,
}

abbrev pub unlocked : ℕ
unlocked = 0

abbrev pub read_locked : ℕ
read_locked = 1

abbrev pub write_locked : ℕ
write_locked = 2 ^ 32 - 1

-- What a round of `try_read_lock` would store over `current`; `none` when it returns `false`.
unfoldable pub read_lock_state : ℕ → Option ℕ
read_lock_state current =
    if current == write_locked
    then none
    else some (if current == unlocked then read_locked else current + 1)

-- What a round of `read_unlock` would store; `none` when there is nothing to do.
unfoldable pub read_unlock_state : ℕ → Option ℕ
read_unlock_state current =
    if current == unlocked
    then none
    else if current == write_locked
    then none
    else some (if current == read_locked then unlocked else current - 1)

-- `is_locked` and `reader_count`, on the loaded state.
unfoldable pub is_locked : ℕ → Bool
is_locked state = not (state == unlocked)

unfoldable pub reader_count : ℕ → ℕ
reader_count state = if state == write_locked then 0 else state

-- Where a thread is. `acquiring` and `releasing` carry the local variable `current`.
pub data Thread : Type 0 where
  idle : Thread
  acquiring : ℕ → Thread
  reading : Thread
  releasing : ℕ → Thread
  writing : Thread

-- One atomic operation of a thread, with the state before and after it. A weak exchange may fail
-- although the values agree.
pub data Atomic (state : ℕ) : Thread → ℕ → Thread → Type 0 where
  load_to_acquire : Atomic state idle state (acquiring state)
  refuse_read :
      {current : ℕ} → read_lock_state current ≡ none → Atomic state (acquiring current) state idle
  acquire :
      {current new_state : ℕ}
      → read_lock_state current ≡ some new_state
      → state ≡ current
      → Atomic state (acquiring current) new_state reading
  retry_acquire :
      {current new_state : ℕ}
      → read_lock_state current ≡ some new_state
      → Atomic state (acquiring current) state (acquiring state)
  load_to_release : Atomic state reading state (releasing state)
  skip_release :
      {current : ℕ} → read_unlock_state current ≡ none → Atomic state (releasing current) state idle
  release :
      {current new_state : ℕ}
      → read_unlock_state current ≡ some new_state
      → state ≡ current
      → Atomic state (releasing current) new_state idle
  retry_release :
      {current new_state : ℕ}
      → read_unlock_state current ≡ some new_state
      → Atomic state (releasing current) state (releasing state)
  write_lock : state ≡ unlocked → Atomic state idle write_locked writing
  refuse_write : state ≢ unlocked → Atomic state idle state idle
  write_unlock : Atomic state writing unlocked idle

pub record System : Type 0 where
  pub state : ℕ
  pub threads : List Thread

-- Any thread may go next.
pub data Step : System → System → Type 0 where
  turn :
      (front back : List Thread) {t u : Thread} {before after : ℕ}
      → Atomic before t after u
      → Step
          (record { state = before; threads = front ++ (t ∷ back) })
          (record { state = after; threads = front ++ (u ∷ back) })
