-- ===== src/Tests/Concurrency.antt =====
-- Tests of concurrency/: the latch.
use seerdb.Base.{◌-◌, ◌≤◌, ◌^◌, ◌≡◌, refl, false, none, some, [], ◌∷◌, arith}
use seerdb.Concurrency.Latch.{
  write_locked, read_lock_state, read_unlock_state, reader_count, is_locked, idle, reading,
  load_to_acquire, acquire, System, turn,
}
use seerdb.Concurrency.Latch.Exclusion.{
  shares, excludes, count, Reach, created, then_step, latch_exclusion,
}

read_lock_test :
    (read_lock_state 0 ≡ some 1)
    × (read_lock_state 1 ≡ some 2)
    × (read_lock_state write_locked ≡ none)
unfolding read_lock_state
read_lock_test = (refl, refl, refl)

-- One reader more than the word can count would mark it write-locked.
reader_overflow_test : read_lock_state (2 ^ 32 - 2) ≡ some write_locked
unfolding read_lock_state
reader_overflow_test = refl

read_unlock_test :
    (read_unlock_state 2 ≡ some 1) × (read_unlock_state 1 ≡ some 0) × (read_unlock_state 0 ≡ none)
unfolding read_unlock_state
read_unlock_test = (refl, refl, refl)

-- The first of two threads loads the word and takes the latch shared.
abbrev one_reader : System
one_reader = record { state = 1; threads = reading ∷ idle ∷ [] }

one_reader-Reach : Reach 2 one_reader
one_reader-Reach =
    then_step (then_step (created (idle ∷ idle ∷ []) refl) (turn [] (idle ∷ []) load_to_acquire)) (
      turn [] (idle ∷ [])
        (acquire {current = 0} {new_state = 1} (unfold read_lock_state in refl) refl))

latch_exclusion_example :
    (count excludes one_reader.threads ≤ 1)
    × (count excludes one_reader.threads ≡ 1 → count shares one_reader.threads ≡ 0)
    × (reader_count one_reader.state ≡ count shares one_reader.threads)
    × (is_locked one_reader.state ≡ false
        → (count shares one_reader.threads ≡ 0) × (count excludes one_reader.threads ≡ 0))
latch_exclusion_example = latch_exclusion (omega arith) one_reader-Reach
