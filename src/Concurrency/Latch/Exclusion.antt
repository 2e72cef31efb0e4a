-- ===== src/Concurrency/Latch/Exclusion.antt =====
-- Mutual exclusion of the latch, in every interleaving.
use seerdb.Base.{
  ℕ, zero, suc, replicate, length-replicate, All-append_left, All-append_right, false, ◌+◌, ◌<◌,
  ◌≤◌, ◌≡◌, refl, sym, ◌∙◌, List, [], ◌∷◌, ◌++◌, All, All-append, length, length-append, arith, inl,
  ◌⊎◌,
}
use seerdb.Concurrency.Latch.{
  write_locked, unlocked, reader_count, is_locked, read_lock_state, read_unlock_state, Thread, idle,
  acquiring, reading, releasing, writing, Atomic, load_to_acquire, refuse_read, acquire,
  retry_acquire, load_to_release, skip_release, release, retry_release, write_lock, refuse_write,
  write_unlock, System, Step, turn,
}

-- Whether a thread holds the latch shared, or exclusively. A thread that is releasing holds it.
abbrev pub shares : Thread → ℕ
shares idle = 0
shares (acquiring c) = 0
shares reading = 1
shares (releasing c) = 1
shares writing = 0

abbrev pub excludes : Thread → ℕ
excludes idle = 0
excludes (acquiring c) = 0
excludes reading = 0
excludes (releasing c) = 0
excludes writing = 1

abbrev pub count : (Thread → ℕ) → List Thread → ℕ
count f [] = 0
count f (t ∷ ts) = f t + count f ts

count-append : (f : Thread → ℕ) (ts us : List Thread) → count f (ts ++ us) ≡ count f ts + count f us
count-append f [] us = omega arith
count-append f (t ∷ ts) us = omega (arith, count-append f ts us)

count-le : (ts : List Thread) → count shares ts ≤ length ts
count-le [] = omega arith
count-le (idle ∷ ts) = omega (arith, count-le ts)
count-le (acquiring c ∷ ts) = omega (arith, count-le ts)
count-le (reading ∷ ts) = omega (arith, count-le ts)
count-le (releasing c ∷ ts) = omega (arith, count-le ts)
count-le (writing ∷ ts) = omega (arith, count-le ts)

-- A releasing thread has loaded a state in which readers held the latch.
abbrev pub IsSettled : Thread → Type 0
IsSettled idle = Unit {0}
IsSettled (acquiring c) = Unit {0}
IsSettled reading = Unit {0}
IsSettled (releasing c) = (0 < c) × (c < write_locked)
IsSettled writing = Unit {0}

-- The word against the holders: the number of readers, or the mark of the one writer.
abbrev pub Agrees : ℕ → ℕ → ℕ → Type 0
Agrees state readers writers =
    ((state ≡ readers) × (writers ≡ 0) × (readers < write_locked))
    ⊎ ((state ≡ write_locked) × (writers ≡ 1) × (readers ≡ 0))

pub record IsConsistent (s : System) : Type 0 where
  pub agrees : Agrees s.state (count shares s.threads) (count excludes s.threads)
  pub settled : All IsSettled s.threads

-- One atomic operation among `r` other readers and `w` other writers.
Atomic-Agrees :
    {before after : ℕ} {t u : Thread} (r w : ℕ)
    → Atomic before t after u
    → IsSettled t
    → r + 1 < write_locked
    → Agrees before (r + shares t) (w + excludes t)
    → Agrees after (r + shares u) (w + excludes u) × IsSettled u
unfolding read_lock_state read_unlock_state
Atomic-Agrees r w load_to_acquire h few a = (a, tt)
Atomic-Agrees r w (refuse_read e) h few a = (a, tt)
Atomic-Agrees r w (acquire e same) h few a = ground arith
Atomic-Agrees r w (retry_acquire e) h few a = (a, tt)
Atomic-Agrees r w load_to_release h few a = (a, ground arith)
Atomic-Agrees r w (skip_release e) h few a = absurd (ground arith)
Atomic-Agrees r w (release e same) h few a = ground arith
Atomic-Agrees r w (retry_release e) h few a = (a, ground arith)
Atomic-Agrees r w (write_lock e) h few a = ground arith
Atomic-Agrees r w (refuse_write e) h few a = (a, tt)
Atomic-Agrees r w write_unlock h few a = ground arith

-- Fewer threads than the word can count, and every step keeps the word and the holders agreed.
pub Step-IsConsistent :
    {s t : System}
    → Step s t
    → length s.threads < write_locked
    → IsConsistent s
    → IsConsistent t × (length t.threads ≡ length s.threads)
Step-IsConsistent (turn front back {t} {u} atom) few c =
    let r : ℕ = count shares front + count shares back in
    let w : ℕ = count excludes front + count excludes back in
    let here = All-append_right IsSettled front (t ∷ back) c.settled in
    let readers : count shares (front ++ (t ∷ back)) ≡ r + shares t =
      omega (arith, count-append shares front (t ∷ back)) in
    let writers : count excludes (front ++ (t ∷ back)) ≡ w + excludes t =
      omega (arith, count-append excludes front (t ∷ back)) in
    let readers' : count shares (front ++ (u ∷ back)) ≡ r + shares u =
      omega (arith, count-append shares front (u ∷ back)) in
    let writers' : count excludes (front ++ (u ∷ back)) ≡ w + excludes u =
      omega (arith, count-append excludes front (u ∷ back)) in
    let room : r + 1 < write_locked =
      omega (arith, length-append front (t ∷ back), count-le front, count-le back, few) in
    let (agrees, settled) =
      Atomic-Agrees r w atom here.0 room (rw (readers, writers) at c.agrees) in
    (
      record {
        agrees = rw (readers', writers') agrees;
        settled =
            All-append IsSettled front (u ∷ back)
              (All-append_left IsSettled front (t ∷ back) c.settled) (settled, here.1);
      },
      omega (arith, length-append front (t ∷ back), length-append front (u ∷ back)),
    )

-- The runs of `n` threads from a new latch.
pub data Reach (n : ℕ) : System → Type 0 where
  created :
      (threads : List Thread)
      → threads ≡ replicate n idle
      → Reach n (record { state = unlocked; threads = threads })
  then_step : {s t : System} → Reach n s → Step s t → Reach n t

idle_threads :
    (n : ℕ)
    → (count shares (replicate n idle) ≡ 0)
      × (count excludes (replicate n idle) ≡ 0)
      × All IsSettled (replicate n idle)
idle_threads zero = (refl, refl, tt)
idle_threads (suc n) =
    let (r, w, s) = idle_threads n in (omega (arith, r), omega (arith, w), (tt, s))

Reach-IsConsistent :
    {n : ℕ} {s : System} → n < write_locked → Reach n s → IsConsistent s × (length s.threads ≡ n)
Reach-IsConsistent {n} few (created threads new) =
    let (r, w, s) = idle_threads n in
    rw new
      (record { agrees = inl (sym r, w, omega (arith, r)); settled = s }, length-replicate n idle)
Reach-IsConsistent few (then_step r step) =
    let (c, size) = Reach-IsConsistent few r in
    let (d, same) = Step-IsConsistent step (omega (arith, size)) c in (d, same ∙ size)

-- However the atomic operations of fewer than 2 ^ 32 - 1 threads interleave, there is at most one
-- writer and no reader beside it, and `reader_count` is the number of readers.
pub latch_exclusion :
    {n : ℕ} {s : System}
    → n < write_locked
    → Reach n s
    → (count excludes s.threads ≤ 1)
      × (count excludes s.threads ≡ 1 → count shares s.threads ≡ 0)
      × (reader_count s.state ≡ count shares s.threads)
      × (is_locked s.state ≡ false → (count shares s.threads ≡ 0) × (count excludes s.threads ≡ 0))
unfolding reader_count is_locked
latch_exclusion few r =
    let (c, _) = Reach-IsConsistent few r in
    (
      ground (arith, c.agrees),
      ground (arith, c.agrees),
      ground (arith, c.agrees),
      ground (arith, c.agrees),
    )
