-- ===== src/Allocator/Invariant.antt =====
-- The allocator hands out each page at most once: the invariant, and every operation on it.
use seerdb.Base.{
  ℕ, ◌+◌, ◌≤◌, ◌<◌, ◌≡◌, refl, true, false, ◌||◌, none, some, List, [], ◌∷◌, ◌++◌, All,
  All-append_left, arith, ◌==◌, contains, insert, Distinct, Distinct-last, contains-insert,
  contains-append, All-contains, u64_max, saturating_add, Bool-cases, Option-cases, inl, inr,
}
use seerdb.Allocator.{PageAllocator, pop, alloc, is_allocated, new}

pop-eq-none : (xs : List ℕ) → pop xs ≡ none → xs ≡ []
unfolding pop
pop-eq-none [] e = refl
pop-eq-none (x ∷ xs) e = ground (arith)

pop-eq-some :
    (xs : List ℕ) {last : ℕ} {front : List ℕ}
    → pop xs ≡ some (last, front)
    → xs ≡ front ++ (last ∷ [])
unfolding pop
pop-eq-some [] e = cc
pop-eq-some (x ∷ xs) e = elim (Option-cases (pop xs)) [
  | inl empty ↦ ground (arith, pop-eq-none xs)
  | inr ((l, f), more) ↦ ground (arith, pop-eq-some xs more)
]

pub pop-append_one : (xs : List ℕ) (a : ℕ) → pop (xs ++ (a ∷ [])) ≡ some (a, xs)
unfolding pop
pop-append_one [] a = refl
pop-append_one (x ∷ xs) a = rw (pop-append_one xs a)

abbrev pub InUse : ℕ → ℕ → Type 0
InUse next_id id = (0 < id) × (id < next_id)

pub record IsWellFormed (a : PageAllocator) : Type 0 where
  pub started : 0 < a.next_id
  pub distinct : Distinct a.free_list
  pub free_below : All (InUse a.next_id) a.free_list
  pub allocated_below : (id : ℕ) → contains id a.allocated ≡ true → InUse a.next_id id
  pub disjoint : (id : ℕ) → contains id a.free_list ≡ true → contains id a.allocated ≡ false

pub All-weaken : (n m : ℕ) (ids : List ℕ) → n ≤ m → All (InUse n) ids → All (InUse m) ids
All-weaken n m [] h all = tt
All-weaken n m (id ∷ ids) h all = (omega (arith, all.0), All-weaken n m ids h all.1)

pub new-IsWellFormed : IsWellFormed new
unfolding new contains
new-IsWellFormed = record {
  started = omega arith;
  distinct = tt;
  free_below = tt;
  allocated_below = λ id e. cc;
  disjoint = λ id e. cc;
}

-- `alloc` by the free list: the last freed page, or the next one in sequence.
pub alloc_reused :
    (a : PageAllocator) {last : ℕ} {front : List ℕ}
    → pop a.free_list ≡ some (last, front)
    → alloc a ≡ (record a { free_list = front; allocated = insert last a.allocated }, last)
unfolding alloc
alloc_reused a e = rw (e, alloc)

pub alloc_next :
    (a : PageAllocator)
    → pop a.free_list ≡ none
    → alloc a ≡ (
      record a { next_id = saturating_add a.next_id 1; allocated = insert a.next_id a.allocated },
      a.next_id,
    )
unfolding alloc
alloc_next a e = rw (e, alloc)

module _ (a : PageAllocator) (h : IsWellFormed a) where
  next_id-free : contains a.next_id a.allocated ≡ false
  next_id-free = elim (Bool-cases (contains a.next_id a.allocated)) [
    | inl old ↦ absurd (omega (arith, h.allocated_below a.next_id old))
    | inr new ↦ new
  ]

  last-in-free :
      {last : ℕ} {front : List ℕ}
      → pop a.free_list ≡ some (last, front)
      → contains last a.free_list ≡ true
  last-in-free {last} {front} e =
      rw (pop-eq-some a.free_list e, contains-append) (unfold contains in ground arith)

  -- A well-formed allocator returns a page that was not allocated and is not the header page, and
  -- allocates that page alone.
  pub alloc_fresh :
      (is_allocated a (alloc a).1 ≡ false)
      × (0 < (alloc a).1)
      × ((id : ℕ) → is_allocated (alloc a).0 id ≡ (id == (alloc a).1 || is_allocated a id))
  unfolding is_allocated
  alloc_fresh = elim (Option-cases (pop a.free_list)) [
    | inl empty ↦
        rw (alloc_next a empty)
          (next_id-free, h.started, λ id. contains-insert a.next_id id a.allocated)
    | inr ((last, front), e) ↦ rw (alloc_reused a e) (
      h.disjoint last (last-in-free e),
      (All-contains (InUse a.next_id) last a.free_list h.free_below (last-in-free e)).0,
      λ id. contains-insert last id a.allocated,
    )
  ]

  alloc_reused-IsWellFormed :
      {last : ℕ} {front : List ℕ}
      → pop a.free_list ≡ some (last, front)
      → IsWellFormed (record a { free_list = front; allocated = insert last a.allocated })
  alloc_reused-IsWellFormed {last} {front} e =
      let list = pop-eq-some a.free_list e in
      let (apart, out) = Distinct-last front last (rw list at h.distinct) in
      let below = All-contains (InUse a.next_id) last a.free_list h.free_below (last-in-free e) in
      record {
        started = h.started;
        distinct = apart;
        free_below = All-append_left (InUse a.next_id) front (last ∷ []) (rw list at h.free_below);
        allocated_below = λ id c.
            ground (arith, contains-insert last id a.allocated, h.allocated_below id, below);
        disjoint = λ id c. ground (
          arith,
          contains-insert last id a.allocated,
          h.disjoint id,
          list,
          contains-append id front (last ∷ []),
          out,
        );
      }

  alloc_next-IsWellFormed :
      a.next_id < u64_max
      → IsWellFormed (record a {
        next_id = saturating_add a.next_id 1;
        allocated = insert a.next_id a.allocated;
      })
  alloc_next-IsWellFormed room =
      let next : saturating_add a.next_id 1 ≡ a.next_id + 1 = ground arith in
      rw next (record {
        started = omega arith;
        distinct = h.distinct;
        free_below = All-weaken a.next_id (a.next_id + 1) a.free_list (omega arith) h.free_below;
        allocated_below = λ id c.
            ground
              (arith, contains-insert a.next_id id a.allocated, h.allocated_below id, h.started);
        disjoint = λ id c. ground (
          arith,
          contains-insert a.next_id id a.allocated,
          h.disjoint id,
          All-contains (InUse a.next_id) id a.free_list h.free_below,
        );
      })

  -- While the frontier has a successor, `alloc` keeps the invariant.
  pub alloc-IsWellFormed : a.next_id < u64_max → IsWellFormed (alloc a).0
  alloc-IsWellFormed room = elim (Option-cases (pop a.free_list)) [
    | inl empty ↦ rw (alloc_next a empty) (alloc_next-IsWellFormed room)
    | inr ((last, front), e) ↦ rw (alloc_reused a e) (alloc_reused-IsWellFormed e)
  ]
