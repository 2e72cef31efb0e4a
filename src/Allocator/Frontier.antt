-- ===== src/Allocator/Frontier.antt =====
-- allocator.rs, `alloc`: the frontier, up to the last page ID and past it.
use seerdb.Base.{
  ℕ, zero, suc, ◌+◌, ◌<◌, ◌≤◌, ◌≡◌, refl, ◌∙◌, true, false, none, [], ◌==◌, if◌then◌else◌, arith,
  contains, contains-insert, u64_max, saturating_add, ltb, inl, inr, ◌⊎◌, Bool-cases,
}
use seerdb.Allocator.{PageAllocator, pop, alloc, is_allocated}
use seerdb.Allocator.Invariant.{alloc_next}

-- The allocator after `n` calls of `alloc`.
unfoldable pub after_allocs : ℕ → PageAllocator → PageAllocator
after_allocs zero a = a
after_allocs (suc n) a = (alloc (after_allocs n a)).0

-- A call without a freed page left.
alloc_at_frontier :
    (a : PageAllocator)
    → a.free_list ≡ []
    → (alloc a).1 ≡ a.next_id
      × ((alloc a).0.free_list ≡ [])
      × ((alloc a).0.next_id ≡ saturating_add a.next_id 1)
      × ((id : ℕ)
          → contains id (alloc a).0.allocated
            ≡ (if id == a.next_id then true else contains id a.allocated))
alloc_at_frontier a empty =
    let none_left : pop a.free_list ≡ none = rw empty (unfold pop in refl) in
    rw (alloc_next a none_left)
      (refl, empty, refl, λ id. ground (arith, contains-insert a.next_id id a.allocated))

-- The frontier has moved by the calls and everything from there on is as it was, or it has stopped at the
-- last page ID, which is in use.
record IsAtFrontier (a : PageAllocator) (n : ℕ) (b : PageAllocator) : Type 0 where
  empty : b.free_list ≡ []
  next : b.next_id ≡ saturating_add a.next_id n
  above :
      ((a.next_id + n ≤ u64_max)
        × ((id : ℕ) → a.next_id + n ≤ id → contains id b.allocated ≡ contains id a.allocated))
      ⊎ ((u64_max < a.next_id + n) × (contains u64_max b.allocated ≡ true))

after_allocs-IsAtFrontier :
    (n : ℕ) (a : PageAllocator)
    → a.free_list ≡ []
    → a.next_id ≤ u64_max
    → IsAtFrontier a n (after_allocs n a)
unfolding after_allocs
after_allocs-IsAtFrontier zero a empty fits = record {
  empty = empty;
  next = ground arith;
  above = inl (omega (arith, fits), λ id b. refl);
}
after_allocs-IsAtFrontier (suc n) a empty fits =
    let b = after_allocs n a in
    let h = after_allocs-IsAtFrontier n a empty fits in
    let (_, freed, moved, used) = alloc_at_frontier b h.empty in
    record {
      empty = freed;
      next = ground (arith, moved, h.next);
      above = elim h.above [
        | inr (past, full) ↦ inr (omega (arith, past), ground (arith, used u64_max, full))
        | inl (below, same) ↦
            let at : b.next_id ≡ a.next_id + n = ground (arith, h.next) in
            elim (Bool-cases (ltb (a.next_id + n) u64_max)) [
              | inl more ↦ inl (
                ground arith,
                λ id far.
                    let far' : a.next_id + n ≤ id = omega (arith, far) in
                    let apart : (id == b.next_id) ≡ false = ground (arith, at, far) in
                    ground (arith, used id, apart, same id far'),
              )
              | inr last ↦
                  let here : b.next_id ≡ u64_max = ground (arith, at) in
                  inr (ground arith, ground (arith, used u64_max, here))
            ]
      ];
    }

-- With no freed page, the call of `alloc` after `n` others returns the frontier plus `n`, or the last
-- page ID when that sum lies past it. As long as the sum does not, that page is in use only if it was
-- before the calls. From then on the last page ID is returned although it is in use already.
pub alloc-after_allocs :
    (n : ℕ) (a : PageAllocator)
    → a.free_list ≡ []
    → a.next_id ≤ u64_max
    → ((alloc (after_allocs n a)).1 ≡ saturating_add a.next_id n)
      × (((a.next_id + n ≤ u64_max)
            × (is_allocated (after_allocs n a) (a.next_id + n) ≡ is_allocated a (a.next_id + n)))
          ⊎ ((u64_max < a.next_id + n) × (is_allocated (after_allocs n a) u64_max ≡ true)))
unfolding is_allocated
alloc-after_allocs n a empty fits =
    let h = after_allocs-IsAtFrontier n a empty fits in
    let (given, _, _, _) = alloc_at_frontier (after_allocs n a) h.empty in
    (
      given ∙ h.next,
      elim h.above [
        | inl (below, same) ↦ inl (below, same (a.next_id + n) (omega arith))
        | inr full ↦ inr full
      ],
    )
