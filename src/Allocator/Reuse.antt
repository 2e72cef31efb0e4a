-- ===== src/Allocator/Reuse.antt =====
-- Freed pages are reused, double frees are refused, and reachable allocators are well formed.
use seerdb.Base.{
  ℕ, ◌<◌, ◌≡◌, refl, true, false, some, [], ◌∷◌, ◌++◌, All-append, arith, ◌==◌, if◌then◌else◌,
  contains, Distinct-append_one, contains-insert, contains-remove, contains-append, max, u64_max,
  remove, Bool-cases, inl, inr,
}
use seerdb.Allocator.{PageAllocator, pop, alloc, free, is_allocated, advance_next_id, new}
use seerdb.Allocator.Invariant.{
  IsWellFormed, InUse, All-weaken, pop-append_one, alloc_reused, alloc_fresh, alloc-IsWellFormed,
  new-IsWellFormed,
}

-- `free` succeeds exactly on an allocated page, and takes that page alone out.
pub free_lem :
    (a : PageAllocator) (page_id : ℕ)
    → ((free a page_id).1 ≡ is_allocated a page_id)
      × ((id : ℕ)
          → is_allocated (free a page_id).0 id
            ≡ (if id == page_id then false else is_allocated a id))
unfolding free is_allocated
free_lem a page_id = (ground arith, λ id. ground (arith, contains-remove page_id id a.allocated))

freed :
    (a : PageAllocator) (page_id : ℕ)
    → is_allocated a page_id ≡ true
    → (free a page_id).0.free_list ≡ a.free_list ++ (page_id ∷ [])
unfolding free is_allocated
freed a page_id e = rw e

-- The page freed last is the page allocated next, so that a free and an alloc restore the set of
-- allocated pages.
pub alloc-free :
    (a : PageAllocator) (page_id : ℕ)
    → is_allocated a page_id ≡ true
    → ((alloc (free a page_id).0).1 ≡ page_id)
      × ((id : ℕ) → is_allocated (alloc (free a page_id).0).0 id ≡ is_allocated a id)
unfolding is_allocated
alloc-free a page_id e =
    let b : PageAllocator = (free a page_id).0 in
    let popped : pop b.free_list ≡ some (page_id, a.free_list) =
      rw (freed a page_id e) (pop-append_one a.free_list page_id) in
    rw (alloc_reused b popped) (
      refl,
      λ id. ground (arith, contains-insert page_id id b.allocated, (free_lem a page_id).1 id, e),
    )

free_state : PageAllocator → ℕ → PageAllocator
free_state a page_id = record a {
  free_list = a.free_list ++ (page_id ∷ []);
  allocated = remove page_id a.allocated;
}

free_state-IsWellFormed :
    (a : PageAllocator) (page_id : ℕ)
    → contains page_id a.allocated ≡ true
    → IsWellFormed a
    → IsWellFormed (free_state a page_id)
unfolding free_state
free_state-IsWellFormed a page_id old h =
    let out : contains page_id a.free_list ≡ false =
      elim (Bool-cases (contains page_id a.free_list)) [
        | inl both ↦ cc (h.disjoint page_id both)
        | inr alone ↦ alone
      ] in
    record {
      started = h.started;
      distinct = Distinct-append_one a.free_list page_id h.distinct out;
      free_below =
          All-append (InUse a.next_id) a.free_list (page_id ∷ []) h.free_below
            (h.allocated_below page_id old, tt);
      allocated_below =
          λ id c. ground (arith, contains-remove page_id id a.allocated, h.allocated_below id);
      disjoint = λ id c.
          unfold contains in
          ground (
            arith,
            contains-remove page_id id a.allocated,
            contains-append id a.free_list (page_id ∷ []),
            h.disjoint id,
          );
    }

pub free-IsWellFormed :
    (a : PageAllocator) (page_id : ℕ) → IsWellFormed a → IsWellFormed (free a page_id).0
unfolding free
free-IsWellFormed a page_id h = elim (Bool-cases (contains page_id a.allocated)) [
  | inl old ↦ rw old (unfold free_state in free_state-IsWellFormed a page_id old h)
  | inr new ↦ rw new h
]

pub advance_next_id-IsWellFormed :
    (a : PageAllocator) (minimum : ℕ) → IsWellFormed a → IsWellFormed (advance_next_id a minimum)
unfolding advance_next_id
advance_next_id-IsWellFormed a minimum h = record {
  started = omega (arith, h.started);
  distinct = h.distinct;
  free_below = All-weaken a.next_id (max a.next_id minimum) a.free_list (omega arith) h.free_below;
  allocated_below = λ id c. omega (arith, h.allocated_below id c);
  disjoint = h.disjoint;
}

-- The calls of a run. `alloc` runs only while the frontier has a successor.
pub data Reach : PageAllocator → Type 0 where
  created : Reach new
  allocs : {a : PageAllocator} → Reach a → a.next_id < u64_max → Reach (alloc a).0
  frees : {a : PageAllocator} (page_id : ℕ) → Reach a → Reach (free a page_id).0
  advances : {a : PageAllocator} (minimum : ℕ) → Reach a → Reach (advance_next_id a minimum)

pub Reach-IsWellFormed : {a : PageAllocator} → Reach a → IsWellFormed a
Reach-IsWellFormed created = new-IsWellFormed
Reach-IsWellFormed (allocs {a} r room) = alloc-IsWellFormed a (Reach-IsWellFormed r) room
Reach-IsWellFormed (frees {a} page_id r) = free-IsWellFormed a page_id (Reach-IsWellFormed r)
Reach-IsWellFormed (advances {a} minimum r) =
    advance_next_id-IsWellFormed a minimum (Reach-IsWellFormed r)

-- After any run of calls in which `alloc` is called below the last page ID only, a page that `alloc`
-- returns is not in use at that moment and is not the header page.
pub Reach-alloc_fresh :
    {a : PageAllocator} → Reach a → (is_allocated a (alloc a).1 ≡ false) × (0 < (alloc a).1)
Reach-alloc_fresh {a} r =
    let (fresh, positive, _) = alloc_fresh a (Reach-IsWellFormed r) in (fresh, positive)
