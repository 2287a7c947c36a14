-- ===== src/NopTask.antt =====
-- `nop_task` and `nop_task_promise_type` of include/coro/nop_task.hpp: the frame allocator and the
-- flag that tells on a host that a task is done.
use native.Mathlib.Nat.{mod-eq_of_lt}
use baremetal_cxx_coro.Common.{
  ℕ, ◌+◌, ◌%◌, ◌^◌, ◌≤◌, ◌<◌, ◌≡◌, refl, Bool, true, false, Option, none, some, List, [], ◌∷◌,
  arith, ltb, ◌==◌, if◌then◌else◌, All, All-map, Bool-cases, inl, inr, ltb→lt, lt→ltb, le→not-ltb,
  not-ltb→le,
}

-- `TASK_HEAP_SIZE`, with and without `HOST_EMULATION`
abbrev pub task_heap_size : Bool → ℕ
task_heap_size true = 4096
task_heap_size false = 512

-- What `operator new` returns, as an offset into `task_heap_`, and `task_heap_index_` after it.
pub record Allocated : Type 0 where
  pub pointer : Option ℕ
  pub index : ℕ

abbrev granted : Option ℕ → ℕ → List (ℕ × ℕ) → List (ℕ × ℕ)
granted none size rest = rest
granted (some p) size rest = (p, size) ∷ rest

-- `operator new` of a heap of `heap_size` bytes, where `std::size_t` has `w` bits.
module _ (w heap_size : ℕ) where
  pub operator_new : (index size : ℕ) → Allocated
  operator_new index size =
      if ltb ((index + size) % 2 ^ w) heap_size
      then record { pointer = some index; index = (index + size) % 2 ^ w }
      else record { pointer = none; index = index }

  -- `operator delete` frees nothing.
  abbrev pub operator_delete : (index pointer : ℕ) → ℕ
  operator_delete index pointer = index

  -- The regions that a sequence of requests is given: offset and size, in order.
  pub allocations : ℕ → List ℕ → List (ℕ × ℕ)
  allocations index [] = []
  allocations index (size ∷ sizes) =
      granted (operator_new index size).pointer size
        (allocations (operator_new index size).index sizes)

-- The region lies behind the offset `index`, and inside the heap with a byte to spare.
abbrev pub Fits : (heap_size index : ℕ) → ℕ × ℕ → Type 0
Fits heap_size index (p, size) = (index ≤ p) × (p + size < heap_size)

-- Each region ends where the next ones begin, or before.
abbrev pub Apart : ℕ → List (ℕ × ℕ) → Type 0
Apart heap_size [] = Unit
Apart heap_size ((p, size) ∷ rs) = All (Fits heap_size (p + size)) rs × Apart heap_size rs

module _ (w heap_size : ℕ) (fits : heap_size < 2 ^ w) where
  -- A request is granted exactly if it leaves a byte of the heap unused, as long as its size is
  -- no number that wraps around; it is given the heap from the old index to the new one.
  pub operator_new-exact :
      (index size : ℕ)
      → index < heap_size
      → index + size < 2 ^ w
      → (index + size < heap_size
          → operator_new w heap_size index size
            ≡ record { pointer = some index; index = index + size })
        × (heap_size ≤ index + size
            → operator_new w heap_size index size ≡ record { pointer = none; index = index })
  unfolding operator_new
  operator_new-exact index size lt small =
      let same = mod-eq_of_lt {n = index + size} {m = 2 ^ w} small in
      (λ room. rw (same, lt→ltb _ _ room) refl, λ full. rw (same, le→not-ltb _ _ full) refl)

  -- With an index inside the heap, and requests so small that no sum with the size of the heap
  -- wraps around, the regions that a sequence of requests is given lie in the heap from the index
  -- on, and no two of them overlap.
  pub allocations-Apart :
      (index : ℕ) (sizes : List ℕ)
      → index < heap_size
      → All (λ size. heap_size + size ≤ 2 ^ w) sizes
      → All (Fits heap_size index) (allocations w heap_size index sizes)
        × Apart heap_size (allocations w heap_size index sizes)
  unfolding allocations
  allocations-Apart index [] lt sane = (tt, tt)
  allocations-Apart index (size ∷ sizes) lt sane =
      let exact = operator_new-exact index size lt (omega (arith, sane.0)) in
      elim (Bool-cases (ltb (index + size) heap_size)) [
        | inl room ↦
            let rest = allocations-Apart (index + size) sizes (ltb→lt _ _ room) sane.1 in
            rw (exact.0 (ltb→lt _ _ room)) (
              (
                (omega arith, ltb→lt _ _ room),
                All-map _ _ _ (λ r f. (omega (arith, f.0), f.1)) rest.0,
              ),
              (rest.0, rest.1),
            )
        | inr full ↦ rw (exact.1 (not-ltb→le _ _ full)) (allocations-Apart index sizes lt sane.1)
      ]

-- The flag `done_`, shared by a task and its promise. `flags` is the shared Booleans on the heap
-- of a host, and a null `shared_ptr` is `none`.
pub record TaskState : Type 0 where
  pub flags : ℕ → Bool
  pub next_flag : ℕ

pub record NopTask : Type 0 where
  pub task_done : Option ℕ

pub record Promise : Type 0 where
  pub promise_done : Option ℕ

abbrev set_flag : (ℕ → Bool) → ℕ → Bool → ℕ → Bool
set_flag flags p b q = if q == p then b else flags q

-- The members, compiled with (`true`) or without `HOST_EMULATION`.
pub get_return_object : Bool → Promise → TaskState → NopTask × Promise × TaskState
get_return_object false p s = (record { task_done = none }, p, s)
get_return_object true p s = (
  record { task_done = some s.next_flag },
  record { promise_done = some s.next_flag },
  record { flags = set_flag s.flags s.next_flag false; next_flag = s.next_flag + 1 },
)

raise : Option ℕ → TaskState → TaskState
raise none s = s
raise (some p) s = record s { flags = set_flag s.flags p true }

pub return_void : Bool → Promise → TaskState → TaskState
return_void true p s = raise p.promise_done s
return_void false p s = s

pub unhandled_exception : Bool → Promise → TaskState → TaskState
unhandled_exception true p s = raise p.promise_done s
unhandled_exception false p s = s

abbrev pub get_return_object_on_allocation_failure : NopTask
get_return_object_on_allocation_failure = record { task_done = none }

-- `std::suspend_never`: neither the start nor the end of the body suspends.
abbrev pub initial_suspend : Bool
initial_suspend = false

abbrev pub final_suspend : Bool
final_suspend = false

pub done : Bool → NopTask → TaskState → Bool
done true t s = elim t.task_done [ none ↦ false | some p ↦ s.flags p ]
done false t s = false

-- On a host a task is not done when it is made, is done once its body returns, and once it throws,
-- and its return leaves the flag `q` of any task made before as it was.
pub done-return_void :
    (p : Promise) (s : TaskState) (q : ℕ)
    → q < s.next_flag
    → let (t, p', s') = get_return_object true p s in
      (done true t s' ≡ false)
      × (done true t (return_void true p' s') ≡ true)
      × (done true t (unhandled_exception true p' s') ≡ true)
      × ((return_void true p' s').flags q ≡ s.flags q)
unfolding done return_void unhandled_exception raise get_return_object
done-return_void p s q lt = (ground arith, ground arith, ground arith, ground arith)
