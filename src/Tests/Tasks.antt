-- ===== src/Tests/Tasks.antt =====
-- The theorems about include/coro/nop_task.hpp.
use baremetal_cxx_coro.Common.{◌≡◌, true, false, none, [], ◌∷◌, arith, All}
use baremetal_cxx_coro.NopTask.{
  Apart, Fits, Promise, TaskState, allocations, allocations-Apart, done, done-return_void,
  get_return_object, return_void, unhandled_exception,
}

-- Three frames of 200 bytes in a heap of 512 bytes: the third is refused.
allocations-Apart_example :
    All (Fits 512 0) (allocations 32 512 0 (200 ∷ 200 ∷ 200 ∷ 100 ∷ []))
    × Apart 512 (allocations 32 512 0 (200 ∷ 200 ∷ 200 ∷ 100 ∷ []))
allocations-Apart_example =
    allocations-Apart 32 512 (omega arith) 0 (200 ∷ 200 ∷ 200 ∷ 100 ∷ []) (omega arith)
      (omega arith, (omega arith, (omega arith, (omega arith, tt))))

abbrev fresh : Promise
fresh = record { promise_done = none }

-- One task has been made and is done.
abbrev one_done : TaskState
one_done = record { flags = λ q. true; next_flag = 1 }

done-return_void_example :
    let (t, p', s') = get_return_object true fresh one_done in
    (done true t s' ≡ false)
    × (done true t (return_void true p' s') ≡ true)
    × (done true t (unhandled_exception true p' s') ≡ true)
    × ((return_void true p' s').flags 0 ≡ true)
done-return_void_example = done-return_void fresh one_done 0 (omega arith)
