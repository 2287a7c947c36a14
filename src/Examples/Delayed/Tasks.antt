-- ===== src/Examples/Delayed/Tasks.antt =====
-- The ten rounds of the coroutine `periodic` of src/example_simple.cpp.
use baremetal_cxx_coro.Common.{
  ℕ, suc, ◌+◌, ◌-◌, ◌<◌, ◌≡◌, refl, true, false, Option, none, some, List, ◌∷◌, ◌++◌, arith, length,
  ltb, ◌==◌, if◌then◌else◌, Bool-cases, inl, inr, ◌⊎◌, ap, ◌∙◌,
}
use baremetal_cxx_coro.Common.Int.{ℤ}
use baremetal_cxx_coro.StaticList.Validity.{Holds}
use baremetal_cxx_coro.Scheduler.{Entry, Handle, entry}
use baremetal_cxx_coro.Scheduler.Delay.{ScheduleByDelay, schedule_after, IsSorted, up_to, beyond}
use baremetal_cxx_coro.Awaitable.{timer_await_ready, co_await_timer}
use baremetal_cxx_coro.Awaitable.Sleep.{suspended}
use baremetal_cxx_coro.Timer.{to_int, from_int}
use baremetal_cxx_coro.Examples.Delayed.{
  Waiting, Task, after_periodic, after_delay, for_loop, resume_task,
}

-- No coroutine is resumed while one suspends.
abbrev pub idle : Handle → Unit {0} → Waiting → Option (Unit {0} × Waiting)
idle h s l = none

-- A coroutine that waits in round `i` has been resumed `i` times.
abbrev pub IsCounting : Task → Type 0
IsCounting f = (f.resume_count ≡ f.i) × (f.i < 10) × (f.finished ≡ false)

-- The task after its next round.
abbrev pub next_task : (time : ℕ) → Task → Task
next_task time f = record {
  i = f.i + 1;
  resume_count = f.i + 1;
  stamps = λ k. if k == f.i then from_int (to_int time) else f.stamps k;
  finished = f.i == 9;
}

-- A coroutine `resuming_on_delay` that waits, and the same after its next round.
abbrev pub IsWaiting : Task → Type 0
IsWaiting f = (f.i < 10) × (f.finished ≡ false)

abbrev pub next_delay : Task → Task
next_delay f = record f { i = f.i + 1; resume_count = f.i + 1; finished = f.i == 9 }

-- The body is that of `periodic` or that of `resuming_on_delay`, and the coroutine waits in it.
abbrev pub BodyOf : (ℕ → Task → Option Task) → Task → Type 0
BodyOf body f = ((body ≡ after_periodic) × IsCounting f) ⊎ ((body ≡ after_delay) × IsWaiting f)

abbrev pub after_body : (body : ℕ → Task → Option Task) (time : ℕ) (f : Task) → BodyOf body f → Task
after_body body time f (inl b) = next_task time f
after_body body time f (inr b) = next_delay f

module _ (duration_cast : ℤ → ℤ) (now period : ℤ) (h : Handle) where
  -- The waiting list after that round.
  abbrev pub next_queue : Task → List (Entry ScheduleByDelay) → List (Entry ScheduleByDelay)
  next_queue f es =
      let e = entry h (schedule_after duration_cast now period) in
      if f.i == 9 then es else up_to e es ++ e ∷ beyond e es

  pub for_loop-suspends :
      (body : ℕ → Task → Option Task) (left fuel time : ℕ) (f : Task) (l l' : Waiting)
      → co_await_timer duration_cast fuel now period h l ≡ some (false, l')
      → for_loop duration_cast body (suc left) fuel time now period h f l ≡ some (f, l')
  unfolding for_loop
  for_loop-suspends body left fuel time f l l' run = rw (for_loop, run) refl

  for_loop-ends :
      (body : ℕ → Task → Option Task) (fuel time : ℕ) (f : Task) (l : Waiting)
      → for_loop duration_cast body 0 fuel time now period h f l
        ≡ some (record f { finished = true }, l)
  unfolding for_loop
  for_loop-ends body fuel time f l = refl

  -- With a valid sorted list of n nodes that is not full, more than n rounds of fuel and a period
  -- other than 0, `periodic`, suspended in its round `i` below 10 after as many resumptions, is
  -- resumed without a fault: it writes the time stamp of index `i`, and waits in its turn in a
  -- valid sorted list, or has ended and leaves the list's entries, when `i` is 9.
  pub resume_task-next :
      (fuel n time : ℕ) (f : Task) (l : Waiting) (es : List (Entry ScheduleByDelay))
      → Holds n l es
      → length es < n
      → n < fuel
      → IsSorted es
      → timer_await_ready period ≡ false
      → IsCounting f
      → (l' : Waiting) × (resume_task duration_cast after_periodic fuel time now period h f l
          ≡ some (next_task time f, l'))
        × Holds n l' (next_queue f es)
        × IsSorted (next_queue f es)
  unfolding resume_task
  resume_task-next fuel n time f l es holds room enough sorted waits counting =
      let within : ltb f.resume_count 10 ≡ true = ground (arith, counting.0, counting.1) in
      elim (Bool-cases (f.i == 9)) [
        | inl r ↦
            let none_left : 10 - (f.i + 1) ≡ 0 = ground arith in
            (
              l,
              rw (within, counting.0, none_left, r) (for_loop-ends after_periodic fuel time _ l),
              rw r holds,
              rw r sorted,
            )
        | inr r ↦
            let (l', run, is, in_order) =
              suspended idle duration_cast fuel n now period h l es holds room enough sorted
                waits in
            let more : 10 - (f.i + 1) ≡ suc (8 - f.i) = ground (arith, counting.1) in
            let f' = record (next_task time f) { finished = false } in
            (
              l',
              rw (within, counting.0, more, r, counting.2)
                  (for_loop-suspends after_periodic (8 - f.i) fuel time f' l l' run),
              rw r is,
              rw r in_order,
            )
      ]

  -- `resuming_on_delay` goes on in the same way, and writes no time stamp.
  pub resume_task-after_delay :
      (fuel n time : ℕ) (f : Task) (l : Waiting) (es : List (Entry ScheduleByDelay))
      → Holds n l es
      → length es < n
      → n < fuel
      → IsSorted es
      → timer_await_ready period ≡ false
      → IsWaiting f
      → (l' : Waiting) × (resume_task duration_cast after_delay fuel time now period h f l
          ≡ some (next_delay f, l'))
        × Holds n l' (next_queue f es)
        × IsSorted (next_queue f es)
  unfolding resume_task
  resume_task-after_delay fuel n time f l es holds room enough sorted waits within =
      elim (Bool-cases (f.i == 9)) [
        | inl r ↦
            let none_left : 10 - (f.i + 1) ≡ 0 = ground arith in
            (
              l,
              rw (none_left, r) (for_loop-ends after_delay fuel time _ l),
              rw r holds,
              rw r sorted,
            )
        | inr r ↦
            let (l', run, is, in_order) =
              suspended idle duration_cast fuel n now period h l es holds room enough sorted
                waits in
            let more : 10 - (f.i + 1) ≡ suc (8 - f.i) = ground (arith, within.0) in
            let f' = record (next_delay f) { finished = false } in
            (
              l',
              rw (more, r, within.1)
                  (for_loop-suspends after_delay (8 - f.i) fuel time f' l l' run),
              rw r is,
              rw r in_order,
            )
      ]

  -- Either body: the frame is the one or the other, and the list is the same.
  pub resume_task-either :
      (body : ℕ → Task → Option Task) (fuel n time : ℕ) (f : Task) (l : Waiting)
      (es : List (Entry ScheduleByDelay))
      → Holds n l es
      → length es < n
      → n < fuel
      → IsSorted es
      → timer_await_ready period ≡ false
      → (b : BodyOf body f)
      → (l' : Waiting) × (resume_task duration_cast body fuel time now period h f l
          ≡ some (after_body body time f b, l'))
        × Holds n l' (next_queue f es)
        × IsSorted (next_queue f es)
  resume_task-either body fuel n time f l es holds room enough sorted waits (inl (same, counting)) =
      let (l', run, is, in_order) =
        resume_task-next fuel n time f l es holds room enough sorted waits counting in
      (
        l',
        ap (λ b. resume_task duration_cast b fuel time now period h f l) same ∙ run,
        is,
        in_order,
      )
  resume_task-either body fuel n time f l es holds room enough sorted waits (inr (same, within)) =
      let (l', run, is, in_order) =
        resume_task-after_delay fuel n time f l es holds room enough sorted waits within in
      (
        l',
        ap (λ b. resume_task duration_cast b fuel time now period h f l) same ∙ run,
        is,
        in_order,
      )
