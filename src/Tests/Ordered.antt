-- ===== src/Tests/Ordered.antt =====
-- The theorems about `scheduler_ordered` of include/coro/scheduler.hpp on two waiting coroutines.
use baremetal_cxx_coro.Common.{ℕ, ◌+◌, ◌≡◌, Option, none, some, true, false, [], ◌∷◌, refl, arith}
use baremetal_cxx_coro.Common.Int.{pos, +ℤ_parts}
use baremetal_cxx_coro.StaticList.{StaticList}
use baremetal_cxx_coro.StaticList.Validity.{Holds}
use baremetal_cxx_coro.Scheduler.{Entry, Handle, UpdateTrace, entry, insert, resume, after_run}
use baremetal_cxx_coro.Scheduler.Spec.{insert_entry}
use baremetal_cxx_coro.Scheduler.Insert.{insert-insert_entry, insert-full}
use baremetal_cxx_coro.Scheduler.Resume.{Waits, Due, resume-Due, priority_after}
use baremetal_cxx_coro.Scheduler.Delay
use baremetal_cxx_coro.Scheduler.Delay.{
  ScheduleByDelay, schedule_now, delay, expiry, IsSorted, insert-in_turn, ◌<ℤ◌,
}
use baremetal_cxx_coro.Awaitable.{co_await_timer}
use baremetal_cxx_coro.Awaitable.Sleep.{co_await_timer-sleeps, co_await_timer-wakes}
use baremetal_cxx_coro.Tests.Data.{list₂, list₃, list₂-Holds, list₃-Holds}

abbrev at : ℕ → ScheduleByDelay
at t = record { expires = pos t }

abbrev Delayed : Type 0
Delayed = StaticList (Entry ScheduleByDelay)

-- Coroutine 1 expires at 10 and coroutine 2 at 20.
abbrev first : Entry ScheduleByDelay
first = entry 1 (at 10)

abbrev second : Entry ScheduleByDelay
second = entry 2 (at 20)

abbrev delays : Delayed
delays = list₂ first first second

delays-Holds : Holds 3 delays (first ∷ second ∷ [])
delays-Holds = list₂-Holds first first second

-- Resuming a coroutine counts it.
abbrev count_run : Handle → ℕ → Delayed → Option (ℕ × Delayed)
count_run h s l = some (s + h, l)

delays-IsSorted : IsSorted (first ∷ second ∷ [])
delays-IsSorted = ((omega arith, tt), (tt, tt))

second-Waits : Waits Delay.ready_to_wake (at 15) second
unfolding Delay.ready_to_wake
second-Waits = refl

first-Due : Due Delay.ready_to_wake (at 15) first
unfolding Delay.ready_to_wake
first-Due = refl

insert-insert_entry_example :
    (l' : Delayed) × (insert Delay.ready_to_wake 3 (at 0) 5 (at 15) delays ≡ some (tt, l'))
    × Holds 3 l' (insert_entry Delay.ready_to_wake (entry 5 (at 15)) (first ∷ second ∷ []))
insert-insert_entry_example =
    insert-insert_entry Delay.ready_to_wake 3 3 (at 0) (at 15) 5 delays (first ∷ second ∷ [])
      delays-Holds (omega arith) (omega arith)

insert-full_example :
    insert Delay.ready_to_wake 4 (at 0) 5 (at 15) (list₃ first first second second)
    ≡ some (tt, list₃ first first second second)
insert-full_example =
    insert-full Delay.ready_to_wake 4 3 (at 0) (at 15) 5 (list₃ first first second second)
      (first ∷ second ∷ second ∷ []) (list₃-Holds first first second second) refl (omega arith)

-- The waiting list in the wrong order: the coroutine in front is not due.
resume-Due_example :
    (t : UpdateTrace) × ((l' : Delayed) × Holds 3 l' (second ∷ [])
      × (resume Delay.ready_to_wake count_run 4 (at 15) 0 (list₂ first second first)
          ≡ after_run Delay.ready_to_wake count_run
              (record {
                pending = true;
                next_wake = priority_after Delay.ready_to_wake none (second ∷ []);
                trace = t;
              })
              (count_run 1 0 l')))
resume-Due_example =
    resume-Due Delay.ready_to_wake count_run 4 3 (at 15) 0 (list₂ first second first) (second ∷ [])
      first [] (list₂-Holds first second first) (omega arith) (second-Waits, tt) first-Due

insert-in_turn_example :
    (l' : Delayed) × (insert Delay.ready_to_wake 3 (at 0) 5 (at 10) delays ≡ some (tt, l'))
    × Holds 3 l' (first ∷ entry 5 (at 10) ∷ second ∷ [])
    × IsSorted (first ∷ entry 5 (at 10) ∷ second ∷ [])
insert-in_turn_example =
    insert-in_turn 3 3 (at 0) (at 10) 5 delays (first ∷ second ∷ []) delays-Holds (omega arith)
      (omega arith) delays-IsSorted

-- Coroutine 7 awaits 4 microseconds at the time 5, with a clock of microseconds.
co_await_timer-sleeps_example :
    (l' : Delayed) × ((w : Option ScheduleByDelay) × ((trace : UpdateTrace) × (co_await_timer
            (λ d. d)
            4
            (pos 5)
            (pos 4)
            7
            delays
          ≡ some (false, l'))
        × (resume Delay.ready_to_wake count_run 4 (schedule_now (pos 9)) 0 l'
            ≡ some (record { pending = true; next_wake = w; trace = trace }, 0, l'))))
co_await_timer-sleeps_example =
    co_await_timer-sleeps count_run (λ d. d) 4 3 (pos 5) (pos 4) 7 delays (first ∷ second ∷ [])
      delays-Holds (omega arith) (omega arith) delays-IsSorted refl (pos 9) 0
      (omega arith, (omega arith, tt)) (omega (arith, +ℤ_parts (pos 5) (pos 4)))

co_await_timer-wakes_example :
    (l' : Delayed) × ((l'' : Delayed) × ((trace : UpdateTrace) × (co_await_timer
            (λ d. d)
            4
            (pos 5)
            (pos 4)
            7
            delays
          ≡ some (false, l'))
        × Holds 3 l'' (first ∷ second ∷ [])
        × (resume Delay.ready_to_wake count_run 4 (schedule_now (pos 10)) 0 l'
            ≡ after_run Delay.ready_to_wake count_run
                (record { pending = true; next_wake = none; trace = trace })
                (count_run 7 0 l''))))
co_await_timer-wakes_example =
    co_await_timer-wakes count_run (λ d. d) 4 3 (pos 5) (pos 4) 7 delays (first ∷ second ∷ [])
      delays-Holds (omega arith) (omega arith) delays-IsSorted refl (pos 10) 0
      (omega arith, (omega arith, tt)) (omega (arith, +ℤ_parts (pos 5) (pos 4)))
