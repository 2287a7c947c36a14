-- ===== src/Tests/Requests.antt =====
-- The theorems about sequences of calls of `insert` and `resume` of include/coro/scheduler.hpp.
use mathlib.Core.List.{reverse}
use baremetal_cxx_coro.Common.{ℕ, ◌+◌, ◌≡◌, Option, some, List, [], ◌∷◌, refl, arith, All, map}
use baremetal_cxx_coro.Common.Int.{pos, ◌≤ℤ◌}
use baremetal_cxx_coro.StaticList.{StaticList}
use baremetal_cxx_coro.StaticList.Validity.{Holds}
use baremetal_cxx_coro.Scheduler.{Entry, Handle, entry}
use baremetal_cxx_coro.Scheduler.Spec.{insert_entry}
use baremetal_cxx_coro.Scheduler.Delay
use baremetal_cxx_coro.Scheduler.Delay.{ScheduleByDelay, IsSorted, expiry, schedule_now, ◌<ℤ◌}
use baremetal_cxx_coro.Scheduler.Priority
use baremetal_cxx_coro.Scheduler.Priority.{ScheduleByPriority, priority, with_priority}
use baremetal_cxx_coro.Scheduler.Requests.{
  Request, inserting, resuming, perform_all, enter_all, enter, first_due, opened,
}
use baremetal_cxx_coro.Scheduler.Requests.Conserved.{perform_all-conserves, IsBalanced}
use baremetal_cxx_coro.Scheduler.Requests.Order.{perform_all-IsSorted}
use baremetal_cxx_coro.Scheduler.Requests.Drain
use baremetal_cxx_coro.Scheduler.Requests.Deadlines.{resume-expired}
use baremetal_cxx_coro.Scheduler.Requests.Levels.{copies, resume-reaching}
use baremetal_cxx_coro.Scheduler.Requests.Starved.{runs, resume-starves}
use baremetal_cxx_coro.Tests.Data.{list₂, list₂-Holds}

abbrev at : ℕ → ScheduleByDelay
at t = record { expires = pos t }

abbrev Delayed : Type 0
Delayed = StaticList (Entry ScheduleByDelay)

-- Coroutine 1 expires at 10 and coroutine 2 at 20.
abbrev delayed : List (Entry ScheduleByDelay)
delayed = entry 1 (at 10) ∷ entry 2 (at 20) ∷ []

abbrev delays : Delayed
delays = list₂ (entry 0 (at 0)) (entry 1 (at 10)) (entry 2 (at 20))

delays-Holds : Holds 3 delays delayed
delays-Holds = list₂-Holds (entry 0 (at 0)) (entry 1 (at 10)) (entry 2 (at 20))

delayed-IsSorted : IsSorted delayed
delayed-IsSorted = ((omega arith, tt), (tt, tt))

-- A coroutine counts its number, and awaits the time 50.
abbrev until_50 : Handle → ℕ → ℕ × Option ScheduleByDelay
until_50 h s = (s + h, some (at 50))

-- A third coroutine waits, the first runs, and a fourth finds no room.
abbrev calls : List (Request ScheduleByDelay)
calls = inserting 3 (at 15) ∷ resuming (at 12) ∷ inserting 4 (at 5) ∷ resuming (at 12) ∷ []

perform_all-conserves_example :
    (l' : Delayed) × (perform_all Delay.ready_to_wake until_50 4 (at 0) calls 0 delays
      ≡ some (1, l'))
    × Holds 3 l' (entry 3 (at 15) ∷ entry 2 (at 20) ∷ entry 1 (at 50) ∷ [])
    × IsBalanced Delay.ready_to_wake until_50 3 delayed
        (enter_all Delay.ready_to_wake until_50 3 calls (opened 0 delayed))
unfolding enter_all enter first_due insert_entry Delay.ready_to_wake
perform_all-conserves_example =
    perform_all-conserves Delay.ready_to_wake until_50 4 (at 0) 3 calls 0 delays delayed
      delays-Holds (omega arith)

perform_all-IsSorted_example :
    (s' : ℕ) × ((l' : Delayed) × ((es' : List (Entry ScheduleByDelay)) × (perform_all
            Delay.ready_to_wake until_50 4
            (at 0)
            calls
            0
            delays
          ≡ some (s', l'))
        × Holds 3 l' es'
        × IsSorted es'))
perform_all-IsSorted_example =
    perform_all-IsSorted until_50 4 (at 0) 3 calls 0 delays delayed delays-Holds (omega arith)
      delayed-IsSorted

until_50-later : (h s : ℕ) (w : ScheduleByDelay) → some (at 50) ≡ some w → pos 30 ≤ℤ w.expires
until_50-later h s w e = ground arith

-- Both coroutines have expired at 30 and run, in two calls at 30 and 31.
resume-expired_example :
    (l' : Delayed) × (perform_all Delay.ready_to_wake until_50 4
        (at 0)
        (map resuming (map schedule_now (pos 30 ∷ pos 31 ∷ [])))
        0
        delays
      ≡ some (3, l'))
    × Holds 3 l' (entry 1 (at 50) ∷ entry 2 (at 50) ∷ [])
    × (◌≡◌ {A = List ℕ} (2 ∷ 1 ∷ []) (reverse (1 ∷ 2 ∷ [])))
    × All (λ y. pos 30 ≤ℤ expiry y) (entry 1 (at 50) ∷ entry 2 (at 50) ∷ [])
unfolding Drain.turn insert_entry Delay.ready_to_wake
resume-expired_example =
    resume-expired until_50 4 (at 0) 3 (pos 30) (pos 30 ∷ pos 31 ∷ []) 0 delays delayed delays-Holds
      (omega arith) delayed-IsSorted refl (omega arith) until_50-later

abbrev level : ℕ → ScheduleByPriority
level p = record { priority = pos p }

-- Coroutine 1 has priority 9 and coroutine 2 priority 5.
abbrev ranked : List (Entry ScheduleByPriority)
ranked = entry 1 (level 9) ∷ entry 2 (level 5) ∷ []

abbrev ranks : StaticList (Entry ScheduleByPriority)
ranks = list₂ (entry 0 (level 0)) (entry 1 (level 9)) (entry 2 (level 5))

-- A coroutine counts its number, and awaits the priority 3.
abbrev behind_3 : Handle → ℕ → ℕ × Option ScheduleByPriority
behind_3 h s = (s + h, some (level 3))

behind_3-lower : (h s : ℕ) (w : ScheduleByPriority) → some (level 3) ≡ some w → w.priority <ℤ pos 7
behind_3-lower h s w e = ground arith

resume-reaching_example :
    (l' : StaticList (Entry ScheduleByPriority)) × (perform_all Priority.ready_to_wake behind_3 4
        (level 0)
        (map resuming (copies 1 (with_priority (pos 7))))
        0
        ranks
      ≡ some (1, l'))
    × Holds 3 l' (entry 2 (level 5) ∷ entry 1 (level 3) ∷ [])
    × (◌≡◌ {A = List ℕ} (1 ∷ []) (reverse (1 ∷ [])))
    × All (λ y. priority y <ℤ pos 7) (entry 2 (level 5) ∷ entry 1 (level 3) ∷ [])
unfolding Drain.turn insert_entry Priority.ready_to_wake
resume-reaching_example =
    resume-reaching behind_3 4 (level 0) 3 (pos 7) 0 ranks ranked
      (list₂-Holds (entry 0 (level 0)) (entry 1 (level 9)) (entry 2 (level 5))) (omega arith)
      (omega arith) behind_3-lower

-- A coroutine counts its number, and awaits the priority 9.
abbrev at_9 : Handle → ℕ → ℕ × Option ScheduleByPriority
at_9 h s = (s + h, some (level 9))

again_at_9 : (s : ℕ) → some (level 9) ≡ some (with_priority (pos 9))
unfolding with_priority
again_at_9 s = refl

-- Of two coroutines of priority 9, the first runs five times.
resume-starves_example :
    (v : ScheduleByPriority) × ((l' : StaticList (Entry ScheduleByPriority)) × (perform_all
          Priority.ready_to_wake at_9 4
          (level 0)
          (map resuming (copies 5 (with_priority (pos 7))))
          0
          (list₂ (entry 0 (level 0)) (entry 1 (level 9)) (entry 2 (level 9)))
        ≡ some (5, l'))
      × Holds 3 l' (entry 1 v ∷ entry 2 (level 9) ∷ []))
unfolding runs
resume-starves_example =
    resume-starves at_9 3 (pos 7) (pos 9) 1 (entry 2 (level 9) ∷ []) (omega arith) (omega arith)
      again_at_9 4 5 (level 0) (level 9) 0
      (list₂ (entry 0 (level 0)) (entry 1 (level 9)) (entry 2 (level 9)))
      (list₂-Holds (entry 0 (level 0)) (entry 1 (level 9)) (entry 2 (level 9))) (omega arith)
      (omega arith)
