-- ===== src/Awaitable/Rank.antt =====
-- Awaiting a priority (include/coro/awaitable_priority.hpp), and the scheduler's next run.
use baremetal_cxx_coro.Common.{
  ℕ, ◌<◌, ◌≡◌, refl, true, false, Option, none, some, List, ◌∷◌, arith, length, All,
}
use baremetal_cxx_coro.Common.Int.{ℤ, ◌≤ℤ◌}
use baremetal_cxx_coro.StaticList.{StaticList}
use baremetal_cxx_coro.StaticList.Validity.{Holds}
use baremetal_cxx_coro.Scheduler.{Entry, Handle, UpdateTrace, entry, resume, after_run}
use baremetal_cxx_coro.Scheduler.Priority.{
  ScheduleByPriority, ready_to_wake, with_priority, default_priority, priority, IsRanked, All-up_to,
  insert-in_front, resume-highest,
}
use baremetal_cxx_coro.Awaitable.{co_await_priority}

module _ {S : Type 0}
    (run : Handle
      → S
      → StaticList (Entry ScheduleByPriority)
      → Option (S × StaticList (Entry ScheduleByPriority))) where
  -- On a valid ranked list of n nodes that is not full and holds no priority above `p`, with more
  -- than n rounds of fuel: a coroutine that awaits the priority `p` suspends, and `resume` at a
  -- level that is not above `p` then takes it off and resumes it on the valid list of the others;
  -- if that returns, `resume` reports true and no next condition.
  pub co_await_priority-runs :
      (fuel n : ℕ) (p level : ℤ) (h : Handle) (s : S) (l : StaticList (Entry ScheduleByPriority))
      (es : List (Entry ScheduleByPriority))
      → Holds n l es
      → length es < n
      → n < fuel
      → IsRanked es
      → All (λ y. priority y ≤ℤ p) es
      → level ≤ℤ p
      → (l' : StaticList (Entry ScheduleByPriority)) × ((l'' : StaticList
            (Entry ScheduleByPriority))
          × ((t : UpdateTrace) × (co_await_priority fuel p h l ≡ some (false, l'))
              × Holds n l'' es
              × (resume ready_to_wake run fuel (with_priority level) s l'
                  ≡ after_run ready_to_wake run
                      (record { pending = true; next_wake = none; trace = t })
                      (run h s l''))))
  unfolding with_priority
  co_await_priority-runs fuel n p level h s l es holds room enough ranked below reached =
      let (l', suspend, is, in_order) =
        insert-in_front fuel n default_priority (with_priority p) h l es holds room (omega arith)
          ranked in
      let parts = All-up_to (entry h (with_priority p)) es below in
      let first : Holds n l' (entry h (with_priority p) ∷ es) = rw (parts.0, parts.1) at is in
      let in_front : IsRanked (entry h (with_priority p) ∷ es) =
        rw (parts.0, parts.1) at in_order in
      let (t, (l'', rest, _, result)) =
        resume-highest run fuel n level s l' (entry h (with_priority p)) es first enough in_front
          reached in
      (l', (l'', (t, rw suspend refl, rest, result)))
