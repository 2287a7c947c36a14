-- ===== src/Awaitable.antt =====
-- The awaitables of include/coro/awaitable_timer.hpp, include/coro/awaitable_priority.hpp and
-- include/coro/awaitable_unordered.hpp: what `co_await` does before the coroutine suspends.
-- A command returns whether the coroutine goes on without a suspension.
pub mod Sleep
pub mod Rank
use baremetal_cxx_coro.Common.{ℕ, zero, suc, Bool, true, false, if◌then◌else◌}
use baremetal_cxx_coro.Common.Int.{ℤ, pos, negsuc}
use baremetal_cxx_coro.StaticList.{Cmd, pure, ◌>>=◌, ◌>>◌}
use baremetal_cxx_coro.Scheduler.{Entry, Handle, insert, insert_unordered}
use baremetal_cxx_coro.Scheduler.Delay
use baremetal_cxx_coro.Scheduler.Delay.{ScheduleByDelay, schedule_after, schedule_now}
use baremetal_cxx_coro.Scheduler.Priority
use baremetal_cxx_coro.Scheduler.Priority.{ScheduleByPriority, with_priority, default_priority}

-- The compiler's `co_await`: unless the awaitable is ready, the coroutine is handed to
-- `await_suspend` and suspends.
abbrev co_await : {T : Type 0} → Bool → Cmd T (Unit {0}) → Cmd T Bool
co_await ready suspend = if ready then pure true else suspend >> pure false

-- `delay_.count() == 0`
abbrev pub timer_await_ready : ℤ → Bool
timer_await_ready (pos zero) = true
timer_await_ready (pos (suc n)) = false
timer_await_ready (negsuc n) = false

module _ (duration_cast : ℤ → ℤ) where
  -- `awaitable_timer`, with the time that the clock shows at the call.
  abbrev pub timer_await_suspend :
      ℕ → (now delay : ℤ) → Handle → Cmd (Entry ScheduleByDelay) (Unit {0})
  timer_await_suspend fuel now delay handle =
      insert Delay.ready_to_wake fuel (schedule_now now) handle
        (schedule_after duration_cast now delay)

  pub co_await_timer : ℕ → (now delay : ℤ) → Handle → Cmd (Entry ScheduleByDelay) Bool
  co_await_timer fuel now delay handle =
      co_await (timer_await_ready delay) (timer_await_suspend fuel now delay handle)

-- `awaitable_priority`
abbrev pub priority_await_suspend :
    ℕ → (priority : ℤ) → Handle → Cmd (Entry ScheduleByPriority) (Unit {0})
priority_await_suspend fuel priority handle =
    insert Priority.ready_to_wake fuel default_priority handle (with_priority priority)

abbrev pub co_await_priority : ℕ → (priority : ℤ) → Handle → Cmd (Entry ScheduleByPriority) Bool
co_await_priority fuel priority handle =
    co_await false (priority_await_suspend fuel priority handle)

-- `awaitable_unordered`
abbrev pub co_await_unordered : Handle → Cmd Handle Bool
co_await_unordered handle = co_await false (insert_unordered handle)
