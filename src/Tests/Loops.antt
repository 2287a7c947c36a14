-- ===== src/Tests/Loops.antt =====
-- The theorems about src/example_simple.cpp and src/example_timer.cpp, with one coroutine that waits.
use baremetal_cxx_coro.Common.{
  ℕ, ◌+◌, ◌≡◌, refl, true, false, none, some, [], ◌∷◌, arith, ◌==◌, if◌then◌else◌, inr,
}
use baremetal_cxx_coro.Common.Int.{pos, ◌+ℤ◌, +ℤ_parts}
use baremetal_cxx_coro.StaticList.Validity.{Holds}
use baremetal_cxx_coro.Scheduler.{Entry, UpdateTrace, entry}
use baremetal_cxx_coro.Scheduler.Delay.{
  ScheduleByDelay, IsSorted, schedule_after, expiry, delay, ◌<ℤ◌,
}
use baremetal_cxx_coro.StaticList.Contents.{construct-Holds}
use baremetal_cxx_coro.Examples.Delayed.Start
use baremetal_cxx_coro.Examples.Delayed.Start.{timer_set_up, second, timer_set_up-oversleeps}
use baremetal_cxx_coro.Scheduler.Wake.{last_condition}
use baremetal_cxx_coro.Trace.{initial_log}
use baremetal_cxx_coro.Trace.History.{Refines, record_calls, empty_history, initial-Refines}
use baremetal_cxx_coro.Examples.Delayed.{
  Waiting, Task, after_periodic, after_delay, resume_task, set_task, Times, Program, Setting,
  resume_tasks, simple_round, timer_round,
}
use baremetal_cxx_coro.Examples.Delayed.Tasks.{next_task, next_delay, next_queue, resume_task-next}
use baremetal_cxx_coro.Examples.Delayed.Rounds.{Asleep, trace_calls, rounds-fault, rounds-Asleep}
use baremetal_cxx_coro.Tests.Data.{raw, list₁, list₁-IsValid}

abbrev pub first : Entry ScheduleByDelay
first = entry 4 (record { expires = pos 100 })

abbrev pub no_entry : Entry ScheduleByDelay
no_entry = entry 0 (record { expires = pos 0 })

abbrev pub waiting : Waiting
waiting = list₁ no_entry first

pub waiting-Holds : Holds 3 waiting (first ∷ [])
waiting-Holds = record {
  cells = (1, first) ∷ [];
  spares = (2, no_entry) ∷ (3, no_entry) ∷ [];
  valid = list₁-IsValid no_entry first;
  values = refl;
}

-- The coroutine in its fourth round.
abbrev pub fourth : Task
fourth = record { i = 3; resume_count = 3; stamps = λ k. 0; finished = false }

abbrev pub one_task : Program
one_task = record {
  tasks = λ h. fourth;
  waiting = waiting;
  log = initial_log;
  time_cmp = record { mtimecmpl = 0; mtimecmph = 0; held = [] };
  mti_enabled = false;
  mie_enabled = false;
  timestamp = 0;
  task_heap_index = 96;
}

abbrev pub setting : Setting
setting = record {
  to_clock = λ d. d;
  to_ticks = λ d. d;
  body = after_periodic;
  period = λ h. pos 1000;
  wide = false;
  word_bits = 32;
  host_emulation = false;
  frame_size = 96;
}

-- The times of a round that begins at `t`.
abbrev pub from : ℕ → Times
from t = record {
  now = pos t;
  ticks = t;
  resumed_at = pos (t + 1);
  resumed_ticks = t + 1;
  trace_now = pos (t + 2);
  delay_now = pos (t + 3);
  set_at = t + 4;
}

resume_task-next_example :
    (l' : Waiting) × (resume_task
        (λ d. d)
        after_periodic
        4
        102
        (pos 103)
        (pos 1000)
        5
        fourth
        waiting
      ≡ some (next_task 102 fourth, l'))
    × Holds 3 l' (next_queue (λ d. d) (pos 103) (pos 1000) 5 fourth (first ∷ []))
    × IsSorted (next_queue (λ d. d) (pos 103) (pos 1000) 5 fourth (first ∷ []))
resume_task-next_example =
    resume_task-next (λ d. d) (pos 103) (pos 1000) 5 4 3 102 fourth waiting (first ∷ [])
      waiting-Holds (omega arith) (omega arith) (tt, tt) refl (refl, omega arith, refl)

-- The same with coroutines of `example_timer`.
abbrev delay_setting : Setting
delay_setting = record setting { body = after_delay }

rounds-fault_example :
    (t : UpdateTrace) × ((l : Waiting) × (resume_tasks delay_setting (from 101) 4 one_task
        ≡ some (
          record { pending = true; next_wake = none; trace = t },
          set_task 4 (next_delay fourth) one_task.tasks,
          l,
        ))
      × Holds 3 l (next_queue (λ d. d) (pos 102) (pos 1000) 4 fourth [])
      × (simple_round delay_setting (from 101) 4 one_task ≡ none)
      × (timer_round delay_setting (from 101) 4 one_task ≡ none))
rounds-fault_example =
    rounds-fault delay_setting (from 101) 4 3 one_task first [] waiting-Holds (omega arith) (tt, tt)
      (omega arith) refl (inr (refl, (omega arith, refl)))

rounds-Asleep_example :
    (t : UpdateTrace) × ((p₁ : Program) × ((p₂ : Program) × (simple_round setting
            (from 50)
            4
            one_task
          ≡ some p₁)
        × (timer_round setting (from 50) 4 one_task ≡ some p₂)
        × Asleep setting (from 50) one_task (last_condition first []) p₁
        × Asleep setting (from 50) one_task (last_condition first []) p₂
        × Refines p₂.log
            (record_calls (trace_calls (from 50) t (last_condition first [])) empty_history)))
rounds-Asleep_example =
    rounds-Asleep setting (from 50) 4 3 one_task first [] empty_history waiting-Holds (omega arith)
      (tt, tt) (omega arith) initial-Refines

-- The set-up of `example_timer`, with periods of 10 and 20 seconds.
abbrev two_periods : Setting
two_periods = record setting { period = λ h. if h == 1 then pos 10 else pos 20 }

abbrev no_task : Program
no_task = record one_task { waiting = (construct-Holds (raw no_entry) 2).0 }

timer_set_up-oversleeps_example :
    (t : UpdateTrace) × ((p₁ : Program) × ((p₂ : Program) × (timer_set_up two_periods 4 2 2 3
            (pos 3)
            (pos 4)
            1
            2
            no_task
          ≡ some p₁)
        × (timer_round two_periods (from 5) 4 p₁ ≡ some p₂)
        × Asleep two_periods
            (from 5)
            p₁
            (second two_periods 4 3 1 2 (pos 3) (pos 4)).wake_condition
            p₂
        × Refines p₂.log (
            record_calls
              (trace_calls (from 5) t (second two_periods 4 3 1 2 (pos 3) (pos 4)).wake_condition)
              empty_history)
        × (expiry (Start.first two_periods 4 3 1 2 (pos 3) (pos 4))
            <ℤ pos 8 +ℤ delay (pos 8) (second two_periods 4 3 1 2 (pos 3) (pos 4)).wake_condition)))
unfolding schedule_after
timer_set_up-oversleeps_example =
    timer_set_up-oversleeps two_periods 4 3 1 2 (pos 3) (pos 4) 2 2 3 no_task (from 5) empty_history
      (omega arith, omega arith) (construct-Holds (raw no_entry) 2).2 (omega arith) (omega arith)
      refl refl (omega (arith, +ℤ_parts (pos 3) (pos 10), +ℤ_parts (pos 4) (pos 20)))
      (omega (arith, +ℤ_parts (pos 3) (pos 10))) (omega (arith, +ℤ_parts (pos 3) (pos 10)))
      initial-Refines
