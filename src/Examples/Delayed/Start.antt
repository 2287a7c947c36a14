-- ===== src/Examples/Delayed/Start.antt =====
-- The set-up in front of the event loops of src/example_simple.cpp and src/example_timer.cpp, and
-- the first round of the latter.
use baremetal_cxx_coro.Common.{
  ℕ, ◌+◌, ◌%◌, ◌^◌, ◌<◌, ◌≡◌, refl, ◌∙◌, true, false, Option, none, some, List, [], ◌∷◌, ◌++◌,
  arith, length, sym, subst, le→not-ltb,
}
use baremetal_cxx_coro.Common.Int.{ℤ, ◌+ℤ◌, ◌≤ℤ◌, ltb_ℤ}
use baremetal_cxx_coro.StaticList.Validity.{Holds}
use baremetal_cxx_coro.Scheduler.{Entry, Handle, UpdateTrace, entry}
use baremetal_cxx_coro.Scheduler.Delay.{
  ScheduleByDelay, schedule_after, IsSorted, up_to, beyond, expiry, ◌<ℤ◌, delay,
}
use baremetal_cxx_coro.Awaitable.{timer_await_ready}
use baremetal_cxx_coro.Awaitable.Sleep.{suspended}
use baremetal_cxx_coro.NopTask.{operator_new, operator_new-exact, task_heap_size}
use baremetal_cxx_coro.Timer.{write_time_cmp, to_int, from_int}
use baremetal_cxx_coro.Examples.Delayed.{
  Waiting, Task, Program, Setting, Times, for_loop, fresh, set_task, timer_round,
}
use baremetal_cxx_coro.Scheduler.Wake.{delay-past_first}
use baremetal_cxx_coro.Trace.History.{History, Refines, record_calls}
use baremetal_cxx_coro.Examples.Delayed.Rounds.{Asleep, trace_calls, rounds-Asleep}
use baremetal_cxx_coro.Examples.Delayed.Tasks.{for_loop-suspends, idle}

-- The run of the coroutine up to its first suspension.
abbrev with_task : Handle → Program → Option (Task × Waiting) → Option Program
with_task h p none = none
with_task h p (some (f, l)) = some (record p { tasks = set_task h f p.tasks; waiting = l })

-- A coroutine without a frame does not start: its task is that of a failed allocation.
abbrev in_frame :
    Option ℕ → Setting → (fuel time : ℕ) → (now : ℤ) → Handle → Program → Option Program
in_frame none env fuel time now h p = some p
in_frame (some frame) env fuel time now h p = with_task h p (
    for_loop env.to_clock env.body 10 fuel time now (env.period h) h
      (fresh env.to_clock env.body (p.tasks h).resume_count (p.tasks h).stamps) p.waiting)

pub start_task : Setting → (fuel time : ℕ) → (now : ℤ) → Handle → Program → Option Program
start_task env fuel time now h p =
    let a =
      operator_new env.word_bits (task_heap_size env.host_emulation) p.task_heap_index
        env.frame_size in
    in_frame a.pointer env fuel time now h (record p { task_heap_index = a.index })

-- Behind `index` the heap has room for a frame, and no sum of `std::size_t` wraps around.
abbrev pub HasRoom : Setting → ℕ → Type 0
HasRoom env index =
    (index + env.frame_size < task_heap_size env.host_emulation)
    × (task_heap_size env.host_emulation < 2 ^ env.word_bits)

-- The time stamp, and the timer set to fire at once, for the times that are read.
abbrev set_timer : Setting → (now at : ℕ) → Program → Program
set_timer env now at p = record p {
  mie_enabled = false;
  timestamp = from_int (to_int now);
  time_cmp = write_time_cmp env.wide ((at + 0) % 2 ^ 64) p.time_cmp;
}

-- `example_simple` up to its event loop, with the coroutine `t`.
abbrev pub simple_set_up :
    Setting → (fuel now at time : ℕ) → (t_now : ℤ) → (t : Handle) → Program → Option Program
simple_set_up env fuel now at time t_now t p =
    start_task env fuel time t_now t (set_timer env now at p)

abbrev started_twice : Option Program → (Program → Option Program) → Option Program
started_twice none k = none
started_twice (some p) k = k p

abbrev enabled : Option Program → Option Program
enabled none = none
enabled (some p) = some (record p { mti_enabled = true; mie_enabled = true })

-- `example_timer` up to its event loop, with the coroutines `t0` and `t1`.
pub timer_set_up :
    Setting
    → (fuel now at time : ℕ) → (t0_now t1_now : ℤ) → (t0 t1 : Handle) → Program
    → Option Program
timer_set_up env fuel now at time t0_now t1_now t0 t1 p = enabled (
    started_twice (start_task env fuel time t0_now t0 (set_timer env now at p))
      (start_task env fuel time t1_now t1))

module _ (env : Setting) (fuel n time : ℕ) (now : ℤ) (h : Handle) (p : Program) where
  abbrev sleeper : Entry ScheduleByDelay
  sleeper = entry h (schedule_after env.to_clock now (env.period h))

  -- The coroutine waits in its turn.
  start_task-Holds :
      (es : List (Entry ScheduleByDelay))
      → HasRoom env p.task_heap_index
      → Holds n p.waiting es
      → length es < n
      → n < fuel
      → IsSorted es
      → timer_await_ready (env.period h) ≡ false
      → (p' : Program) × (start_task env fuel time now h p ≡ some p')
        × Holds n p'.waiting (up_to sleeper es ++ sleeper ∷ beyond sleeper es)
        × (p'.log ≡ p.log)
        × (p'.task_heap_index ≡ p.task_heap_index + env.frame_size)
  unfolding start_task
  start_task-Holds es space holds room enough sorted waits =
      let (l, run, is, _) =
        suspended idle env.to_clock fuel n now (env.period h) h p.waiting es holds room enough
          sorted waits in
      let f = fresh env.to_clock env.body (p.tasks h).resume_count (p.tasks h).stamps in
      let heap_size = task_heap_size env.host_emulation in
      let allocated =
        (operator_new-exact env.word_bits heap_size space.1 p.task_heap_index env.frame_size
            (omega (arith, space.0)) (omega (arith, space.0, space.1))).0
          space.0 in
      (
        record p {
          tasks = set_task h f p.tasks;
          waiting = l;
          task_heap_index = p.task_heap_index + env.frame_size;
        },
        rw
            (
              allocated,
              for_loop-suspends env.to_clock now (env.period h) h env.body 9 fuel time f p.waiting l
                  run,
            )
            refl,
        is,
        refl,
        refl,
      )

module _ (env : Setting) (fuel n : ℕ) (t0 t1 : Handle) (t0_now t1_now : ℤ) where
  abbrev pub first : Entry ScheduleByDelay
  first = entry t0 (schedule_after env.to_clock t0_now (env.period t0))

  abbrev pub second : Entry ScheduleByDelay
  second = entry t1 (schedule_after env.to_clock t1_now (env.period t1))

  timer_set_up-Holds :
      (now at time : ℕ) (p : Program)
      → HasRoom env (p.task_heap_index + env.frame_size)
      → Holds n p.waiting []
      → 1 < n
      → n < fuel
      → timer_await_ready (env.period t0) ≡ false
      → timer_await_ready (env.period t1) ≡ false
      → expiry first <ℤ expiry second
      → (p' : Program) × (timer_set_up env fuel now at time t0_now t1_now t0 t1 p ≡ some p')
        × Holds n p'.waiting (first ∷ second ∷ [])
        × (p'.log ≡ p.log)
  unfolding timer_set_up
  timer_set_up-Holds now at time p space holds room enough waits0 waits1 lt =
      let (p₁, run₁, holds₁, log₁, index₁) =
        start_task-Holds env fuel n time t0_now t0 (set_timer env now at p) []
          (omega (arith, space.0), space.1) holds (omega arith) enough tt waits0 in
      let (p₂, run₂, holds₂, log₂, _) =
        start_task-Holds env fuel n time t1_now t1 p₁ (first ∷ [])
          (subst (λ index. HasRoom env index) (sym index₁) space) holds₁ room enough (tt, tt)
          waits1 in
      let behind : ltb_ℤ (expiry second) (expiry first) ≡ false = le→not-ltb _ _ (omega arith) in
      (
        record p₂ { mti_enabled = true; mie_enabled = true },
        rw (run₁, run₂) refl,
        rw behind at holds₂,
        log₂ ∙ log₁,
      )

  -- With a valid empty list of n nodes, n above 1, more than n rounds of fuel, periods other than 0
  -- by which `t0` expires before `t1`, a first round whose times are not past the expiry of `t0`,
  -- and room for two frames in a heap that is smaller than the range of `size_t`: the set-up of
  -- `example_timer` and the round end, and the round sets the comparison register to its time and
  -- the delay of `t1`, which leads beyond the expiry of `t0`, and logs that delay.
  pub timer_set_up-oversleeps :
      (now at time : ℕ) (p : Program) (tm : Times) (history : History)
      → HasRoom env (p.task_heap_index + env.frame_size)
      → Holds n p.waiting []
      → 1 < n
      → n < fuel
      → timer_await_ready (env.period t0) ≡ false
      → timer_await_ready (env.period t1) ≡ false
      → expiry first <ℤ expiry second
      → tm.now ≤ℤ expiry first
      → tm.delay_now ≤ℤ expiry first
      → Refines p.log history
      → (t : UpdateTrace) × ((p₁ : Program) × ((p₂ : Program) × (timer_set_up env fuel now at time
                t0_now t1_now t0 t1 p
              ≡ some p₁)
            × (timer_round env tm fuel p₁ ≡ some p₂)
            × Asleep env tm p₁ second.wake_condition p₂
            × Refines p₂.log (record_calls (trace_calls tm t second.wake_condition) history)
            × (expiry first <ℤ tm.delay_now +ℤ delay tm.delay_now second.wake_condition)))
  timer_set_up-oversleeps now at time p tm history space holds room enough waits0 waits1 lt early
        reads refines =
      let (p₁, run, holds₁, log₁) =
        timer_set_up-Holds now at time p space holds room enough waits0 waits1 lt in
      let (t, (_, (p₂, _, round, _, asleep, logged))) =
        rounds-Asleep env tm fuel n p₁ first (second ∷ []) history holds₁ enough
          ((omega arith, tt), (tt, tt)) early
          (subst (λ log. Refines log history) (sym log₁) refines) in
      (
        t,
        (
          p₁,
          (
            p₂,
            run,
            round,
            asleep,
            logged,
            delay-past_first tm.delay_now first (second ∷ []) reads lt,
          ),
        ),
      )
