-- ===== src/Examples/Delayed/Rounds.antt =====
-- A round of the event loops of src/example_simple.cpp and src/example_timer.cpp.
use baremetal_cxx_coro.Common.{
  ℕ, length, ◌+◌, ◌%◌, ◌^◌, ◌<◌, ◌≡◌, refl, ◌∙◌, true, false, none, some, List, [], ◌∷◌, arith,
}
use baremetal_cxx_coro.Common.Int.{◌≤ℤ◌}
use baremetal_cxx_coro.StaticList.Validity.{Holds}
use baremetal_cxx_coro.Scheduler.{Entry, Handle, UpdateTrace, Resumed}
use baremetal_cxx_coro.Scheduler.Resume.{resume-idle, priority_after}
use baremetal_cxx_coro.Scheduler.Delay.{
  ScheduleByDelay, ready_to_wake, schedule_now, delay, expiry, IsSorted, ◌<ℤ◌,
}
use baremetal_cxx_coro.Scheduler.Wake.{last_condition, resume-earliest, resume-latest}
use baremetal_cxx_coro.Timer.{mtimecmp, write_time_cmp, to_int, from_int}
use baremetal_cxx_coro.Timer.Compare.{write_time_cmp-IsHarmless}
use baremetal_cxx_coro.StaticList.Contents.{length-le}
use baremetal_cxx_coro.Awaitable.{timer_await_ready}
use baremetal_cxx_coro.Trace.{Call, run_calls}
use baremetal_cxx_coro.Trace.History.{History, record_calls, Refines, run_calls-Refines}
use baremetal_cxx_coro.Examples.Delayed.Tasks.{BodyOf, after_body, next_queue, resume_task-either}
use baremetal_cxx_coro.Examples.Delayed.{
  set_task, Waiting, Task, Program, Setting, Times, run_handle, resume_tasks, simple_round,
  timer_round, trace_update,
}

-- What a round of `p` leaves that runs no coroutine and waits for a condition.
abbrev pub Asleep : Setting → Times → Program → ScheduleByDelay → Program → Type 0
Asleep env tm p w p' =
    (p'.tasks ≡ p.tasks)
    × (p'.waiting ≡ p.waiting)
    × (p'.mti_enabled ≡ true)
    × (mtimecmp p'.time_cmp ≡ (tm.set_at + from_int (env.to_ticks (delay tm.delay_now w))) % 2 ^ 64)

-- The uses of the trace in such a round of `example_timer`.
abbrev pub trace_calls : Times → UpdateTrace → ScheduleByDelay → List Call
trace_calls tm t w =
    Call.timestamp (from_int (to_int tm.ticks))
    ∷ Call.scheduler_update_i t.update_i
    ∷ Call.scheduler_update_r t.update_r
    ∷ Call.coro_pending true
    ∷ Call.next_wake_delay (from_int (delay tm.trace_now w))
    ∷ []

module _ (env : Setting) (tm : Times) (fuel n : ℕ) (p : Program) where
  -- The time stamp of `example_simple` is no matter to `resume`.
  resume_tasks-stamped :
      (v : ℕ) → resume_tasks env tm fuel (record p { timestamp = v }) ≡ resume_tasks env tm fuel p
  unfolding resume_tasks
  resume_tasks-stamped v = refl

  no_condition :
      (t : UpdateTrace) (tasks : Handle → Task) (l : Waiting)
      → resume_tasks env tm fuel p
        ≡ some (record { pending = true; next_wake = none; trace = t }, tasks, l)
      → (simple_round env tm fuel p ≡ none) × (timer_round env tm fuel p ≡ none)
  unfolding simple_round timer_round
  no_condition t tasks l run =
      (rw (resume_tasks-stamped (from_int (to_int tm.ticks)), run) refl, rw run refl)

  -- On a valid sorted list of n nodes, with more than n rounds of fuel, whose first entry has
  -- expired and is a coroutine that waits with a period other than 0, with the body of `periodic`,
  -- resumed as often as its round says, or with that of `resuming_on_delay`: `resume` runs it to
  -- its next suspension, or to its end, and reports true and no next condition, and the round of
  -- either event loop faults.
  pub rounds-fault :
      (x : Entry ScheduleByDelay) (xs : List (Entry ScheduleByDelay))
      → Holds n p.waiting (x ∷ xs)
      → n < fuel
      → IsSorted (x ∷ xs)
      → expiry x <ℤ tm.now
      → timer_await_ready (env.period x.handle) ≡ false
      → (b : BodyOf env.body (p.tasks x.handle))
      → (t : UpdateTrace) × ((l : Waiting) × (resume_tasks env tm fuel p
            ≡ some (
              record { pending = true; next_wake = none; trace = t },
              set_task x.handle (after_body env.body tm.resumed_ticks (p.tasks x.handle) b) p.tasks,
              l,
            ))
          × Holds n l (
              next_queue env.to_clock tm.resumed_at
                (env.period x.handle)
                x.handle
                (p.tasks x.handle)
                xs)
          × (simple_round env tm fuel p ≡ none)
          × (timer_round env tm fuel p ≡ none))
  unfolding resume_tasks
  rounds-fault x xs holds enough sorted lt waits b =
      let (t, (l₁, holds₁, _, run)) =
        resume-earliest (run_handle env tm fuel) fuel n tm.now p.tasks p.waiting x xs holds enough
          sorted lt in
      let room : length xs < n = omega (arith, length-le n p.waiting (x ∷ xs) holds) in
      let (l', turn, holds', _) =
        resume_task-either env.to_clock tm.resumed_at (env.period x.handle) x.handle env.body fuel n
          tm.resumed_ticks (p.tasks x.handle) l₁ xs holds₁ room enough sorted.1 waits b in
      let result : resume_tasks env tm fuel p
          ≡ some (
            record { pending = true; next_wake = none; trace = t },
            set_task x.handle (after_body env.body tm.resumed_ticks (p.tasks x.handle) b) p.tasks,
            l',
          ) =
        run ∙ rw turn refl in
      let (simple, timer) = no_condition t _ l' result in (t, (l', result, holds', simple, timer))

  -- On an empty waiting list the round of `example_simple` only takes its time stamp and writes to
  -- the trace, and that of `example_timer` faults.
  pub rounds-empty :
      Holds n p.waiting []
      → n < fuel
      → (r : Resumed ScheduleByDelay) × (simple_round env tm fuel p
          ≡ some (record p { timestamp = from_int (to_int tm.ticks); log = trace_update r p.log }))
        × (timer_round env tm fuel p ≡ none)
  unfolding simple_round timer_round resume_tasks priority_after
  rounds-empty holds enough =
      let (t, run) =
        resume-idle ready_to_wake (run_handle env tm fuel) fuel n (schedule_now tm.now) p.tasks
          p.waiting [] holds enough tt in
      (record { pending = false; next_wake = none; trace = t }, rw run refl, rw run refl)

  -- A round of `example_simple` before the first entry has expired changes no task and not the
  -- list, and waits for the condition of the last entry.
  pub simple_round-early :
      (x : Entry ScheduleByDelay) (xs : List (Entry ScheduleByDelay))
      → Holds n p.waiting (x ∷ xs)
      → n < fuel
      → IsSorted (x ∷ xs)
      → tm.now ≤ℤ expiry x
      → (p' : Program) × (simple_round env tm fuel p ≡ some p')
        × (p'.tasks ≡ p.tasks)
        × (p'.waiting ≡ p.waiting)
        × ((t : UpdateTrace) × (resume_tasks env tm fuel p
              ≡ some (
                record { pending = true; next_wake = some (last_condition x xs); trace = t },
                p.tasks,
                p.waiting,
              )))
  unfolding simple_round resume_tasks
  simple_round-early x xs holds enough sorted le =
      let (t, run) =
        resume-latest (run_handle env tm fuel) fuel n tm.now p.tasks p.waiting x xs holds enough
          sorted le in
      (
        record p {
          timestamp = from_int (to_int tm.ticks);
          log = trace_update (record { pending = true; next_wake = none; trace = t }) p.log;
          time_cmp =
              write_time_cmp env.wide
                ((tm.set_at + from_int (env.to_ticks (delay tm.delay_now (last_condition x xs))))
                  % 2 ^ 64)
                p.time_cmp;
          mti_enabled = true;
          mie_enabled = true;
        },
        rw run refl,
        refl,
        refl,
        (t, run),
      )

  -- On a valid sorted list of n nodes, with more than n rounds of fuel, whose first entry has not
  -- expired: a round of either event loop ends, changes no task and not the list, and sets the
  -- comparison register to its time and the delay of the last entry's condition; that of
  -- `example_timer` adds an entry with its writes to the history that the trace refines.
  pub rounds-Asleep :
      (x : Entry ScheduleByDelay) (xs : List (Entry ScheduleByDelay)) (history : History)
      → Holds n p.waiting (x ∷ xs)
      → n < fuel
      → IsSorted (x ∷ xs)
      → tm.now ≤ℤ expiry x
      → Refines p.log history
      → (t : UpdateTrace) × ((p₁ : Program) × ((p₂ : Program) × (simple_round env tm fuel p
              ≡ some p₁)
            × (timer_round env tm fuel p ≡ some p₂)
            × Asleep env tm p (last_condition x xs) p₁
            × Asleep env tm p (last_condition x xs) p₂
            × Refines p₂.log (record_calls (trace_calls tm t (last_condition x xs)) history)))
  unfolding simple_round timer_round resume_tasks
  rounds-Asleep x xs history holds enough sorted le refines =
      let w = last_condition x xs in
      let (t, run) =
        resume-latest (run_handle env tm fuel) fuel n tm.now p.tasks p.waiting x xs holds enough
          sorted le in
      let new = (tm.set_at + from_int (env.to_ticks (delay tm.delay_now w))) % 2 ^ 64 in
      let set = (write_time_cmp-IsHarmless env.wide new p.time_cmp (omega arith)).0 in
      (
        t,
        (
          record p {
            time_cmp = write_time_cmp env.wide new p.time_cmp;
            mti_enabled = true;
            mie_enabled = true;
            timestamp = from_int (to_int tm.ticks);
            log = trace_update (record { pending = true; next_wake = none; trace = t }) p.log;
          },
          (
            record p {
              time_cmp = write_time_cmp env.wide new p.time_cmp;
              mti_enabled = true;
              mie_enabled = true;
              log = run_calls (trace_calls tm t w) p.log;
            },
            rw run refl,
            rw run refl,
            (refl, refl, refl, set),
            (refl, refl, refl, set),
            run_calls-Refines (trace_calls tm t w) p.log history refines,
          ),
        ),
      )
