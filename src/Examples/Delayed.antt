-- ===== src/Examples/Delayed.antt =====
-- What src/example_simple.cpp and src/example_timer.cpp share: a coroutine that awaits a delay ten
-- times, the program's state, its interrupt handler and the block that waits for the next wake-up.
pub mod Rounds
pub mod Tasks
pub mod Start
use baremetal_cxx_coro.Common.{
  ℕ, zero, suc, ◌+◌, ◌-◌, ◌%◌, ◌^◌, Bool, true, false, Option, none, some, ltb, ◌==◌, if◌then◌else◌,
  bit_and,
}
use baremetal_cxx_coro.Common.Int.{ℤ, pos}
use baremetal_cxx_coro.StaticList.{StaticList}
use baremetal_cxx_coro.Scheduler.{Entry, Handle, Resumed, resume}
use baremetal_cxx_coro.Scheduler.Delay.{ScheduleByDelay, ready_to_wake, schedule_now, delay}
use baremetal_cxx_coro.Awaitable.{co_await_timer}
use baremetal_cxx_coro.Timer.{TimeCmp, write_time_cmp, to_int, from_int}
use baremetal_cxx_coro.Trace.{TraceLog, Call, run_call}

abbrev pub Waiting : Type 0
Waiting = StaticList (Entry ScheduleByDelay)

-- A frame of the coroutine, with the variables that it writes. `stamps k` is what
-- `timestamp_resume[k]` points to.
pub record Task : Type 0 where
  pub i : ℕ
  pub resume_count : ℕ
  pub stamps : ℕ → ℕ
  pub finished : Bool

-- The code between the `co_await` and the end of the loop's body, by the time that it reads: in
-- `periodic`, with a fault for an index out of range, and in `resuming_on_delay`.
abbrev pub after_periodic : (time : ℕ) → Task → Option Task
after_periodic time f =
    if ltb f.resume_count 10
    then some (record f {
      stamps = λ k. if k == f.resume_count then from_int (to_int time) else f.stamps k;
      resume_count = f.i + 1;
    })
    else none

abbrev pub after_delay : (time : ℕ) → Task → Option Task
after_delay time f = some (record f { resume_count = f.i + 1 })

module _ (duration_cast : ℤ → ℤ) (body : ℕ → Task → Option Task) where
  -- The loop, with `left` rounds to go, until the coroutine suspends or ends.
  pub for_loop :
      (left fuel time : ℕ) (now period : ℤ) → Handle → Task → Waiting → Option (Task × Waiting)
  for_loop zero fuel time now period h f l = some (record f { finished = true }, l)
  for_loop (suc left) fuel time now period h f l =
      elim (co_await_timer duration_cast fuel now period h l) [
        | none ↦ none
        | some (false, l') ↦ some (f, l')
        | some (true, l') ↦ elim (body time f) [
          | none ↦ none
          | some f' ↦ for_loop left fuel time now period h (record f' { i = f'.i + 1 }) l'
        ]
      ]

  -- The first part of the coroutine, and each later one.
  abbrev pub fresh : (resume_count : ℕ) → (stamps : ℕ → ℕ) → Task
  fresh resume_count stamps = record {
    i = 0;
    resume_count = resume_count;
    stamps = stamps;
    finished = false;
  }

  abbrev pub loop_on :
      (fuel time : ℕ) (now period : ℤ) → Handle → Option Task → Waiting → Option (Task × Waiting)
  loop_on fuel time now period h none l = none
  loop_on fuel time now period h (some f) l =
      for_loop (10 - (f.i + 1)) fuel time now period h (record f { i = f.i + 1 }) l

  pub resume_task :
      (fuel time : ℕ) (now period : ℤ) → Handle → Task → Waiting → Option (Task × Waiting)
  resume_task fuel time now period h f l = loop_on fuel time now period h (body time f) l

-- The times that a round of the event loop reads: for `now`, for the coroutine, for `delay()` and
-- for the comparison register.
pub record Times : Type 0 where
  pub now : ℤ
  pub ticks : ℕ
  pub resumed_at : ℤ
  pub resumed_ticks : ℕ
  pub trace_now : ℤ
  pub delay_now : ℤ
  pub set_at : ℕ

pub record Program : Type 0 where
  pub tasks : Handle → Task
  pub waiting : Waiting
  pub log : TraceLog
  pub time_cmp : TimeCmp
  pub mti_enabled : Bool
  pub mie_enabled : Bool
  pub timestamp : ℕ
  pub task_heap_index : ℕ

-- What a round uses of the library and of the coroutines: the conversions to the clock's and to the
-- timer's ticks, the bodies and the periods; and what is compiled in, with the bits of `std::size_t`
-- and the size of a coroutine's frame.
pub record Setting : Type 0 where
  pub to_clock : ℤ → ℤ
  pub to_ticks : ℤ → ℤ
  pub body : ℕ → Task → Option Task
  pub period : Handle → ℤ
  pub wide : Bool
  pub word_bits : ℕ
  pub host_emulation : Bool
  pub frame_size : ℕ

abbrev pub set_task : Handle → Task → (Handle → Task) → Handle → Task
set_task h f s k = if k == h then f else s k

abbrev pub put_task :
    Handle → (Handle → Task) → Option (Task × Waiting) → Option ((Handle → Task) × Waiting)
put_task h s none = none
put_task h s (some (f, l)) = some (set_task h f s, l)

-- `handle.resume()`
abbrev pub run_handle :
    Setting → Times → ℕ → Handle → (Handle → Task) → Waiting → Option ((Handle → Task) × Waiting)
run_handle env tm fuel h s l =
    put_task h s (
      resume_task env.to_clock env.body fuel tm.resumed_ticks tm.resumed_at (env.period h) h (s h)
        l)

abbrev pub ResumedTasks : Type 0
ResumedTasks = Option (Resumed ScheduleByDelay × (Handle → Task) × Waiting)

-- `scheduler.resume(now)`
unfoldable pub resume_tasks : Setting → Times → ℕ → Program → ResumedTasks
resume_tasks env tm fuel p =
    resume ready_to_wake (run_handle env tm fuel) fuel (schedule_now tm.now) p.tasks p.waiting

-- The block under `if (pending)`: the wait ends with interrupts enabled again. The dereference of an
-- optional without a value is a fault.
abbrev pub wait_for : Setting → Times → Option ScheduleByDelay → Program → Option Program
wait_for env tm none p = none
wait_for env tm (some w) p = some (record p {
  time_cmp =
      write_time_cmp env.wide
        ((tm.set_at + from_int (env.to_ticks (delay tm.delay_now w))) % 2 ^ 64) p.time_cmp;
  mti_enabled = true;
  mie_enabled = true;
})

-- The interrupt handler.
abbrev pub handler : (xlen now mcause : ℕ) → Program → Program
handler xlen now mcause p =
    if bit_and mcause (2 ^ (xlen - 1)) == 0
    then p
    else if bit_and mcause 0xFF == 7
    then record p { timestamp = from_int (to_int now); mti_enabled = false }
    else p

-- The writes of `scheduler.resume` to the trace, of which the last of each value counts.
abbrev pub trace_update : Resumed ScheduleByDelay → TraceLog → TraceLog
trace_update r log =
    run_call (Call.scheduler_update_r r.trace.update_r)
      (run_call (Call.scheduler_update_i r.trace.update_i) log)

-- The body of the event loop of `example_simple`.
abbrev pub simple_wait : Setting → Times → Program → Resumed ScheduleByDelay → Option Program
simple_wait env tm p r = if r.pending then wait_for env tm r.next_wake p else some p

abbrev pub simple_on : Setting → Times → Program → ResumedTasks → Option Program
simple_on env tm p none = none
simple_on env tm p (some (r, tasks, l)) =
    simple_wait env tm (record p { tasks = tasks; waiting = l; log = trace_update r p.log }) r

unfoldable pub simple_round : Setting → Times → ℕ → Program → Option Program
simple_round env tm fuel p =
    let p' = record p { timestamp = from_int (to_int tm.ticks) } in
    simple_on env tm p' (resume_tasks env tm fuel p')

-- The body of the event loop of `example_timer`, with the writes of `resume` to the trace.
abbrev trace_resume : Times → Program → Resumed ScheduleByDelay → TraceLog
trace_resume tm p r =
    run_call (Call.coro_pending r.pending)
      (trace_update r (run_call (Call.timestamp (from_int (to_int tm.ticks))) p.log))

abbrev timer_wait :
    Setting → Times → Program → (pending : Bool) → Option ScheduleByDelay → Option Program
timer_wait env tm p pending none = none
timer_wait env tm p pending (some w) =
    let p' = record p {
      log = run_call (Call.next_wake_delay (from_int (delay tm.trace_now w))) p.log;
    } in
    if pending then wait_for env tm (some w) p' else some p'

abbrev timer_on : Setting → Times → Program → ResumedTasks → Option Program
timer_on env tm p none = none
timer_on env tm p (some (r, tasks, l)) =
    timer_wait env tm (record p { tasks = tasks; waiting = l; log = trace_resume tm p r }) r.pending
      r.next_wake

pub timer_round : Setting → Times → ℕ → Program → Option Program
timer_round env tm fuel p = timer_on env tm p (resume_tasks env tm fuel p)
