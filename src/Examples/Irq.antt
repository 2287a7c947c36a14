-- ===== src/Examples/Irq.antt =====
-- src/example_irq.cpp: three coroutines that go to and fro between an interrupt handler and the
-- main loop. The coroutines t3, t4 and t5 are named by the scheduler of the handler that each
-- awaits; that name is also the coroutine's handle.
pub mod Sound
pub mod Turns
pub mod Run
pub mod Invariant
pub mod Cycle
pub mod States
use baremetal_cxx_coro.Common.{
  ℕ, zero, suc, ◌+◌, ◌-◌, ◌*◌, ◌/◌, ◌%◌, ◌^◌, ◌≡◌, Bool, true, false, Option, none, some, ◌==◌,
  if◌then◌else◌, bit_and,
}
use baremetal_cxx_coro.StaticList.{StaticList, emplace_back, empty}
use baremetal_cxx_coro.Scheduler.{take_front}
use baremetal_cxx_coro.NopTask.{operator_new, task_heap_size}
use baremetal_cxx_coro.Timer.{TimeCmp, write_time_cmp, to_int, from_int}

pub data Context : Type 0 where
  isr_context isr_mti_context isr_mei_context : Context

abbrev pub same : Context → Context → Bool
same isr_context isr_context = true
same isr_mti_context isr_mti_context = true
same isr_mei_context isr_mei_context = true
same _ _ = false

-- The four objects `scheduler_unordered`: that of a coroutine in the handler, and `main_thread`.
pub data Place : Type 0 where
  handler_of : Context → Place
  main_thread : Place

abbrev pub same_place : Place → Place → Bool
same_place (handler_of c) (handler_of d) = same c d
same_place main_thread main_thread = true
same_place _ _ = false

-- A frame of `resuming_on_isr_and_main`, suspended at its first or at its second `co_await`, with
-- the two counts that it writes.
pub record Frame : Type 0 where
  pub at_main : Bool
  pub i : ℕ
  pub isr_resume_count : ℕ
  pub main_resume_count : ℕ

pub record Program : Type 0 where
  pub lists : Place → StaticList Context
  pub frames : Context → Frame
  pub mti_enabled : Bool
  pub mie_enabled : Bool
  pub timestamp_irq : ℕ
  pub time_cmp : TimeCmp
  pub task_heap_index : ℕ

-- `mtimer.set_time_cmp` for an offset in ticks, at the time that it reads.
abbrev pub set_time_cmp_at : Bool → (offset at : ℕ) → Program → Program
set_time_cmp_at wide offset at p = record p {
  time_cmp = write_time_cmp wide ((at + offset) % 2 ^ 64) p.time_cmp;
}

-- The count of `mtimer.get_time` as a `uint64_t`, for the time that it reads.
abbrev pub timestamp : ℕ → ℕ
timestamp now = from_int (to_int now)

abbrev pub put_list : Place → StaticList Context → Program → Program
put_list x l p = record p { lists = λ y. if same_place y x then l else p.lists y }

abbrev pub put_frame : Context → Frame → Program → Program
put_frame c f p = record p { frames = λ d. if same d c then f else p.frames d }

abbrev with_list : Place → Program → Option (Unit {0} × StaticList Context) → Option Program
with_list x p none = none
with_list x p (some (_, l)) = some (put_list x l p)

-- `co_await` on the scheduler at `x`: the coroutine suspends, and is inserted.
pub await_at : Place → Context → Program → Option Program
await_at x c p = with_list x p (emplace_back c (p.lists x))

-- The two halves of the coroutine's loop, each from one suspension to the next.
abbrev pub after_isr : Frame → Frame
after_isr f = record f { at_main = true; isr_resume_count = f.i }

abbrev pub after_main : Frame → Frame
after_main f = record f { at_main = false; main_resume_count = f.i; i = (f.i + 1) % 2 ^ 32 }

pub resume_coroutine : Context → Program → Option Program
resume_coroutine c p =
    if (p.frames c).at_main
    then await_at (handler_of c) c (put_frame c (after_main (p.frames c)) p)
    else await_at main_thread c (put_frame c (after_isr (p.frames c)) p)

abbrev pub then_program : Option Program → (Program → Option Program) → Option Program
then_program none k = none
then_program (some p) k = k p

abbrev pub resume_taken : Place → Program → Option (Context × StaticList Context) → Option Program
resume_taken x p none = none
resume_taken x p (some (c, l)) = resume_coroutine c (put_list x l p)

-- `scheduler_unordered::resume` of the scheduler at `x`, on fuel.
pub resume_at : ℕ → Place → Program → Option Program
resume_at zero x p = none
resume_at (suc fuel) x p =
    let round =
      then_program (resume_taken x p (take_front (p.lists x))) (λ p'. resume_at fuel x p') in
    if empty (p.lists x) then some p else round

-- The cases of the handler's `switch`.
abbrev pub mei : ℕ
mei = 11

abbrev pub mti : ℕ
mti = 7

pub on_interrupt : ℕ → (now cause : ℕ) → Program → Option Program
on_interrupt fuel now cause p =
    if cause == mei
    then resume_at fuel (handler_of isr_mei_context) p
    else if cause == mti
    then resume_at fuel (handler_of isr_mti_context)
        (record p { timestamp_irq = timestamp now; mti_enabled = false })
    else some p

-- The handler, for what `mcause` holds in a register of `xlen` bits.
pub handler : (fuel xlen now mcause : ℕ) → Program → Option Program
handler fuel xlen now mcause p = then_program (resume_at fuel (handler_of isr_context) p) (λ p'.
    if bit_and mcause (2 ^ (xlen - 1)) == 0
    then some p'
    else on_interrupt fuel now (bit_and mcause 0xFF) p')

-- `duration_cast` of 100us to the timer's ticks, by `MTIME_FREQ_HZ`.
abbrev pub next_wakeup : (mtime_freq_hz : ℕ) → ℕ
next_wakeup mtime_freq_hz = 100 * mtime_freq_hz / 1000000

-- The body of the busy loop behind `main_thread.resume()` and `set_time_cmp` and up to `wfi`, and
-- what follows `wfi`.
abbrev pub enable_timer : Program → Program
enable_timer p = record p { mie_enabled = false; mti_enabled = true }

abbrev pub before_wfi : Bool → (mtime_freq_hz at : ℕ) → Program → Program
before_wfi wide mtime_freq_hz at p =
    enable_timer (set_time_cmp_at wide (next_wakeup mtime_freq_hz) at p)

abbrev pub after_wfi : Program → Program
after_wfi p = record p { mie_enabled = true }

-- The body of the busy loop up to `wfi`, where no interrupt is taken during it.
pub main_round : Bool → (mtime_freq_hz fuel at : ℕ) → Program → Option Program
main_round wide mtime_freq_hz fuel at p =
    then_program (resume_at fuel main_thread p) (λ p'. some (before_wfi wide mtime_freq_hz at p'))

-- The start of a coroutine, up to its first suspension.
abbrev pub fresh : Frame
fresh = record { at_main = false; i = 1; isr_resume_count = 0; main_resume_count = 0 }

-- What is compiled in: the bits of `std::size_t`, whether for a host, and the size of a frame of the
-- coroutine.
pub record Build : Type 0 where
  pub word_bits : ℕ
  pub host_emulation : Bool
  pub frame_size : ℕ

-- A coroutine without a frame does not start: its task is that of a failed allocation.
abbrev in_frame : Option ℕ → Context → Program → Option Program
in_frame none c p = some p
in_frame (some frame) c p = await_at (handler_of c) c (put_frame c fresh p)

abbrev pub start_coroutine : Build → Context → Program → Option Program
start_coroutine b c p =
    let a =
      operator_new b.word_bits (task_heap_size b.host_emulation) p.task_heap_index b.frame_size in
    in_frame a.pointer c (record p { task_heap_index = a.index })

-- The capacities `scheduler_unordered<1>` and `scheduler_unordered<3>`.
abbrev pub capacity : Place → ℕ
capacity (handler_of c) = 1
capacity main_thread = 3

-- `example_irq` up to its busy loop, with the constructed schedulers `lists` and the heap of frames
-- in use up to `index`, for the times `now` and `at` that are read from the timer.
pub set_up :
    Build → Bool → (now at index : ℕ) → TimeCmp → (Place → StaticList Context) → Option Program
set_up b wide now at index cmp lists =
    then_program
      (then_program
        (then_program
          (some (
            set_time_cmp_at wide 0 at (record {
              lists = lists;
              frames = λ c. fresh;
              mti_enabled = false;
              mie_enabled = false;
              timestamp_irq = timestamp now;
              time_cmp = cmp;
              task_heap_index = index;
            })))
          (start_coroutine b isr_context))
        (start_coroutine b isr_mti_context))
      (λ p.
        then_program (start_coroutine b isr_mei_context p)
          (λ p'. some (record p' { mti_enabled = true; mie_enabled = true })))

-- Where the busy loop stands: within `main_thread.resume()`, behind it, and behind `set_time_cmp`.
pub data Point : Type 0 where
  resuming returned timed : Point

-- The program in front of `mstatus.mie.clr()`, and at `wfi`.
pub data Stage : Type 0 where
  awake : Point → Program → Stage
  asleep : Program → Stage

-- The handler may be entered between two turns of the loop of `resume` and behind it, while
-- interrupts are enabled. `mcause` and the times are the hardware's.
pub data Step (xlen mtime_freq_hz : ℕ) : Stage → Stage → Type 0 where
  turn :
      {p p' : Program}
      → empty (p.lists main_thread) ≡ false
      → resume_taken main_thread p (take_front (p.lists main_thread)) ≡ some p'
      → Step xlen mtime_freq_hz (awake resuming p) (awake resuming p')
  leave :
      {p : Program}
      → empty (p.lists main_thread) ≡ true
      → Step xlen mtime_freq_hz (awake resuming p) (awake returned p)
  set_timer :
      {p : Program} (at : ℕ)
      → Step xlen mtime_freq_hz
          (awake returned p)
          (awake timed (set_time_cmp_at (xlen == 64) (next_wakeup mtime_freq_hz) at p))
  sleep : {p : Program} → Step xlen mtime_freq_hz (awake timed p) (asleep (enable_timer p))
  wake : {p : Program} → Step xlen mtime_freq_hz (asleep p) (awake resuming (after_wfi p))
  interrupt :
      {point : Point} {p p' : Program} (now mcause : ℕ)
      → p.mie_enabled ≡ true
      → handler 4 xlen now mcause p ≡ some p'
      → Step xlen mtime_freq_hz (awake point p) (awake point p')

pub data Reach (xlen mtime_freq_hz : ℕ) (p : Program) : Stage → Type 0 where
  start : Reach xlen mtime_freq_hz p (awake resuming p)
  later :
      {s t : Stage}
      → Reach xlen mtime_freq_hz p s
      → Step xlen mtime_freq_hz s t
      → Reach xlen mtime_freq_hz p t
