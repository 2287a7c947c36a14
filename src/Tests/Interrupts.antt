-- ===== src/Tests/Interrupts.antt =====
-- The theorems about src/example_irq.cpp, on the program as it sets itself up.
use baremetal_cxx_coro.Common.{ℕ, ◌≡◌, refl, true, false, some, List, [], arith, ◌==◌}
use baremetal_cxx_coro.StaticList.{StaticList}
use baremetal_cxx_coro.StaticList.Validity.{Holds}
use baremetal_cxx_coro.StaticList.Contents.{construct-Holds, empty-nil}
use baremetal_cxx_coro.Timer.{TimeCmp, mtimecmp}
use baremetal_cxx_coro.Examples.Irq.{
  Build, Context, isr_context, isr_mti_context, handler_of, main_thread, Place, Program, asleep,
  leave, set_timer, sleep, wake, interrupt, Reach, start, later, capacity, handler, main_round,
  before_wfi, after_wfi,
}
use baremetal_cxx_coro.Examples.Irq.Sound.{IsSound, arrived, sent_home}
use baremetal_cxx_coro.Examples.Irq.Invariant.{
  IsServed, flags-IsSound, before_wfi-IsSound, handler-IsSound, main_round-IsSound,
}
use baremetal_cxx_coro.Examples.Irq.Cycle.{HasCycled, HasAnswered, handler-main_round}
use baremetal_cxx_coro.Examples.Irq.States.{set_up-IsSound, Reach-IsSound}
use baremetal_cxx_coro.Tests.Data.{raw}

abbrev lists : Place → StaticList Context
lists (handler_of c) = (construct-Holds (raw isr_context) 0).0
lists main_thread = (construct-Holds (raw isr_context) 2).0

lists-Holds : (x : Place) → Holds (capacity x) (lists x) []
lists-Holds (handler_of c) = (construct-Holds (raw isr_context) 0).2
lists-Holds main_thread = (construct-Holds (raw isr_context) 2).2

abbrev at_reset : TimeCmp
at_reset = record { mtimecmpl = 0; mtimecmph = 0; held = [] }

-- Frames of 96 bytes.
abbrev build : Build
build = record { word_bits = 32; host_emulation = false; frame_size = 96 }

-- The program at its busy loop.
abbrev ready : Program
ready =
    (set_up-IsSound build (32 == 64) 5 6 0 at_reset lists (omega arith, omega arith) lists-Holds).0

ready-IsSound : IsSound ready []
ready-IsSound =
    (set_up-IsSound build (32 == 64) 5 6 0 at_reset lists (omega arith, omega arith) lists-Holds).2

-- The cause of the timer's interrupt, with registers of 32 bits.
abbrev timer_interrupt : ℕ
timer_interrupt = 0x80000007

handler-IsSound_example :
    (p' : Program) × ((q' : List Context) × (handler 4 32 9 timer_interrupt ready ≡ some p')
      × IsSound p' q'
      × (p'.frames isr_context ≡ arrived (ready.frames isr_context))
      × IsServed 32 9 timer_interrupt ready p')
handler-IsSound_example = handler-IsSound 2 32 9 timer_interrupt ready [] ready-IsSound

main_round-IsSound_example :
    (p' : Program) × (main_round false 32768 4 70 ready ≡ some p')
    × IsSound p' []
    × (p'.frames isr_mti_context ≡ sent_home (ready.frames isr_mti_context))
    × (p'.mie_enabled ≡ false)
    × (p'.mti_enabled ≡ true)
    × (mtimecmp p'.time_cmp ≡ 73)
main_round-IsSound_example =
    main_round-IsSound false 32768 4 70 ready [] isr_mti_context ready-IsSound (omega arith)

handler-main_round_example :
    (p' : Program) × ((p'' : Program) × (handler 4 32 9 timer_interrupt ready ≡ some p')
      × (main_round false 32768 4 70 p' ≡ some p'')
      × IsSound p'' []
      × HasCycled isr_context ready p''
      × HasAnswered 32 timer_interrupt ready p'')
handler-main_round_example = handler-main_round 2 32 32768 9 70 timer_interrupt ready ready-IsSound

-- The main loop sleeps and wakes, and the timer interrupts it behind `main_thread.resume()`; then it
-- sleeps while the coroutine waits.
abbrev woken : Program
woken = after_wfi (before_wfi (32 == 64) 32768 7 ready)

woken-IsSound : IsSound woken []
woken-IsSound =
    flags-IsSound (before_wfi false 32768 7 ready) [] true true ready.timestamp_irq
      (before_wfi false 32768 7 ready).time_cmp
      (before_wfi-IsSound false 32768 7 ready [] ready-IsSound)

abbrev interrupted : Program
interrupted = (handler-IsSound 2 32 9 timer_interrupt woken [] woken-IsSound).0

waiting-Reach : Reach 32 32768 ready (asleep (before_wfi (32 == 64) 32768 10 interrupted))
waiting-Reach =
    let nothing = empty-nil 3 (ready.lists main_thread) ready-IsSound.main in
    let slept = later (later (later start (leave nothing)) (set_timer 7)) sleep in
    let returned = later (later slept wake) (leave nothing) in
    let taken = later returned (
      interrupt {p = woken} 9 timer_interrupt refl
        (handler-IsSound 2 32 9 timer_interrupt woken [] woken-IsSound).1.1) in
    later (later taken (set_timer 10)) sleep

Reach-IsSound_example :
    ((q : List Context) × IsSound (before_wfi (32 == 64) 32768 10 interrupted) q)
    × ((p' : Program) × (handler 4 32 20 timer_interrupt
            (before_wfi (32 == 64) 32768 10 interrupted)
          ≡ some p'))
    × ((p' : Program) × (main_round
            (32 == 64)
            32768
            4
            21
            (before_wfi (32 == 64) 32768 10 interrupted)
          ≡ some p'))
Reach-IsSound_example =
    Reach-IsSound build 32 32768 5 6 0 at_reset lists ready
      (asleep (before_wfi (32 == 64) 32768 10 interrupted)) 20 21 timer_interrupt
      (omega arith, omega arith) lists-Holds
      (set_up-IsSound build (32 == 64) 5 6 0 at_reset lists (omega arith, omega arith)
        lists-Holds).1
      waiting-Reach
