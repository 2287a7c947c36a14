-- ===== src/Lib.antt =====
-- A library of coroutines for microcontrollers (baremetal-cxx-coro) and the RISC-V drivers below it.
--
-- Coroutines suspend by `co_await`, which puts their handle into a scheduler; the program's event
-- loop asks the schedulers to resume what is due, and sleeps until the timer interrupt otherwise.
-- There is no heap: waiting coroutines stand in a list in a fixed array, and their frames in
-- another.
--
-- The parts, and the files that model them:
--   StaticList (include/coro/static_list.hpp): the doubly linked list in an array. A list is the
--     buffer as a function from addresses to nodes, with the pointers `free`, `first` and `last`;
--     the node of index i has the address i + 1, and 0 is `nullptr`. Each member function is a
--     command from a list to a list, which faults where the code dereferences a pointer to no
--     node. Validity states the invariant, by the sequences of nodes in use and free ones;
--     Contents what the operations do to the values alone, and Commands any sequence of them, next to
--     the same on a bounded list of values.
--   Scheduler (include/coro/scheduler.hpp): `scheduler_ordered` over this list, for any wake
--     condition, with `schedule_by_delay` in Scheduler/Delay and Scheduler/Wake and
--     `schedule_by_priority` in Scheduler/Priority; and `scheduler_unordered`. A coroutine is a
--     parameter: what its run to the next suspension does to the program's state and to the list.
--     Coroutines of the ordered schedulers may insert into the list as they like; those of the
--     unordered one may await it again. Scheduler/Requests is a program's use of an ordered
--     scheduler: any sequence of calls, with coroutines that may await it again, and the ledger of
--     what was queued, has run and was dropped.
--   Awaitable (include/coro/awaitable_timer.hpp, include/coro/awaitable_priority.hpp,
--     include/coro/awaitable_unordered.hpp): `co_await` on a delay, a priority or the unordered
--     scheduler, by `await_ready` and `await_suspend`.
--   NopTask (include/coro/nop_task.hpp): the allocator of the frames, with the wrap-around of
--     `size_t`, and the flag `done` that a task shares with its promise on a host. The set-ups of
--     the examples call it, and a coroutine without a frame does not start.
--   Timer (include/riscv/timer.hpp): reading `mtime` and writing `mtimecmp` with registers of 32
--     or 64 bits. The clock may advance between any two accesses to the bus. Timer/Clock is the
--     clock of the delay scheduler (include/riscv/scheduler-timer-mtimer.hpp) over it.
--   Csr (include/riscv/riscv-csr.hpp): the classes for registers and their fields, over eleven of
--     the registers. The instructions are a parameter; Csr/Register states what the manual says of
--     them. Csr/Interrupts has the causes of include/riscv/riscv-interrupts.hpp next to the fields of
--     `mie` and `mip`.
--   Handler (include/riscv/riscv-irq.hpp): the handler that is installed in `mtvec` and
--     `mscratch`, and its entry, over the registers of Csr.
--   Trace (include/debug/trace.hpp): the ring of trace entries. Trace/History has
--     the history of entries that the ring is compared with.
--   Startup (src/startup.cpp): the regions of memory that are cleared and loaded before `main`.
--     Startup/Main is `main` (src/main.cpp) and the end of `_start`; the examples enter as what
--     they do to the memory.
--   Examples/Irq (src/example_irq.cpp): the coroutines that go to and fro between an interrupt
--     handler and the main loop, over `scheduler_unordered` and the timer. Its step relation lets
--     the handler in between any two turns of the loop of `resume`, and behind it up to
--     `mstatus.mie.clr()`; an interrupt within `pop_front` is in StaticList/Interrupted and
--     StaticList/Reused.
--   Examples/Delayed (src/example_simple.cpp, src/example_timer.cpp): the coroutine that awaits a
--     delay ten times, and a round of the event loops, over the delay scheduler, the timer and the
--     trace. The times that the code reads in a round are parameters of the round.
--   Platform (src/example_simple.cpp): its handler and event loop over an interface of the
--     registers that it uses. Platform/Device fills it with the classes of Csr, Platform/Host with
--     the emulation of the hardware (include/host/riscv-csr.hpp, include/host/riscv-cpu.hpp,
--     include/host/riscv-irq.hpp); Platform/HostTimer is include/host/timer.hpp. How the hart takes
--     an interrupt and returns from it is a parameter; interrupts come between the rounds of the
--     loop, and may be pending behind each instruction of the wait, from `mstatus.mie.clr()` on. One
--     within `resume`, whose handler uses only the time stamp and `mie.mti`, is not modelled.
--   Common holds what these share, and Tests runs at concrete inputs.
--
-- Loops run on fuel. The searches of `scheduler_ordered` have enough with one more round than
-- the list has nodes. Reading the time has enough with two rounds, as long as the time advances
-- by less than 2 ^ 32 ticks during six accesses. `scheduler_unordered::resume` need not end: how
-- much fuel is enough depends on how often coroutines await it again; the handler of example_irq
-- needs two rounds of it, and the main loop four. Times and priorities are integers without a
-- bound, except for the conversions of timer.hpp between `int` and 64 bits.
--
-- Not modelled: the variant of the list over `std::pmr::list`, which is the standard library's; the
-- assembly of the reset entry; the constructors of the awaitables, which only keep their arguments;
-- and the registers of riscv-csr.hpp beyond the eleven, whose text is generated alike.
pub mod Common
pub mod StaticList
pub mod Scheduler
pub mod Awaitable
pub mod NopTask
pub mod Timer
pub mod Csr
pub mod Handler
pub mod Trace
pub mod Startup
pub mod Examples
pub mod Platform
pub mod Tests
