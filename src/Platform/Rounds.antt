-- ===== src/Platform/Rounds.antt =====
-- The event loop of src/example_simple.cpp on registers, with interrupts between its rounds and
-- within its waits, and the same on two flags.
use baremetal_cxx_coro.Common.{
  ℕ, ◌≡◌, refl, ◌∙◌, ap, Bool, true, false, Option, none, some, List, [], ◌∷◌, if◌then◌else◌,
  Bool-cases, inl, inr, All,
}
use baremetal_cxx_coro.Scheduler.{Resumed}
use baremetal_cxx_coro.Scheduler.Delay.{ScheduleByDelay}
use baremetal_cxx_coro.Timer.{to_int, from_int}
use baremetal_cxx_coro.Examples.Delayed.{
  Program, Times, Setting, ResumedTasks, handler, resume_tasks, simple_round, simple_wait,
  simple_on, trace_update, wait_for,
}
use baremetal_cxx_coro.Platform.{Core, IsCore, Traps, IsTraps, Machine, Within, interrupted, sleep}
use baremetal_cxx_coro.Platform.Refines.{Logged, view, view_all, interrupted-handler, sleep-waits}

-- An interrupt that is taken, with its cause and the time that its handler reads, or a round of the
-- loop, with the interrupts that are pending while it waits.
pub data Event : Type 0 where
  interrupt : (cause now : ℕ) → Event
  round : Times → Within → Event

-- The interrupts that are taken between the rounds are some that the hart has.
abbrev pub HasCause : (Has : ℕ → Type 0) → Event → Type 0
HasCause Has (interrupt cause now) = Has cause
HasCause Has (round tm w) = Unit

module _ {S : Type 0} (c : Core S) (t : Traps S) (env : Setting) (fuel : ℕ) where
  -- The body of the event loop on the registers.
  abbrev pub machine_wait :
      Times → Within → Machine S → Resumed ScheduleByDelay → Option (Machine S)
  machine_wait tm w m r = if r.pending then sleep c t env tm w r.next_wake m else some m

  abbrev pub machine_on : Times → Within → Machine S → ResumedTasks → Option (Machine S)
  machine_on tm w m none = none
  machine_on tm w m (some (r, tasks, l)) =
      machine_wait tm w
        (record m {
          program = record m.program {
            tasks = tasks;
            waiting = l;
            log = trace_update r m.program.log;
          };
        })
        r

  unfoldable pub machine_round : Times → Within → Machine S → Option (Machine S)
  machine_round tm w m =
      let m' = record m { program = record m.program { timestamp = from_int (to_int tm.ticks) } } in
      machine_on tm w m' (resume_tasks env tm fuel m'.program)

  unfoldable pub machine_event : Event → Machine S → Option (Machine S)
  machine_event (interrupt cause now) m = some (interrupted c t cause now m)
  machine_event (round tm w) m = machine_round tm w m

  abbrev pub machine_next :
      (Machine S → Option (Machine S)) → Option (Machine S) → Option (Machine S)
  machine_next k none = none
  machine_next k (some m) = k m

  -- The events in turn, up to a fault.
  unfoldable pub machine_run : List Event → Machine S → Option (Machine S)
  machine_run [] m = some m
  machine_run (e ∷ es) m = machine_next (λ m'. machine_run es m') (machine_event e m)

-- The same on the flags. A round that finds coroutines pending waits once, with the interrupt of
-- the timer enabled and all interrupts disabled; what is pending then is no matter.
abbrev pub waits_after : ResumedTasks → List (Bool × Bool) → List (Bool × Bool)
waits_after none ws = ws
waits_after (some (r, tasks, l)) ws = if r.pending then (true, false) ∷ ws else ws

abbrev pub logged : List (Bool × Bool) → Option Program → Option Logged
logged ws none = none
logged ws (some p) = some (record { program = p; waits = ws })

module _ (xlen : ℕ) (env : Setting) (fuel : ℕ) where
  abbrev pub program_event : Event → Logged → Option Logged
  program_event (interrupt cause now) p =
      some (record p { program = handler xlen now cause p.program })
  program_event (round tm w) p =
      logged (waits_after (resume_tasks env tm fuel p.program) p.waits)
        (simple_round env tm fuel p.program)

  abbrev pub program_next : (Logged → Option Logged) → Option Logged → Option Logged
  program_next k none = none
  program_next k (some p) = k p

  unfoldable pub program_run : List Event → Logged → Option Logged
  program_run [] p = some p
  program_run (e ∷ es) p = program_next (λ p'. program_run es p') (program_event e p)

module _ {S : Type 0} (mti mie : S → Bool) (xlen : ℕ) (c : Core S) (is : IsCore xlen c mti mie)
    (Has : ℕ → Type 0) (t : Traps S) (traps : IsTraps c mti mie Has t) (env : Setting)
    (fuel : ℕ) where
  sleep-wait_for :
      (tm : Times) (w : Within) (m : Machine S) (next_wake : Option ScheduleByDelay)
      → view_all mti mie (sleep c t env tm w next_wake m)
        ≡ logged
            ((true, false) ∷ (view mti mie m).waits)
            (wait_for env tm next_wake (view mti mie m).program)
  unfolding sleep
  sleep-wait_for tm w m none = refl
  sleep-wait_for tm w m (some next_wake) =
      let before = c.mie_clr m.hart in
      let asleep = c.mti_set before in
      ap (view_all mti mie) (sleep-waits mti mie xlen c is Has t traps env tm w next_wake m)
      ∙ rw
          (
            is.mti-mie_set (c.wfi asleep),
            is.mti-wfi asleep,
            is.mti-mti_set before,
            is.mie-mie_set (c.wfi asleep),
            is.mie-mti_set before,
            is.mie-mie_clr m.hart,
          )
          refl

  machine_wait-simple_wait :
      (tm : Times) (w : Within) (m : Machine S) (r : Resumed ScheduleByDelay)
      → view_all mti mie (machine_wait c t env fuel tm w m r)
        ≡ logged
            (if r.pending then (true, false) ∷ (view mti mie m).waits else (view mti mie m).waits)
            (simple_wait env tm (view mti mie m).program r)
  machine_wait-simple_wait tm w m r = elim (Bool-cases r.pending) [
    | inl p ↦ rw p (sleep-wait_for tm w m r.next_wake)
    | inr p ↦ rw p refl
  ]

  machine_on-simple_on :
      (tm : Times) (w : Within) (m : Machine S) (r : ResumedTasks)
      → view_all mti mie (machine_on c t env fuel tm w m r)
        ≡ logged
            (waits_after r (view mti mie m).waits)
            (simple_on env tm (view mti mie m).program r)
  machine_on-simple_on tm w m none = refl
  machine_on-simple_on tm w m (some (r, tasks, l)) = machine_wait-simple_wait tm w _ r

  resume_tasks-flags :
      (tm : Times) (m : Machine S) (v : ℕ)
      → (resume_tasks env tm fuel (record m.program { timestamp = v })
          ≡ resume_tasks env tm fuel (view mti mie m).program)
        × (resume_tasks env tm fuel (record (view mti mie m).program { timestamp = v })
            ≡ resume_tasks env tm fuel (view mti mie m).program)
  unfolding resume_tasks
  resume_tasks-flags tm m v = (refl, refl)

  machine_round-simple_round :
      (tm : Times) (w : Within) (m : Machine S)
      → view_all mti mie (machine_round c t env fuel tm w m)
        ≡ program_event xlen env fuel (round tm w) (view mti mie m)
  unfolding machine_round simple_round
  machine_round-simple_round tm w m =
      let v = from_int (to_int tm.ticks) in
      let m' = record m { program = record m.program { timestamp = v } } in
      let (same, stamped) = resume_tasks-flags tm m v in
      rw (same, stamped)
        (machine_on-simple_on tm w m' (resume_tasks env tm fuel (view mti mie m).program))

  run_next :
      (es : List Event) (m : Option (Machine S))
      → ((m' : Machine S)
          → view_all mti mie (machine_run c t env fuel es m')
            ≡ program_run xlen env fuel es (view mti mie m'))
      → view_all mti mie (machine_next c t env fuel (λ m'. machine_run c t env fuel es m') m)
        ≡ program_next xlen env fuel (λ p. program_run xlen env fuel es p) (view_all mti mie m)
  run_next es none ih = refl
  run_next es (some m) ih = ih m

  event-event :
      (e : Event) (m : Machine S)
      → HasCause Has e
      → view_all mti mie (machine_event c t env fuel e m)
        ≡ program_event xlen env fuel e (view mti mie m)
  unfolding machine_event
  event-event (interrupt cause now) m has =
      ap some (interrupted-handler mti mie xlen c is Has t traps cause now m has)
  event-event (round tm w) m has = machine_round-simple_round tm w m

  -- On registers that keep the two bits, and on a hart that takes and leaves interrupts as the
  -- manual says: what any sequence of rounds of the event loop of `example_simple` and of
  -- interrupts with causes that the hart has does on the registers, with any interrupts pending
  -- behind each instruction of its waits, shows as what the same sequence does on two flags, and
  -- the one faults where the other does. On the flags what is pending during a wait is no matter,
  -- and a round that finds coroutines pending waits once, in a `wfi` that begins with `mie.mti` set
  -- and `mstatus.mie` clear.
  pub machine_run-program_run :
      (es : List Event) (m : Machine S)
      → All (HasCause Has) es
      → view_all mti mie (machine_run c t env fuel es m)
        ≡ program_run xlen env fuel es (view mti mie m)
  unfolding machine_run program_run
  machine_run-program_run [] m has = refl
  machine_run-program_run (e ∷ es) m has =
      run_next es (machine_event c t env fuel e m) (λ m'. machine_run-program_run es m' has.1)
      ∙ ap (program_next xlen env fuel (λ p. program_run xlen env fuel es p))
          (event-event e m has.0)
