-- ===== src/Platform/Wakes.antt =====
-- The event loop of src/example_simple.cpp on registers, up to the first wake-up of a coroutine.
use baremetal_cxx_coro.Common.{
  ℕ, ◌-◌, ◌^◌, ◌<◌, ◌≡◌, refl, sym, ◌∙◌, ap, subst, Bool, true, false, Option, none, some, List, [],
  ◌∷◌, ◌++◌, map, All, bit_and, ◌==◌, Bool-cases, inl, inr,
}
use baremetal_cxx_coro.Common.Int.{◌≤ℤ◌}
use baremetal_cxx_coro.StaticList.Validity.{Holds}
use baremetal_cxx_coro.Scheduler.{Entry}
use baremetal_cxx_coro.Scheduler.Delay.{ScheduleByDelay, expiry, IsSorted, ◌<ℤ◌}
use baremetal_cxx_coro.Awaitable.{timer_await_ready}
use baremetal_cxx_coro.Examples.Delayed.{
  Program, Times, Setting, handler, after_periodic, resume_tasks, simple_round,
}
use baremetal_cxx_coro.Examples.Delayed.Tasks.{IsCounting}
use baremetal_cxx_coro.Examples.Delayed.Rounds.{simple_round-early, rounds-fault}
use baremetal_cxx_coro.Platform.{Core, IsCore, Machine, Traps, IsTraps, Within}
use baremetal_cxx_coro.Platform.Refines.{Logged, flags, view, view_all}
use baremetal_cxx_coro.Platform.Rounds.{
  Event, interrupt, round, HasCause, machine_run, program_run, program_event, program_next, logged,
  waits_after, machine_run-program_run,
}

-- A round that reads the time no later than the entry expires; interrupts may come at any time.
abbrev pub IsEarly : Entry ScheduleByDelay → Event → Type 0
IsEarly x (interrupt cause now) = Unit
IsEarly x (round tm w) = tm.now ≤ℤ expiry x

-- The flags at each wait of some rounds, the newest first, in front of earlier ones.
abbrev pub waits_of : List Event → List (Bool × Bool) → List (Bool × Bool)
waits_of [] ws = ws
waits_of (interrupt cause now ∷ es) ws = waits_of es ws
waits_of (round tm w ∷ es) ws = waits_of es ((true, false) ∷ ws)

handler-waiting :
    (xlen now cause : ℕ) (p : Program)
    → ((handler xlen now cause p).waiting ≡ p.waiting)
      × ((handler xlen now cause p).tasks ≡ p.tasks)
handler-waiting xlen now cause p = elim (Bool-cases (bit_and cause (2 ^ (xlen - 1)) == 0)) [
  | inl r ↦ rw r (refl, refl)
  | inr r ↦ elim (Bool-cases (bit_and cause 0xFF == 7)) [
    | inl q ↦ rw (r, q) (refl, refl)
    | inr q ↦ rw (r, q) (refl, refl)
  ]
]

module _ (xlen : ℕ) (env : Setting) (fuel n : ℕ) (x : Entry ScheduleByDelay)
    (xs : List (Entry ScheduleByDelay)) (enough : n < fuel) (sorted : IsSorted (x ∷ xs)) where
  -- What an early event leaves: no coroutine and not the list has changed.
  abbrev Early : Logged → Event → Logged → Type 0
  Early p e p' =
      (p'.program.tasks ≡ p.program.tasks)
      × (p'.program.waiting ≡ p.program.waiting)
      × (p'.waits ≡ waits_of (e ∷ []) p.waits)

  event-Early :
      (e : Event) (p : Logged)
      → IsEarly x e
      → Holds n p.program.waiting (x ∷ xs)
      → (p' : Logged) × (program_event xlen env fuel e p ≡ some p') × Early p e p'
  event-Early (interrupt cause now) p early holds =
      let same = handler-waiting xlen now cause p.program in
      (record p { program = handler xlen now cause p.program }, refl, (same.1, same.0, refl))
  event-Early (round tm w) p early holds =
      let (p', run, tasks, waiting, (t, resumed)) =
        simple_round-early env tm fuel n p.program x xs holds enough sorted early in
      (
        record { program = p'; waits = (true, false) ∷ p.waits },
        ap (λ r. logged (waits_after r p.waits) (simple_round env tm fuel p.program)) resumed
            ∙ ap (logged ((true, false) ∷ p.waits)) run,
        (tasks, waiting, refl),
      )

  waits_of-cons :
      (e : Event) (es : List Event) (ws : List (Bool × Bool))
      → waits_of es (waits_of (e ∷ []) ws) ≡ waits_of (e ∷ es) ws
  waits_of-cons (interrupt cause now) es ws = refl
  waits_of-cons (round tm w) es ws = refl

  -- Interrupts and early rounds change no coroutine and not the list, and what follows them runs
  -- in the program that they leave.
  program_run-early :
      (es rest : List Event) (p : Logged)
      → All (IsEarly x) es
      → Holds n p.program.waiting (x ∷ xs)
      → (p' : Logged) × (program_run xlen env fuel es p ≡ some p')
        × (p'.program.tasks ≡ p.program.tasks)
        × (p'.program.waiting ≡ p.program.waiting)
        × (p'.waits ≡ waits_of es p.waits)
        × (program_run xlen env fuel (es ++ rest) p ≡ program_run xlen env fuel rest p')
  unfolding program_run
  program_run-early [] rest p early holds = (p, refl, refl, refl, refl, refl)
  program_run-early (e ∷ es) rest p early holds =
      let (p₁, first, (tasks₁, waiting₁, waits₁)) = event-Early e p early.0 holds in
      let (p₂, run, tasks₂, waiting₂, waits₂, behind) =
        program_run-early es rest p₁ early.1
          (subst (λ l. Holds n l (x ∷ xs)) (sym waiting₁) holds) in
      (
        p₂,
        ap (program_next xlen env fuel (λ q. program_run xlen env fuel es q)) first ∙ run,
        tasks₂ ∙ tasks₁,
        waiting₂ ∙ waiting₁,
        waits₂ ∙ ap (waits_of es) waits₁ ∙ waits_of-cons e es p.waits,
        ap (program_next xlen env fuel (λ q. program_run xlen env fuel (es ++ rest) q)) first
            ∙ behind,
      )

  program_run-fault :
      (es rest : List Event) (tm : Times) (w : Within) (p : Logged)
      → All (IsEarly x) es
      → Holds n p.program.waiting (x ∷ xs)
      → expiry x <ℤ tm.now
      → env.body ≡ after_periodic
      → timer_await_ready (env.period x.handle) ≡ false
      → IsCounting (p.program.tasks x.handle)
      → program_run xlen env fuel (es ++ round tm w ∷ rest) p ≡ none
  unfolding program_run
  program_run-fault es rest tm w p early holds lt same waits counting =
      let (p', run, tasks, waiting, _, behind) =
        program_run-early es (round tm w ∷ rest) p early holds in
      let counting' = subst (λ s. IsCounting (s x.handle)) (sym tasks) counting in
      let fault =
        rounds-fault env tm fuel n p'.program x xs
          (subst (λ l. Holds n l (x ∷ xs)) (sym waiting) holds) enough sorted lt waits
          (inl (same, counting')) in
      let ws = waits_after (resume_tasks env tm fuel p'.program) p'.waits in
      behind
      ∙ ap (λ o. program_next xlen env fuel (λ q. program_run xlen env fuel rest q) (logged ws o))
          fault.1.3

module _ {S : Type 0} (mti mie : S → Bool) where
  view_all-none : (o : Option (Machine S)) → view_all mti mie o ≡ none → o ≡ none
  view_all-none none e = refl
  view_all-none (some m) e = cc

  view_all-some :
      (o : Option (Machine S)) (p : Logged)
      → view_all mti mie o ≡ some p
      → (m : Machine S) × (o ≡ some m) × (view mti mie m ≡ p)
  view_all-some none p e = cc
  view_all-some (some m) p e = (m, refl, cc)

All-front : {A : Type 0} (P : A → Type 0) (xs ys : List A) → All P (xs ++ ys) → All P xs
All-front P [] ys h = tt
All-front P (x ∷ xs) ys h = (h.0, All-front P xs ys h.1)

module _ {S : Type 0} (mti mie : S → Bool) (xlen : ℕ) (c : Core S) (is : IsCore xlen c mti mie)
    (Has : ℕ → Type 0) (t : Traps S) (traps : IsTraps c mti mie Has t) (env : Setting)
    (fuel n : ℕ) where
  -- On registers that keep the two bits, and on a hart that takes and leaves interrupts as the
  -- manual says, with a valid sorted list of n nodes, more than n rounds of fuel, and a first entry
  -- that is a coroutine `periodic`, resumed as often as its round says, with a period other than 0:
  -- any sequence of interrupts with causes that the hart has and of rounds that read the time
  -- before this entry has expired ends and leaves the waiting list as it was, and each of the
  -- rounds waits once, in a `wfi` that begins with `mie.mti` set and `mstatus.mie` clear; followed
  -- by a round that reads a time past its expiry the sequence faults, whatever comes behind it.
  pub machine_run-fault :
      (x : Entry ScheduleByDelay) (xs : List (Entry ScheduleByDelay)) (es rest : List Event)
      (tm : Times) (w : Within) (m : Machine S)
      → Holds n m.program.waiting (x ∷ xs)
      → n < fuel
      → IsSorted (x ∷ xs)
      → All (IsEarly x) es
      → All (HasCause Has) (es ++ round tm w ∷ rest)
      → expiry x <ℤ tm.now
      → env.body ≡ after_periodic
      → timer_await_ready (env.period x.handle) ≡ false
      → IsCounting (m.program.tasks x.handle)
      → (m' : Machine S) × (machine_run c t env fuel es m ≡ some m')
        × (m'.program.waiting ≡ m.program.waiting)
        × (map (flags mti mie) m'.waits ≡ waits_of es (map (flags mti mie) m.waits))
        × (machine_run c t env fuel (es ++ round tm w ∷ rest) m ≡ none)
  machine_run-fault x xs es rest tm w m holds enough sorted early has lt same waits counting =
      let simulated = machine_run-program_run mti mie xlen c is Has t traps env fuel in
      let (p, run, tasks, waiting, slept, behind) =
        program_run-early xlen env fuel n x xs enough sorted es (round tm w ∷ rest) (view mti mie m)
          early holds in
      let (m', there, shown) =
        view_all-some mti mie (machine_run c t env fuel es m) p
          (simulated es m (All-front (HasCause Has) es (round tm w ∷ rest) has) ∙ run) in
      (
        m',
        there,
        ap (λ q. q.program.waiting) shown ∙ waiting,
        ap (λ q. q.waits) shown ∙ slept,
        view_all-none mti mie _ (
            simulated (es ++ round tm w ∷ rest) m has
            ∙ program_run-fault xlen env fuel n x xs enough sorted es rest tm w (view mti mie m)
                early holds lt same waits counting),
      )
