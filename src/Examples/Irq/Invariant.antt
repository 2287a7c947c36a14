-- ===== src/Examples/Irq/Invariant.antt =====
-- The interrupt handler and the main loop of src/example_irq.cpp, and the invariant.
use baremetal_cxx_coro.Common.{
  ℕ, suc, ◌+◌, ◌-◌, ◌*◌, ◌/◌, ◌%◌, ◌^◌, ◌<◌, ◌≡◌, refl, ◌∙◌, ap, Bool, true, false, some, List, [],
  ◌==◌, if◌then◌else◌, length, arith, Bool-cases, inl, inr, bit_and,
}
use baremetal_cxx_coro.Timer.{TimeCmp, mtimecmp}
use baremetal_cxx_coro.Timer.Compare.{write_time_cmp-IsHarmless}
use baremetal_cxx_coro.Examples.Irq.{
  Context, isr_context, isr_mti_context, isr_mei_context, Program, mei, mti, handler, on_interrupt,
  main_round, before_wfi, timestamp,
}
use baremetal_cxx_coro.Examples.Irq.Sound.{IsSound, arrived, sent_home}
use baremetal_cxx_coro.Examples.Irq.Run.{resume_at-handler, resume_at-main}

-- The flags, the time stamp and the timer do not matter to the invariant.
pub flags-IsSound :
    (p : Program) (q : List Context) (mti_on mie_on : Bool) (now : ℕ) (cmp : TimeCmp)
    → IsSound p q
    → IsSound
        (record p {
          mti_enabled = mti_on;
          mie_enabled = mie_on;
          timestamp_irq = now;
          time_cmp = cmp;
        })
        q
flags-IsSound p q mti_on mie_on now cmp sound = record {
  homes = sound.homes;
  main = sound.main;
  members = sound.members;
  size = sound.size;
  in_step = sound.in_step;
}

-- What an interrupt asks of the program: its coroutine has gone to the main loop, and the timer's
-- interrupt is disabled.
abbrev pub HasServed : (now cause : ℕ) → (p p' : Program) → Type 0
HasServed now cause p p' =
    if cause == mei
    then p'.frames isr_mei_context ≡ arrived (p.frames isr_mei_context)
    else if cause == mti
    then (p'.frames isr_mti_context ≡ arrived (p.frames isr_mti_context))
      × (p'.mti_enabled ≡ false)
      × (p'.timestamp_irq ≡ timestamp now)
    else Unit

-- The same of what `mcause` holds.
abbrev pub IsServed : (xlen now mcause : ℕ) → (p p' : Program) → Type 0
IsServed xlen now mcause p p' =
    if bit_and mcause (2 ^ (xlen - 1)) == 0 then Unit else HasServed now (bit_and mcause 0xFF) p p'

-- The program `p₀` is the one before the coroutine of every interrupt ran.
on_interrupt-IsSound :
    (fuel now cause : ℕ) (p₀ p : Program) (q : List Context)
    → IsSound p q
    → p.frames isr_mei_context ≡ p₀.frames isr_mei_context
    → p.frames isr_mti_context ≡ p₀.frames isr_mti_context
    → (p' : Program) × ((q' : List Context) × (on_interrupt (suc (suc fuel)) now cause p ≡ some p')
        × IsSound p' q'
        × (p'.frames isr_context ≡ p.frames isr_context)
        × HasServed now cause p₀ p')
unfolding on_interrupt
on_interrupt-IsSound fuel now cause p₀ p q sound mei_kept mti_kept =
    elim (Bool-cases (cause == mei)) [
      | inl e ↦
          let (p', (q', run, sound', at, _, _)) =
            resume_at-handler fuel p q isr_mei_context sound in
          let mine = at isr_mei_context ∙ ap arrived mei_kept in
          (p', (q', rw e run, sound', at isr_context, rw e mine))
      | inr e ↦ elim (Bool-cases (cause == mti)) [
        | inl t ↦
            let p₁ = record p { timestamp_irq = timestamp now; mti_enabled = false } in
            let (p', (q', run, sound', at, off, stamp)) =
              resume_at-handler fuel p₁ q isr_mti_context
                (flags-IsSound p q false p.mie_enabled (timestamp now) p.time_cmp sound) in
            let mine = at isr_mti_context ∙ ap arrived mti_kept in
            (p', (q', rw (e, t) run, sound', at isr_context, rw (e, t) (mine, off, stamp)))
        | inr t ↦ (p, (q, rw (e, t) refl, sound, refl, rw (e, t) tt))
      ]
    ]

-- From every sound state and for any `mcause`, with fuel for two rounds the handler ends in a sound
-- state. The coroutine of `isr_context`, and that of the interrupt that `mcause` names, have run up
-- to the main loop if they waited in the handler; the timer's interrupt leaves itself disabled and
-- its time stamp.
pub handler-IsSound :
    (fuel xlen now mcause : ℕ) (p : Program) (q : List Context)
    → IsSound p q
    → (p' : Program) × ((q' : List Context) × (handler (suc (suc fuel)) xlen now mcause p ≡ some p')
        × IsSound p' q'
        × (p'.frames isr_context ≡ arrived (p.frames isr_context))
        × IsServed xlen now mcause p p')
unfolding handler
handler-IsSound fuel xlen now mcause p q sound =
    let (p₁, (q₁, run₁, sound₁, at₁, _, _)) = resume_at-handler fuel p q isr_context sound in
    elim (Bool-cases (bit_and mcause (2 ^ (xlen - 1)) == 0)) [
      | inl r ↦ (p₁, (q₁, rw (run₁, r) refl, sound₁, at₁ isr_context, rw r tt))
      | inr r ↦
          let (p', (q', run, sound', kept, served)) =
            on_interrupt-IsSound fuel now (bit_and mcause 0xFF) p p₁ q₁ sound₁ (at₁ isr_mei_context)
              (at₁ isr_mti_context) in
          (p', (q', rw (run₁, r) run, sound', kept ∙ at₁ isr_context, rw r served))
    ]

pub before_wfi-IsSound :
    (wide : Bool) (hz at : ℕ) (p : Program) (q : List Context)
    → IsSound p q
    → IsSound (before_wfi wide hz at p) q
before_wfi-IsSound wide hz at p q sound =
    flags-IsSound p q true false p.timestamp_irq (before_wfi wide hz at p).time_cmp sound

pub main_round-run :
    (wide : Bool) (hz fuel at : ℕ) (p : Program) (q : List Context)
    → IsSound p q
    → length q < fuel
    → (p' : Program) × (main_round wide hz fuel at p ≡ some p')
      × IsSound p' []
      × ((c : Context) → p'.frames c ≡ sent_home (p.frames c))
      × (p'.mie_enabled ≡ false)
      × (p'.mti_enabled ≡ true)
      × (mtimecmp p'.time_cmp ≡ (at + 100 * hz / 1000000) % 2 ^ 64)
unfolding main_round
main_round-run wide hz fuel at p q sound enough =
    let (p₁, run, sound₁, home) = resume_at-main fuel p q sound enough in
    let new = (at + 100 * hz / 1000000) % 2 ^ 64 in
    (
      before_wfi wide hz at p₁,
      rw run refl,
      before_wfi-IsSound wide hz at p₁ [] sound₁,
      home,
      refl,
      refl,
      (write_time_cmp-IsHarmless wide new p₁.time_cmp (omega arith)).0,
    )

-- From every sound state, with more rounds of fuel than coroutines wait for the main loop, a round
-- of the main loop without an interrupt ends in a sound state with no coroutine left there. Any
-- coroutine `c` that waited there has run up to its scheduler in the handler; the timer is set to
-- the ticks of 100us, by the frequency of the timer, from its time, its interrupt is enabled, and
-- interrupts are off.
pub main_round-IsSound :
    (wide : Bool) (hz fuel at : ℕ) (p : Program) (q : List Context) (c : Context)
    → IsSound p q
    → length q < fuel
    → (p' : Program) × (main_round wide hz fuel at p ≡ some p')
      × IsSound p' []
      × (p'.frames c ≡ sent_home (p.frames c))
      × (p'.mie_enabled ≡ false)
      × (p'.mti_enabled ≡ true)
      × (mtimecmp p'.time_cmp ≡ (at + 100 * hz / 1000000) % 2 ^ 64)
main_round-IsSound wide hz fuel at p q c sound enough =
    let (p', run, sound', home, off, on, set) = main_round-run wide hz fuel at p q sound enough in
    (p', run, sound', home c, off, on, set)

-- No more than three coroutines wait for the main loop.
pub queue_short : (p : Program) (q : List Context) → IsSound p q → length q < 4
queue_short p q sound = ground (
  arith,
  sound.size,
  sound.members isr_context,
  sound.members isr_mti_context,
  sound.members isr_mei_context,
)
