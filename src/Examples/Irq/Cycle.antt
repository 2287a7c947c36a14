-- ===== src/Examples/Irq/Cycle.antt =====
-- Interrupts and rounds of the main loop in turn, in src/example_irq.cpp.
use baremetal_cxx_coro.Common.{
  ℕ, suc, ◌-◌, ◌^◌, ◌≡◌, refl, ◌∙◌, ap, some, [], ◌==◌, if◌then◌else◌, arith, Bool-cases, inl, inr,
  bit_and,
}
use baremetal_cxx_coro.Examples.Irq.{
  Context, isr_context, isr_mti_context, isr_mei_context, Program, mei, mti, handler, main_round,
  after_isr, after_main,
}
use baremetal_cxx_coro.Examples.Irq.Sound.{IsSound, one_if, arrived, sent_home}
use baremetal_cxx_coro.Examples.Irq.Invariant.{
  IsServed, handler-IsSound, main_round-run, queue_short,
}

-- With no coroutine at the main loop each runs to it.
all_away :
    (p : Program) → IsSound p [] → (c : Context) → arrived (p.frames c) ≡ after_isr (p.frames c)
all_away p sound c = elim (Bool-cases (p.frames c).at_main) [
  | inl there ↦ absurd (omega (arith, sound.members c ∙ ap one_if there))
  | inr away ↦ rw away refl
]

abbrev pub HasCycled : Context → (p p' : Program) → Type 0
HasCycled c p p' = p'.frames c ≡ after_main (after_isr (p.frames c))

-- The coroutine of the interrupt that `mcause` names.
abbrev pub HasAnswered : (xlen mcause : ℕ) → (p p' : Program) → Type 0
HasAnswered xlen mcause p p' =
    if bit_and mcause (2 ^ (xlen - 1)) == 0
    then Unit
    else if bit_and mcause 0xFF == mei
    then HasCycled isr_mei_context p p'
    else if bit_and mcause 0xFF == mti
    then HasCycled isr_mti_context p p'
    else Unit

answered :
    (xlen now mcause : ℕ) (p p' p'' : Program)
    → IsSound p []
    → IsServed xlen now mcause p p'
    → ((c : Context) → p''.frames c ≡ sent_home (p'.frames c))
    → HasAnswered xlen mcause p p''
answered xlen now mcause p p' p'' sound served back =
    let cycle = λ (c : Context) (at : p'.frames c ≡ arrived (p.frames c)).
      back c ∙ ap sent_home (at ∙ all_away p sound c) in
    elim (Bool-cases (bit_and mcause (2 ^ (xlen - 1)) == 0)) [
      | inl r ↦ rw r tt
      | inr r ↦ elim (Bool-cases (bit_and mcause 0xFF == mei)) [
        | inl e ↦ rw (r, e) (cycle isr_mei_context (rw (r, e) at served))
        | inr e ↦ elim (Bool-cases (bit_and mcause 0xFF == mti)) [
          | inl t ↦ rw (r, e, t) (cycle isr_mti_context (rw (r, e, t) at served).0)
          | inr t ↦ rw (r, e, t) tt
        ]
      ]
    ]

-- From every sound state with no coroutine at the main loop, an interrupt and then a round of the
-- main loop end, in such a state again. The coroutine of `isr_context`, and that of the interrupt
-- that `mcause` names, have run once round their loop.
pub handler-main_round :
    (fuel xlen hz now at mcause : ℕ) (p : Program)
    → IsSound p []
    → (p' : Program) × ((p'' : Program) × (handler (suc (suc fuel)) xlen now mcause p ≡ some p')
        × (main_round (xlen == 64) hz 4 at p' ≡ some p'')
        × IsSound p'' []
        × HasCycled isr_context p p''
        × HasAnswered xlen mcause p p'')
handler-main_round fuel xlen hz now at mcause p sound =
    let (p', (q, run, sound', reached, served)) = handler-IsSound fuel xlen now mcause p [] sound in
    let (p'', run', sound'', back, _, _, _) =
      main_round-run (xlen == 64) hz 4 at p' q sound' (queue_short p' q sound') in
    (
      p',
      (
        p'',
        run,
        run',
        sound'',
        back isr_context ∙ ap sent_home (reached ∙ all_away p sound isr_context),
        answered xlen now mcause p p' p'' sound served back,
      ),
    )
