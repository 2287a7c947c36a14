-- ===== src/Examples/Irq/Sound.antt =====
-- The invariant of src/example_irq.cpp: every coroutine waits in exactly one scheduler.
use baremetal_cxx_coro.Common.{
  ℕ, ◌+◌, ◌%◌, ◌^◌, ◌≡◌, refl, Bool, true, List, [], ◌∷◌, ◌++◌, if◌then◌else◌, length, arith,
}
use baremetal_cxx_coro.StaticList.Validity.{Holds}
use baremetal_cxx_coro.Examples.Irq.{
  Context, isr_context, isr_mti_context, isr_mei_context, same, handler_of, main_thread, Frame,
  Program, after_isr, after_main,
}

abbrev pub one_if : Bool → ℕ
one_if b = if b then 1 else 0

-- How often a coroutine stands in a queue.
abbrev pub count : Context → List Context → ℕ
count c [] = 0
count c (d ∷ ds) = one_if (same c d) + count c ds

-- What the scheduler of a coroutine in the handler holds.
abbrev pub at_home : Context → Bool → List Context
at_home c at_main = if at_main then [] else c ∷ []

-- The counts are those of the last two halves of the loop that ran.
abbrev pub InStep : Frame → Type 0
InStep f =
    f.i ≡ (f.main_resume_count + 1) % 2 ^ 32
    × (f.isr_resume_count ≡ (if f.at_main then f.i else f.main_resume_count))

-- A frame once the handler, or the main loop, has run the coroutine where it waited there.
abbrev pub arrived : Frame → Frame
arrived f = if f.at_main then f else after_isr f

abbrev pub sent_home : Frame → Frame
sent_home f = if f.at_main then after_main f else f

pub record IsSound (p : Program) (q : List Context) : Type 0 where
  pub homes : (c : Context) → Holds 1 (p.lists (handler_of c)) (at_home c (p.frames c).at_main)
  pub main : Holds 3 (p.lists main_thread) q
  pub members : (c : Context) → count c q ≡ one_if (p.frames c).at_main
  pub size : length q ≡ count isr_context q + count isr_mti_context q + count isr_mei_context q
  pub in_step : (c : Context) → InStep (p.frames c)

pub same_self : (c : Context) → same c c ≡ true
same_self isr_context = refl
same_self isr_mti_context = refl
same_self isr_mei_context = refl

pub eq_of_same : (c d : Context) → same c d ≡ true → c ≡ d
eq_of_same isr_context isr_context h = refl
eq_of_same isr_mti_context isr_mti_context h = refl
eq_of_same isr_mei_context isr_mei_context h = refl
eq_of_same isr_context isr_mti_context h = cc
eq_of_same isr_context isr_mei_context h = cc
eq_of_same isr_mti_context isr_context h = cc
eq_of_same isr_mti_context isr_mei_context h = cc
eq_of_same isr_mei_context isr_context h = cc
eq_of_same isr_mei_context isr_mti_context h = cc

-- Each coroutine is one of the three.
pub one_of_three :
    (c : Context)
    → one_if (same isr_context c)
        + one_if (same isr_mti_context c)
        + one_if (same isr_mei_context c)
      ≡ 1
one_of_three isr_context = refl
one_of_three isr_mti_context = refl
one_of_three isr_mei_context = refl

pub count-append :
    (c : Context) (xs ys : List Context) → count c (xs ++ ys) ≡ count c xs + count c ys
count-append c [] ys = omega arith
count-append c (x ∷ xs) ys = omega (arith, count-append c xs ys)
