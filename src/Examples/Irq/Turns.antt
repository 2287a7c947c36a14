-- ===== src/Examples/Irq/Turns.antt =====
-- One turn of a coroutine of src/example_irq.cpp, and the invariant.
use baremetal_cxx_coro.Common.{
  ◌≡◌, refl, ◌∙◌, ap, true, false, List, [], ◌∷◌, ◌++◌, length-append, arith, Bool-cases, inl, inr,
}
use baremetal_cxx_coro.StaticList.{StaticList}
use baremetal_cxx_coro.StaticList.Validity.{Holds}
use baremetal_cxx_coro.Examples.Irq.{
  Context, isr_context, isr_mti_context, isr_mei_context, same, handler_of, main_thread, Program,
  put_list, put_frame, after_isr, after_main,
}
use baremetal_cxx_coro.Examples.Irq.Sound.{
  IsSound, one_if, same_self, eq_of_same, one_of_three, count-append,
}

-- The program after the coroutine `c` has gone from its scheduler in the handler to the main loop,
-- with the lists that are left.
abbrev pub moved_to_main : Context → StaticList Context → StaticList Context → Program → Program
moved_to_main c home main p =
    put_list main_thread main
      (put_frame c (after_isr (p.frames c)) (put_list (handler_of c) home p))

module _ (p : Program) (q : List Context) (c : Context) (home main : StaticList Context)
    (sound : IsSound p q) (away : (p.frames c).at_main ≡ false) (home_holds : Holds 1 home [])
    (main_holds : Holds 3 main (q ++ c ∷ [])) where
  pub moved_to_main-IsSound : IsSound (moved_to_main c home main p) (q ++ c ∷ [])
  moved_to_main-IsSound = record {
    homes = λ d. elim (Bool-cases (same d c)) [
      | inl r ↦ rw r home_holds
      | inr r ↦ rw r (sound.homes d)
    ];
    main = main_holds;
    members = λ d. elim (Bool-cases (same d c)) [
      | inl r ↦
          let here = sound.members c ∙ ap one_if away in
          rw (r, eq_of_same d c r)
            (omega (arith, count-append c q (c ∷ []), ap one_if (same_self c), here))
      | inr r ↦ rw r (omega (arith, count-append d q (c ∷ []), ap one_if r, sound.members d))
    ];
    size = omega (
      arith,
      sound.size,
      length-append q (c ∷ []),
      count-append isr_context q (c ∷ []),
      count-append isr_mti_context q (c ∷ []),
      count-append isr_mei_context q (c ∷ []),
      one_of_three c,
    );
    in_step = λ d. elim (Bool-cases (same d c)) [
      | inl r ↦ rw r ((sound.in_step c).0, refl)
      | inr r ↦ rw r (sound.in_step d)
    ];
  }

-- The program after the coroutine `c` has gone from the main loop to its scheduler in the handler,
-- with the lists that are left.
abbrev pub moved_home : Context → StaticList Context → StaticList Context → Program → Program
moved_home c home main p =
    put_list (handler_of c) home
      (put_frame c (after_main (p.frames c)) (put_list main_thread main p))

module _ (p : Program) (q : List Context) (c : Context) (home main : StaticList Context)
    (sound : IsSound p (c ∷ q)) (there : (p.frames c).at_main ≡ true)
    (home_holds : Holds 1 home (c ∷ [])) (main_holds : Holds 3 main q) where
  pub moved_home-IsSound : IsSound (moved_home c home main p) q
  moved_home-IsSound = record {
    homes = λ d. elim (Bool-cases (same d c)) [
      | inl r ↦ rw (r, eq_of_same d c r) home_holds
      | inr r ↦ rw r (sound.homes d)
    ];
    main = main_holds;
    members = λ d. elim (Bool-cases (same d c)) [
      | inl r ↦
          let here = sound.members c ∙ ap one_if there in
          rw (r, eq_of_same d c r) (omega (arith, ap one_if (same_self c), here))
      | inr r ↦ rw r (omega (arith, ap one_if r, sound.members d))
    ];
    size = omega (arith, sound.size, one_of_three c);
    in_step = λ d. elim (Bool-cases (same d c)) [
      | inl r ↦ let before = rw there at (sound.in_step c).1 in rw r (refl, before)
      | inr r ↦ rw r (sound.in_step d)
    ];
  }
