-- ===== src/Examples/Irq/Run.antt =====
-- The loops of the schedulers in src/example_irq.cpp, and the invariant.
use baremetal_cxx_coro.Common.{
  ℕ, zero, suc, ◌<◌, ◌≡◌, refl, ◌∙◌, ap, true, false, some, List, [], ◌∷◌, ◌++◌, if◌then◌else◌,
  length, arith, Bool-cases, inl, inr,
}
use baremetal_cxx_coro.StaticList.{StaticList, empty, emplace_back}
use baremetal_cxx_coro.StaticList.Validity.{Holds}
use baremetal_cxx_coro.StaticList.Contents.{emplace_back-Holds, empty-nil, empty-cons}
use baremetal_cxx_coro.Scheduler.{take_front}
use baremetal_cxx_coro.Scheduler.Unordered.{take_front-Holds}
use baremetal_cxx_coro.Examples.Irq.{
  Context, isr_context, isr_mti_context, isr_mei_context, same, handler_of, main_thread, Place,
  Program, put_list, put_frame, await_at, after_isr, after_main, resume_coroutine, resume_taken,
  resume_at,
}
use baremetal_cxx_coro.Examples.Irq.Sound.{
  IsSound, one_if, arrived, sent_home, same_self, eq_of_same,
}
use baremetal_cxx_coro.Examples.Irq.Turns.{
  moved_to_main, moved_to_main-IsSound, moved_home, moved_home-IsSound,
}

resume_at-empty :
    (fuel : ℕ) (x : Place) (p : Program)
    → empty (p.lists x) ≡ true
    → resume_at (suc fuel) x p ≡ some p
unfolding resume_at
resume_at-empty fuel x p e = rw e refl

resume_at-turn :
    (fuel : ℕ) (x : Place) (p p' : Program)
    → empty (p.lists x) ≡ false
    → resume_taken x p (take_front (p.lists x)) ≡ some p'
    → resume_at (suc fuel) x p ≡ resume_at fuel x p'
unfolding resume_at
resume_at-turn fuel x p p' e turn = rw (e, turn) refl

resume_coroutine-isr :
    (c : Context) (p : Program) (l : StaticList Context)
    → (p.frames c).at_main ≡ false
    → emplace_back c (p.lists main_thread) ≡ some (tt, l)
    → resume_coroutine c p ≡ some (put_list main_thread l (put_frame c (after_isr (p.frames c)) p))
unfolding resume_coroutine await_at
resume_coroutine-isr c p l away run = rw (away, run) refl

resume_coroutine-main :
    (c : Context) (p : Program) (l : StaticList Context)
    → (p.frames c).at_main ≡ true
    → emplace_back c (p.lists (handler_of c)) ≡ some (tt, l)
    → resume_coroutine c p
      ≡ some (put_list (handler_of c) l (put_frame c (after_main (p.frames c)) p))
unfolding resume_coroutine await_at
resume_coroutine-main c p l there run = rw (there, run) refl

-- A coroutine that is not at the main loop leaves room there.
room :
    (p : Program) (q : List Context) (c : Context)
    → IsSound p q
    → (p.frames c).at_main ≡ false
    → length q < 3
room p q isr_context sound away =
    let gone = sound.members isr_context ∙ ap one_if away in
    ground (arith, sound.size, gone, sound.members isr_mti_context, sound.members isr_mei_context)
room p q isr_mti_context sound away =
    let gone = sound.members isr_mti_context ∙ ap one_if away in
    ground (arith, sound.size, gone, sound.members isr_context, sound.members isr_mei_context)
room p q isr_mei_context sound away =
    let gone = sound.members isr_mei_context ∙ ap one_if away in
    ground (arith, sound.size, gone, sound.members isr_context, sound.members isr_mti_context)

stayed :
    (p : Program) (c : Context)
    → (p.frames c).at_main ≡ true
    → (d : Context) → p.frames d ≡ (if same d c then arrived (p.frames d) else p.frames d)
stayed p c there d = elim (Bool-cases (same d c)) [
  | inl r ↦ rw (r, eq_of_same d c r, there) refl
  | inr r ↦ rw r refl
]

-- The loop of a handler's scheduler takes its coroutine to the main loop, if it waits there.
pub resume_at-handler :
    (fuel : ℕ) (p : Program) (q : List Context) (c : Context)
    → IsSound p q
    → (p' : Program) × ((q' : List Context) × (resume_at (suc (suc fuel)) (handler_of c) p
          ≡ some p')
        × IsSound p' q'
        × ((d : Context) → p'.frames d ≡ (if same d c then arrived (p.frames d) else p.frames d))
        × (p'.mti_enabled ≡ p.mti_enabled)
        × (p'.timestamp_irq ≡ p.timestamp_irq))
resume_at-handler fuel p q c sound = elim (Bool-cases (p.frames c).at_main) [
  | inl there ↦
      let nothing : Holds 1 (p.lists (handler_of c)) [] = rw there at (sound.homes c) in
      (
        p,
        (
          q,
          resume_at-empty (suc fuel) (handler_of c) p (empty-nil 1 _ nothing),
          sound,
          stayed p c there,
          refl,
          refl,
        ),
      )
  | inr away ↦
      let waits : Holds 1 (p.lists (handler_of c)) (c ∷ []) = rw away at (sound.homes c) in
      let (home, taken, home_holds) = take_front-Holds 1 (p.lists (handler_of c)) c [] waits in
      let (main, inserted, main_holds) =
        emplace_back-Holds 3 (p.lists main_thread) q c sound.main (room p q c sound away) in
      let p₂ = moved_to_main c home main p in
      let is = moved_to_main-IsSound p q c home main sound away home_holds main_holds in
      (
        p₂,
        (
          q ++ c ∷ [],
          resume_at-turn (suc fuel) (handler_of c) p p₂
                (empty-cons 1 (p.lists (handler_of c)) c [] waits)
                (ap (resume_taken (handler_of c) p) taken
                  ∙ resume_coroutine-isr c (put_list (handler_of c) home p) main away inserted)
              ∙ resume_at-empty fuel (handler_of c) p₂
                  (rw (same_self c) (empty-nil 1 home home_holds)),
          is,
          λ d. elim (Bool-cases (same d c)) [
            | inl r ↦ rw (r, eq_of_same d c r, away) refl
            | inr r ↦ rw r refl
          ],
          refl,
          refl,
        ),
      )
]

-- A coroutine in the queue of the main loop is at the main loop.
waiting :
    (p : Program) (q : List Context) (c : Context) → IsSound p (c ∷ q) → (p.frames c).at_main ≡ true
waiting p q c sound = elim (Bool-cases (p.frames c).at_main) [
  | inl there ↦ there
  | inr away ↦ absurd (omega (arith, sound.members c ∙ ap one_if away, ap one_if (same_self c)))
]

-- One turn of the loop of `main_thread` takes a coroutine to its scheduler in the handler.
pub turn-IsSound :
    (p : Program) (c : Context) (q : List Context)
    → IsSound p (c ∷ q)
    → (p₁ : Program) × (empty (p.lists main_thread) ≡ false)
      × (resume_taken main_thread p (take_front (p.lists main_thread)) ≡ some p₁)
      × IsSound p₁ q
      × ((d : Context) → sent_home (p₁.frames d) ≡ sent_home (p.frames d))
turn-IsSound p c q sound =
    let there = waiting p q c sound in
    let (main, taken, main_holds) = take_front-Holds 3 (p.lists main_thread) c q sound.main in
    let nothing : Holds 1 (p.lists (handler_of c)) [] = rw there at (sound.homes c) in
    let (home, inserted, home_holds) =
      emplace_back-Holds 1 (p.lists (handler_of c)) [] c nothing (omega arith) in
    (
      moved_home c home main p,
      empty-cons 3 (p.lists main_thread) c q sound.main,
      ap (resume_taken main_thread p) taken
          ∙ resume_coroutine-main c (put_list main_thread main p) home there inserted,
      moved_home-IsSound p q c home main sound there home_holds main_holds,
      λ d. elim (Bool-cases (same d c)) [
        | inl r ↦ rw (r, eq_of_same d c r, there) refl
        | inr r ↦ rw r refl
      ],
    )

-- With nothing in the queue of the main loop no coroutine is there.
none_there : (p : Program) → IsSound p [] → (d : Context) → p.frames d ≡ sent_home (p.frames d)
none_there p sound d = elim (Bool-cases (p.frames d).at_main) [
  | inl there ↦ absurd (omega (arith, sound.members d ∙ ap one_if there))
  | inr away ↦ rw away refl
]

-- The loop of `main_thread` takes every coroutine that waits there to its scheduler in the handler.
pub resume_at-main :
    (fuel : ℕ) (p : Program) (q : List Context)
    → IsSound p q
    → length q < fuel
    → (p' : Program) × (resume_at fuel main_thread p ≡ some p')
      × IsSound p' []
      × ((d : Context) → p'.frames d ≡ sent_home (p.frames d))
resume_at-main zero p q sound enough = absurd (omega arith)
resume_at-main (suc fuel) p [] sound enough = (
  p,
  resume_at-empty fuel main_thread p (empty-nil 3 (p.lists main_thread) sound.main),
  sound,
  none_there p sound,
)
resume_at-main (suc fuel) p (c ∷ q) sound enough =
    let (p₁, filled, moved, is, home) = turn-IsSound p c q sound in
    let (p', rest, sound', all) = resume_at-main fuel p₁ q is (omega arith) in
    (p', resume_at-turn fuel main_thread p p₁ filled moved ∙ rest, sound', λ d. all d ∙ home d)
