-- ===== src/Awaitable/Sleep.antt =====
-- A coroutine that awaits a delay sleeps until it has passed, and is then resumed.
use baremetal_cxx_coro.Common.{
  ℕ, ◌<◌, ◌≡◌, refl, ◌∙◌, ap, Bool, true, false, Option, none, some, List, [], ◌∷◌, ◌++◌, arith,
  length, All, All-map, All-append, Bool-cases, inl, inr,
}
use baremetal_cxx_coro.Common.Int.{ℤ, ◌+ℤ◌, ◌≤ℤ◌, ltb_ℤ}
use baremetal_cxx_coro.StaticList.{StaticList}
use baremetal_cxx_coro.StaticList.Validity.{Holds}
use baremetal_cxx_coro.Scheduler.{Entry, Handle, UpdateTrace, entry, resume, after_run}
use baremetal_cxx_coro.Scheduler.Resume.{Waits, nonempty, priority_after, resume-idle, resume-Due}
use baremetal_cxx_coro.Scheduler.Delay.{
  ScheduleByDelay, ready_to_wake, schedule_after, schedule_now, expiry, IsSorted, up_to, beyond,
  ◌<ℤ◌, ready_of_lt, not_ready_of_le, All-beyond, insert-in_turn,
}
use baremetal_cxx_coro.Awaitable.{co_await_timer, timer_await_ready}

nonempty-middle :
    {W : Type 0} (r : W → W → Bool) (xs ys : List (Entry W)) (e : Entry W) (b : Bool)
    → nonempty r (xs ++ e ∷ ys) b ≡ true
nonempty-middle r [] ys e b = refl
nonempty-middle r (x ∷ xs) ys e b = refl

-- What holds of all entries holds of both parts of the list.
All-parts :
    (P : Entry ScheduleByDelay → Type 0) (e : Entry ScheduleByDelay)
    (es : List (Entry ScheduleByDelay))
    → All P es
    → All P (up_to e es) × All P (beyond e es)
All-parts P e [] h = (tt, tt)
All-parts P e (x ∷ xs) h =
    let rest = All-parts P e xs h.1 in
    elim (Bool-cases (ltb_ℤ (expiry e) (expiry x))) [
      | inl r ↦ (rw r rest.0, rw r (h.0, rest.1))
      | inr r ↦ (rw r (h.0, rest.0), rw r rest.1)
    ]

module _ {S : Type 0}
    (run : Handle
      → S
      → StaticList (Entry ScheduleByDelay)
      → Option (S × StaticList (Entry ScheduleByDelay)))
    (duration_cast : ℤ → ℤ) (fuel n : ℕ) (now delay : ℤ) (h : Handle)
    (l : StaticList (Entry ScheduleByDelay)) (es : List (Entry ScheduleByDelay))
    (holds : Holds n l es) (lt : length es < n) (enough : n < fuel) (sorted : IsSorted es)
    (waits : timer_await_ready delay ≡ false) where
  abbrev pub sleeper : Entry ScheduleByDelay
  sleeper = entry h (schedule_after duration_cast now delay)

  -- The coroutine suspends, and waits in its turn.
  pub suspended :
      (l' : StaticList (Entry ScheduleByDelay)) × (co_await_timer duration_cast fuel now delay h l
        ≡ some (false, l'))
      × Holds n l' (up_to sleeper es ++ sleeper ∷ beyond sleeper es)
      × IsSorted (up_to sleeper es ++ sleeper ∷ beyond sleeper es)
  unfolding co_await_timer
  suspended =
      let (l', run_insert, is, in_order) =
        insert-in_turn fuel n (schedule_now now) (schedule_after duration_cast now delay) h l es
          holds lt (omega arith) sorted in
      (l', rw (waits, run_insert) refl, is, in_order)

  -- On a valid sorted list of n nodes that is not full, with more than n rounds of fuel: a
  -- coroutine that awaits a delay other than 0 at `now` suspends, and `resume` at a time that is
  -- neither past `now` and the delay together nor past the expiry of any other entry then runs
  -- nothing and reports true.
  pub co_await_timer-sleeps :
      (t : ℤ) (s : S)
      → All (λ y. t ≤ℤ expiry y) es
      → t ≤ℤ now +ℤ duration_cast delay
      → (l' : StaticList (Entry ScheduleByDelay)) × ((w : Option ScheduleByDelay)
          × ((trace : UpdateTrace) × (co_await_timer duration_cast fuel now delay h l
                ≡ some (false, l'))
              × (resume ready_to_wake run fuel (schedule_now t) s l'
                  ≡ some (record { pending = true; next_wake = w; trace = trace }, s, l'))))
  unfolding schedule_now schedule_after
  co_await_timer-sleeps t s later le =
      let (l', suspend, is, _) = suspended in
      let (early, rest) = All-parts (λ y. t ≤ℤ expiry y) sleeper es later in
      let wait = λ (y : Entry ScheduleByDelay) (q : t ≤ℤ expiry y).
        not_ready_of_le y.wake_condition (schedule_now t) q in
      let queue = up_to sleeper es ++ sleeper ∷ beyond sleeper es in
      let next = priority_after ready_to_wake none queue in
      let all = All-map _ (Waits ready_to_wake (schedule_now t)) _ wait (
        All-append (λ y. t ≤ℤ expiry y) (up_to sleeper es) (sleeper ∷ beyond sleeper es) early
          (le, rest)) in
      let (trace, result) =
        resume-idle ready_to_wake run fuel n (schedule_now t) s l' queue is enough all in
      (
        l',
        (
          next,
          (
            trace,
            suspend,
            result
                ∙ ap (λ b. some (record { pending = b; next_wake = next; trace = trace }, s, l'))
                    (nonempty-middle ready_to_wake (up_to sleeper es) (beyond sleeper es) sleeper
                      false),
          ),
        ),
      )

  -- On a valid sorted list of n nodes that is not full, with more than n rounds of fuel: a
  -- coroutine that awaits a delay other than 0 at `now` suspends, and `resume` at a time that is
  -- past `now` and the delay together, and not past the expiry of any other entry, then resumes it
  -- on the valid list of the others.
  pub co_await_timer-wakes :
      (t : ℤ) (s : S)
      → All (λ y. t ≤ℤ expiry y) es
      → now +ℤ duration_cast delay <ℤ t
      → (l' : StaticList (Entry ScheduleByDelay)) × ((l'' : StaticList (Entry ScheduleByDelay))
          × ((trace : UpdateTrace) × (co_await_timer duration_cast fuel now delay h l
                ≡ some (false, l'))
              × Holds n l'' es
              × (resume ready_to_wake run fuel (schedule_now t) s l'
                  ≡ after_run ready_to_wake run
                      (record { pending = true; next_wake = none; trace = trace })
                      (run h s l''))))
  unfolding schedule_now schedule_after priority_after
  co_await_timer-wakes t s later lt' =
      let (l', suspend, is, _) = suspended in
      let parts =
        All-beyond sleeper es (All-map (λ y. t ≤ℤ expiry y) _ es (λ y q. omega arith) later) in
      let first : Holds n l' (sleeper ∷ es) = rw (parts.0, parts.1) at is in
      let (trace, rest) =
        resume-Due ready_to_wake run fuel n (schedule_now t) s l' [] sleeper es first enough tt
          (ready_of_lt sleeper.wake_condition (schedule_now t) lt') in
      (l', (rest.0, (trace, suspend, rest.1, rest.2)))
