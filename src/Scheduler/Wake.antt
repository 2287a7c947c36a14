-- ===== src/Scheduler/Wake.antt =====
-- `resume` of the delay scheduler on a sorted waiting list, and the time to the next wake-up.
use baremetal_cxx_coro.Common.{
  ℕ, ◌<◌, ◌≡◌, refl, ◌∙◌, ap, true, Option, none, some, List, [], ◌∷◌, arith, ltb→lt, not-ltb→le,
  All, All-map, Bool-cases, inl, inr,
}
use baremetal_cxx_coro.Common.Int.{ℤ, pos, ◌+ℤ◌, ◌-ℤ◌, ◌≤ℤ◌, ltb_ℤ, +ℤ_parts, -ℤ_parts, eq_of_parts}
use baremetal_cxx_coro.StaticList.{StaticList}
use baremetal_cxx_coro.StaticList.Validity.{Holds}
use baremetal_cxx_coro.Scheduler.{
  Entry, Handle, UpdateTrace, resume, after_run, keep_priority, replaces,
}
use baremetal_cxx_coro.Scheduler.Resume.{Waits, priority_after, resume-Due, resume-idle}
use baremetal_cxx_coro.Scheduler.Delay.{
  ScheduleByDelay, ready_to_wake, delay, schedule_now, expiry, IsSorted, ◌<ℤ◌, ready_of_lt,
  le_of_not_ready, not_ready_of_le,
}

-- The condition of the last entry.
abbrev pub last_condition : Entry ScheduleByDelay → List (Entry ScheduleByDelay) → ScheduleByDelay
last_condition x [] = x.wake_condition
last_condition x (y ∷ ys) = last_condition y ys

eq_of_expires : (c d : ScheduleByDelay) → c.expires ≤ℤ d.expires → d.expires ≤ℤ c.expires → c ≡ d
eq_of_expires c d p q = λ i. record { expires = eq_of_parts c.expires d.expires (omega arith) i }

priority_after-last :
    (x : Entry ScheduleByDelay) (xs : List (Entry ScheduleByDelay))
    → IsSorted (x ∷ xs)
    → priority_after ready_to_wake (some x.wake_condition) xs ≡ some (last_condition x xs)
unfolding priority_after keep_priority replaces
priority_after-last x [] s = refl
priority_after-last x (y ∷ ys) s =
    elim (Bool-cases (ready_to_wake x.wake_condition y.wake_condition)) [
      | inl r ↦ rw r (priority_after-last y ys s.1)
      | inr r ↦
          rw
            (
              r,
              eq_of_expires x.wake_condition y.wake_condition s.0.0
                  (le_of_not_ready x.wake_condition y.wake_condition r),
            )
            (priority_after-last y ys s.1)
    ]

first-le-last :
    (x : Entry ScheduleByDelay) (xs : List (Entry ScheduleByDelay))
    → IsSorted (x ∷ xs)
    → expiry x ≤ℤ (last_condition x xs).expires
first-le-last x [] s = omega arith
first-le-last x (y ∷ ys) s = let le = first-le-last y ys s.1 in let lt = s.0.0 in omega arith

-- The time until a wake-up is never negative, it leads to the expiry of a condition that lies
-- ahead, and it is nothing for one that does not.
pub delay-expires :
    (now : ℤ) (c : ScheduleByDelay)
    → (pos 0 ≤ℤ delay now c)
      × (now <ℤ c.expires → now +ℤ delay now c ≡ c.expires)
      × (c.expires ≤ℤ now → delay now c ≡ pos 0)
unfolding delay
delay-expires now c = elim (Bool-cases (ltb_ℤ now c.expires)) [
  | inl r ↦
      let lt = ltb→lt _ _ r in
      rw r (
        omega (arith, -ℤ_parts c.expires now),
        λ _.
            eq_of_parts _ _
              (omega (arith, -ℤ_parts c.expires now, +ℤ_parts now (c.expires -ℤ now))),
        λ le. absurd (omega arith),
      )
  | inr r ↦ let le = not-ltb→le _ _ r in rw r (omega arith, λ lt. absurd (omega arith), λ _. refl)
]

module _ {S : Type 0}
    (run : Handle
      → S
      → StaticList (Entry ScheduleByDelay)
      → Option (S × StaticList (Entry ScheduleByDelay))) where
  -- On a valid sorted list of n nodes, with more than n rounds of fuel, whose first entry has
  -- expired before `now`: `resume` takes it off, which expires no later than the others, resumes
  -- its handle on the valid list of the others, and if that returns reports true and no next
  -- condition.
  pub resume-earliest :
      (fuel n : ℕ) (now : ℤ) (s : S) (l : StaticList (Entry ScheduleByDelay))
      (x : Entry ScheduleByDelay) (xs : List (Entry ScheduleByDelay))
      → Holds n l (x ∷ xs)
      → n < fuel
      → IsSorted (x ∷ xs)
      → expiry x <ℤ now
      → (t : UpdateTrace) × ((l' : StaticList (Entry ScheduleByDelay)) × Holds n l' xs
          × All (λ y. expiry x ≤ℤ expiry y) xs
          × (resume ready_to_wake run fuel (schedule_now now) s l
              ≡ after_run ready_to_wake run
                  (record { pending = true; next_wake = none; trace = t })
                  (run x.handle s l')))
  unfolding schedule_now priority_after
  resume-earliest fuel n now s l x xs holds enough sorted lt =
      let (t, rest) =
        resume-Due ready_to_wake run fuel n (schedule_now now) s l [] x xs holds enough tt
          (ready_of_lt x.wake_condition (schedule_now now) lt) in
      (t, (rest.0, rest.1, sorted.0, rest.2))

  -- On a valid sorted list of n nodes, with more than n rounds of fuel, whose first entry has not
  -- expired before `now`: `resume` runs nothing, changes nothing, and reports true and the
  -- condition of the last entry.
  pub resume-latest :
      (fuel n : ℕ) (now : ℤ) (s : S) (l : StaticList (Entry ScheduleByDelay))
      (x : Entry ScheduleByDelay) (xs : List (Entry ScheduleByDelay))
      → Holds n l (x ∷ xs)
      → n < fuel
      → IsSorted (x ∷ xs)
      → now ≤ℤ expiry x
      → (t : UpdateTrace) × (resume ready_to_wake run fuel (schedule_now now) s l
          ≡ some
              (record { pending = true; next_wake = some (last_condition x xs); trace = t }, s, l))
  unfolding schedule_now priority_after keep_priority replaces
  resume-latest fuel n now s l x xs holds enough sorted le =
      let wait = λ (y : Entry ScheduleByDelay) (q : expiry x ≤ℤ expiry y).
        not_ready_of_le y.wake_condition (schedule_now now) (omega arith) in
      let (t, result) =
        resume-idle ready_to_wake run fuel n (schedule_now now) s l (x ∷ xs) holds enough (
          not_ready_of_le x.wake_condition (schedule_now now) le,
          All-map _ (Waits ready_to_wake (schedule_now now)) xs wait sorted.0,
        ) in
      (
        t,
        result
            ∙ ap (λ w. some (record { pending = true; next_wake = w; trace = t }, s, l))
                (priority_after-last x xs sorted),
      )

-- The condition that `resume` reports when it runs nothing is not the soonest: where the first
-- entry of a sorted list expires before the last one, a caller that waits until the reported
-- condition's delay has passed waits beyond the expiry of the first.
pub delay-past_first :
    (now : ℤ) (x : Entry ScheduleByDelay) (xs : List (Entry ScheduleByDelay))
    → now ≤ℤ expiry x
    → expiry x <ℤ (last_condition x xs).expires
    → expiry x <ℤ now +ℤ delay now (last_condition x xs)
delay-past_first now x xs le lt = rw ((delay-expires now (last_condition x xs)).1 (omega arith)) lt

module _ {S : Type 0}
    (run : Handle
      → S
      → StaticList (Entry ScheduleByDelay)
      → Option (S × StaticList (Entry ScheduleByDelay))) where
  -- On a valid sorted list of n nodes, with more than n rounds of fuel, whose first entry has not
  -- expired before `now` and expires before the last one: `resume` changes nothing and reports a
  -- condition whose delay from `now` leads beyond the expiry of the first entry.
  pub resume-oversleeps :
      (fuel n : ℕ) (now : ℤ) (s : S) (l : StaticList (Entry ScheduleByDelay))
      (x : Entry ScheduleByDelay) (xs : List (Entry ScheduleByDelay))
      → Holds n l (x ∷ xs)
      → n < fuel
      → IsSorted (x ∷ xs)
      → now ≤ℤ expiry x
      → expiry x <ℤ (last_condition x xs).expires
      → (t : UpdateTrace) × ((w : ScheduleByDelay) × (resume ready_to_wake run fuel
              (schedule_now now)
              s
              l
            ≡ some (record { pending = true; next_wake = some w; trace = t }, s, l))
          × (expiry x <ℤ now +ℤ delay now w))
  resume-oversleeps fuel n now s l x xs holds enough sorted le lt =
      let (t, result) = resume-latest run fuel n now s l x xs holds enough sorted le in
      (t, (last_condition x xs, result, delay-past_first now x xs le lt))
