-- ===== src/Scheduler/Requests/Deadlines.antt =====
-- Repeated calls of `resume` of the delay scheduler, as a main loop makes them.
use mathlib.Core.List.{reverse}
use baremetal_cxx_coro.Common.{
  ℕ, ◌<◌, ◌≡◌, refl, ◌∙◌, ap, Option, some, List, [], ◌∷◌, ◌++◌, map, length, length-map,
  if◌then◌else◌, All, All-map, Bool-cases, inl, inr, arith, ltb→lt, not-ltb→le, le→not-ltb,
}
use baremetal_cxx_coro.Common.Int.{ℤ, ◌≤ℤ◌, ltb_ℤ}
use baremetal_cxx_coro.StaticList.{StaticList}
use baremetal_cxx_coro.StaticList.Validity.{Holds}
use baremetal_cxx_coro.Scheduler.{Entry, Handle}
use baremetal_cxx_coro.Scheduler.Resume.{Due}
use baremetal_cxx_coro.Scheduler.Delay.{
  ScheduleByDelay, ready_to_wake, schedule_now, expiry, IsSorted, ◌<ℤ◌, ready_of_lt,
  not_ready_of_le,
}
use baremetal_cxx_coro.Scheduler.Requests.{Ledger, resuming, perform_all, opened}
use baremetal_cxx_coro.Scheduler.Requests.Conserved.{handles}
use baremetal_cxx_coro.Scheduler.Requests.Drain.{turn, Passes, perform_all-turn}

-- The entries that expire before `t`, and the others.
abbrev pub expired : ℤ → List (Entry ScheduleByDelay) → List (Entry ScheduleByDelay)
expired t [] = []
expired t (x ∷ xs) = if ltb_ℤ (expiry x) t then x ∷ expired t xs else expired t xs

abbrev pub pending : ℤ → List (Entry ScheduleByDelay) → List (Entry ScheduleByDelay)
pending t [] = []
pending t (x ∷ xs) = if ltb_ℤ (expiry x) t then pending t xs else x ∷ pending t xs

All-expired : (t : ℤ) (es : List (Entry ScheduleByDelay)) → All (λ y. expiry y <ℤ t) (expired t es)
All-expired t [] = tt
All-expired t (x ∷ xs) = elim (Bool-cases (ltb_ℤ (expiry x) t)) [
  | inl r ↦ rw r (ltb→lt _ _ r, All-expired t xs)
  | inr r ↦ rw r (All-expired t xs)
]

All-pending : (t : ℤ) (es : List (Entry ScheduleByDelay)) → All (λ y. t ≤ℤ expiry y) (pending t es)
All-pending t [] = tt
All-pending t (x ∷ xs) = elim (Bool-cases (ltb_ℤ (expiry x) t)) [
  | inl r ↦ rw r (All-pending t xs)
  | inr r ↦ rw r (not-ltb→le _ _ r, All-pending t xs)
]

-- Where all entries expire at `t` or later, none has expired.
expired-none :
    (t : ℤ) (es : List (Entry ScheduleByDelay))
    → All (λ y. t ≤ℤ expiry y) es
    → (expired t es ≡ []) × (pending t es ≡ es)
expired-none t [] h = (refl, refl)
expired-none t (x ∷ xs) h =
    let rest = expired-none t xs h.1 in
    let r = le→not-ltb _ _ h.0 in (rw r rest.0, rw r (ap (λ q. x ∷ q) rest.1))

expired-append-pending :
    (t : ℤ) (es : List (Entry ScheduleByDelay)) → IsSorted es → expired t es ++ pending t es ≡ es
expired-append-pending t [] s = refl
expired-append-pending t (x ∷ xs) s = elim (Bool-cases (ltb_ℤ (expiry x) t)) [
  | inl r ↦ rw r (ap (λ q. x ∷ q) (expired-append-pending t xs s.1))
  | inr r ↦
      let le = not-ltb→le _ _ r in
      let rest = expired-none t xs (All-map _ _ xs (λ y q. omega arith) s.0) in
      rw (r, rest.0, rest.1) refl
]

module _ {S : Type 0} (body : Handle → S → S × Option ScheduleByDelay) (fuel : ℕ)
    (blank : ScheduleByDelay) (n : ℕ) (t : ℤ) (times : List ℤ) (s : S)
    (l : StaticList (Entry ScheduleByDelay)) (es : List (Entry ScheduleByDelay)) where
  -- The program after the coroutines of the entries that expire before `t` have run.
  abbrev pub outcome : Ledger ScheduleByDelay S
  outcome = turn ready_to_wake body (expired t es) (opened s (pending t es))

  conditions-Due :
      (ts : List ℤ)
      → All (λ t'. t ≤ℤ t') ts
      → All (λ c. All (Due ready_to_wake c) (expired t es)) (map schedule_now ts)
  unfolding schedule_now
  conditions-Due [] h = tt
  conditions-Due (u ∷ us) h = (
    All-map _ _ (expired t es) (λ y lt. ready_of_lt y.wake_condition (schedule_now u) (omega arith))
        (All-expired t es),
    conditions-Due us h.1,
  )

  await-Passes : (w : ScheduleByDelay) → t ≤ℤ w.expires → Passes ready_to_wake body (expired t es) w
  await-Passes w le =
      All-map _ _ (expired t es) (λ y lt. not_ready_of_le w y.wake_condition (omega arith))
        (All-expired t es)

  -- On a valid sorted list of n nodes, with more than n rounds of fuel, where coroutines await the
  -- scheduler again until `t` at the earliest: as many calls of `resume` as entries expire before
  -- `t`, each at a time that is not before `t`, succeed, run the coroutines of exactly these
  -- entries once each, in the order of the list, the earliest first, and leave a valid list in
  -- which all entries expire at `t` or later.
  pub resume-expired :
      Holds n l es
      → n < fuel
      → IsSorted es
      → length times ≡ length (expired t es)
      → All (λ t'. t ≤ℤ t') times
      → ((h : Handle) (s' : S) (w : ScheduleByDelay) → (body h s').1 ≡ some w → t ≤ℤ w.expires)
      → (l' : StaticList (Entry ScheduleByDelay)) × (perform_all ready_to_wake body fuel blank
            (map resuming (map schedule_now times))
            s
            l
          ≡ some (outcome.state, l'))
        × Holds n l' outcome.queue
        × (outcome.ran ≡ reverse (handles (expired t es)))
        × All (λ y. t ≤ℤ expiry y) outcome.queue
  resume-expired holds enough sorted size later again =
      perform_all-turn ready_to_wake body fuel n blank (map schedule_now times) s l es
        (expired t es) (pending t es) (λ y. t ≤ℤ expiry y) holds enough
        (expired-append-pending t es sorted) (length-map times schedule_now ∙ size)
        (conditions-Due times later) (All-pending t es)
        (λ h s' w e. (await-Passes w (again h s' w e), again h s' w e))
