-- ===== src/Scheduler/Requests/Levels.antt =====
-- Repeated calls of `resume` of the priority scheduler, as a main loop makes them.
use mathlib.Core.List.{reverse}
use baremetal_cxx_coro.Common.{
  ℕ, ◌<◌, ◌≡◌, refl, ap, Option, some, List, [], ◌∷◌, ◌++◌, map, length, if◌then◌else◌, All,
  All-map, Bool-cases, inl, inr, arith, ltb→lt, lt→ltb, not-ltb→le, suc, zero, false,
}
use baremetal_cxx_coro.Common.Int.{ℤ, ◌≤ℤ◌, ltb_ℤ}
use baremetal_cxx_coro.StaticList.{StaticList}
use baremetal_cxx_coro.StaticList.Validity.{Holds}
use baremetal_cxx_coro.Scheduler.{Entry, Handle}
use baremetal_cxx_coro.Scheduler.Resume.{Due}
use baremetal_cxx_coro.Scheduler.Delay.{◌<ℤ◌}
use baremetal_cxx_coro.Scheduler.Priority.{
  ScheduleByPriority, ready_to_wake, with_priority, priority, IsRanked, ready_of_le,
}
use baremetal_cxx_coro.Scheduler.Requests.{Ledger, resuming, perform_all, opened}
use baremetal_cxx_coro.Scheduler.Requests.Conserved.{handles}
use baremetal_cxx_coro.Scheduler.Requests.Drain.{turn, Passes, perform_all-turn}

-- The entries that have at least the priority `level`, and the others.
abbrev pub reaching : ℤ → List (Entry ScheduleByPriority) → List (Entry ScheduleByPriority)
reaching level [] = []
reaching level (x ∷ xs) =
    if ltb_ℤ (priority x) level then reaching level xs else x ∷ reaching level xs

abbrev pub below : ℤ → List (Entry ScheduleByPriority) → List (Entry ScheduleByPriority)
below level [] = []
below level (x ∷ xs) = if ltb_ℤ (priority x) level then x ∷ below level xs else below level xs

All-reaching :
    (level : ℤ) (es : List (Entry ScheduleByPriority))
    → All (λ y. level ≤ℤ priority y) (reaching level es)
All-reaching level [] = tt
All-reaching level (x ∷ xs) = elim (Bool-cases (ltb_ℤ (priority x) level)) [
  | inl r ↦ rw r (All-reaching level xs)
  | inr r ↦ rw r (not-ltb→le _ _ r, All-reaching level xs)
]

All-below :
    (level : ℤ) (es : List (Entry ScheduleByPriority))
    → All (λ y. priority y <ℤ level) (below level es)
All-below level [] = tt
All-below level (x ∷ xs) = elim (Bool-cases (ltb_ℤ (priority x) level)) [
  | inl r ↦ rw r (ltb→lt _ _ r, All-below level xs)
  | inr r ↦ rw r (All-below level xs)
]

-- Where all entries have lower priorities, none reaches the level.
reaching-none :
    (level : ℤ) (es : List (Entry ScheduleByPriority))
    → All (λ y. priority y <ℤ level) es
    → (reaching level es ≡ []) × (below level es ≡ es)
reaching-none level [] h = (refl, refl)
reaching-none level (x ∷ xs) h =
    let rest = reaching-none level xs h.1 in
    let r = lt→ltb _ _ h.0 in (rw r rest.0, rw r (ap (λ q. x ∷ q) rest.1))

reaching-append-below :
    (level : ℤ) (es : List (Entry ScheduleByPriority))
    → IsRanked es
    → reaching level es ++ below level es ≡ es
reaching-append-below level [] s = refl
reaching-append-below level (x ∷ xs) s = elim (Bool-cases (ltb_ℤ (priority x) level)) [
  | inl r ↦
      let lt = ltb→lt _ _ r in
      let rest = reaching-none level xs (All-map _ _ xs (λ y q. omega arith) s.0) in
      rw (r, rest.0, rest.1) refl
  | inr r ↦ rw r (ap (λ q. x ∷ q) (reaching-append-below level xs s.1))
]

-- A new entry with a priority below the level goes behind one that reaches it.
not_ready_of_lt : (c d : ScheduleByPriority) → c.priority <ℤ d.priority → ready_to_wake c d ≡ false
unfolding ready_to_wake
not_ready_of_lt c d h = rw (lt→ltb _ _ h)

abbrev pub copies : ℕ → ScheduleByPriority → List ScheduleByPriority
copies zero c = []
copies (suc k) c = c ∷ copies k c

length-copies : (k : ℕ) (c : ScheduleByPriority) → length (copies k c) ≡ k
length-copies zero c = refl
length-copies (suc k) c = ap suc (length-copies k c)

module _ {S : Type 0} (body : Handle → S → S × Option ScheduleByPriority) (fuel : ℕ)
    (blank : ScheduleByPriority) (n : ℕ) (level : ℤ) (s : S)
    (l : StaticList (Entry ScheduleByPriority)) (es : List (Entry ScheduleByPriority)) where
  -- The program after the coroutines of the entries that reach the level have run.
  abbrev pub outcome : Ledger ScheduleByPriority S
  outcome = turn ready_to_wake body (reaching level es) (opened s (below level es))

  conditions-Due :
      (k : ℕ)
      → All (λ c. All (Due ready_to_wake c) (reaching level es)) (copies k (with_priority level))
  unfolding with_priority
  conditions-Due zero = tt
  conditions-Due (suc k) = (
    All-map _ _ (reaching level es) (λ y le. ready_of_le y.wake_condition (with_priority level) le)
        (All-reaching level es),
    conditions-Due k,
  )

  await-Passes :
      (w : ScheduleByPriority)
      → w.priority <ℤ level
      → Passes ready_to_wake body (reaching level es) w
  await-Passes w lt =
      All-map _ _ (reaching level es) (λ y le. not_ready_of_lt w y.wake_condition (omega arith))
        (All-reaching level es)

  -- On a valid ranked list of n nodes, with more than n rounds of fuel, where coroutines await the
  -- scheduler again with priorities below `level`: as many calls of `resume` at that level as
  -- entries reach it succeed, run the coroutines of exactly these entries once each, in the order
  -- of the list, the highest priority first, and leave a valid list in which all priorities are
  -- below `level`.
  pub resume-reaching :
      Holds n l es
      → n < fuel
      → IsRanked es
      → ((h : Handle) (s' : S) (w : ScheduleByPriority)
          → (body h s').1 ≡ some w
          → w.priority <ℤ level)
      → (l' : StaticList (Entry ScheduleByPriority)) × (perform_all ready_to_wake body fuel blank
            (map resuming (copies (length (reaching level es)) (with_priority level)))
            s
            l
          ≡ some (outcome.state, l'))
        × Holds n l' outcome.queue
        × (outcome.ran ≡ reverse (handles (reaching level es)))
        × All (λ y. priority y <ℤ level) outcome.queue
  resume-reaching holds enough ranked again =
      let k = length (reaching level es) in
      perform_all-turn ready_to_wake body fuel n blank (copies k (with_priority level)) s l es
        (reaching level es) (below level es) (λ y. priority y <ℤ level) holds enough
        (reaching-append-below level es ranked) (length-copies k (with_priority level))
        (conditions-Due k) (All-below level es)
        (λ h s' w e. (await-Passes w (again h s' w e), again h s' w e))
