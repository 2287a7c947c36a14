-- ===== src/Scheduler/Priority.antt =====
-- `schedule_by_priority`: wake conditions that are priorities, and the order in which they wake.
use baremetal_cxx_coro.Common.{
  ℕ, ◌<◌, ◌≤◌, ◌≡◌, refl, ap, subst, some, length, ◌++◌, if◌then◌else◌, Bool, true, false, Option,
  none, List, [], ◌∷◌, arith, All, All-map, Bool-cases, inl, inr, ltb→lt, not-ltb→le, le→not-ltb,
  not,
}
use baremetal_cxx_coro.Common.Int.{ℤ, pos, ◌≤ℤ◌, ltb_ℤ}
use baremetal_cxx_coro.StaticList.{StaticList}
use baremetal_cxx_coro.StaticList.Validity.{Holds}
use baremetal_cxx_coro.Scheduler.{Entry, Handle, UpdateTrace, entry, insert, resume, after_run}
use baremetal_cxx_coro.Scheduler.Insert.{insert-insert_entry}
use baremetal_cxx_coro.Scheduler.Spec.{insert_entry, All-insert}
use baremetal_cxx_coro.Scheduler.Resume.{priority_after, resume-Due}

pub record ScheduleByPriority : Type 0 where
  pub priority : ℤ

unfoldable pub with_priority : ℤ → ScheduleByPriority
with_priority p = record { priority = p }

abbrev pub default_priority : ScheduleByPriority
default_priority = record { priority = pos 0 }

-- `priority_ >= current_state.priority_`
unfoldable pub ready_to_wake : ScheduleByPriority → ScheduleByPriority → Bool
ready_to_wake c current_state = not (ltb_ℤ c.priority current_state.priority)

abbrev pub priority : Entry ScheduleByPriority → ℤ
priority e = e.wake_condition.priority

-- Higher priorities stand in front.
abbrev pub IsRanked : List (Entry ScheduleByPriority) → Type 0
IsRanked [] = Unit
IsRanked (x ∷ xs) = All (λ y. priority y ≤ℤ priority x) xs × IsRanked xs

le_of_ready : (c d : ScheduleByPriority) → ready_to_wake c d ≡ true → d.priority ≤ℤ c.priority
unfolding ready_to_wake
le_of_ready c d h = not-ltb→le _ _ (ground arith)

pub ready_of_le : (c d : ScheduleByPriority) → d.priority ≤ℤ c.priority → ready_to_wake c d ≡ true
unfolding ready_to_wake
ready_of_le c d h = rw (le→not-ltb _ _ h)

le_of_not_ready : (c d : ScheduleByPriority) → ready_to_wake c d ≡ false → c.priority ≤ℤ d.priority
unfolding ready_to_wake
le_of_not_ready c d h =
    let r : ltb_ℤ c.priority d.priority ≡ true = ground arith in
    let lt = ltb→lt _ _ r in omega arith

-- Ordered insertion keeps the highest priorities in front.
pub insert_entry-IsRanked :
    (e : Entry ScheduleByPriority) (xs : List (Entry ScheduleByPriority))
    → IsRanked xs
    → IsRanked (insert_entry ready_to_wake e xs)
unfolding insert_entry
insert_entry-IsRanked e [] s = (tt, tt)
insert_entry-IsRanked e (x ∷ xs) s =
    elim (Bool-cases (ready_to_wake e.wake_condition x.wake_condition)) [
      | inl r ↦
          let le = le_of_ready e.wake_condition x.wake_condition r in
          rw r ((le, All-map _ _ xs (λ y q. omega arith) s.0), s)
      | inr r ↦
          let le = le_of_not_ready e.wake_condition x.wake_condition r in
          rw r (All-insert ready_to_wake _ e xs le s.0, insert_entry-IsRanked e xs s.1)
    ]

-- The entries with a priority higher than that of `e`, and the others.
abbrev pub higher :
    Entry ScheduleByPriority → List (Entry ScheduleByPriority) → List (Entry ScheduleByPriority)
higher e [] = []
higher e (x ∷ xs) = if ltb_ℤ (priority e) (priority x) then x ∷ higher e xs else higher e xs

abbrev pub up_to :
    Entry ScheduleByPriority → List (Entry ScheduleByPriority) → List (Entry ScheduleByPriority)
up_to e [] = []
up_to e (x ∷ xs) = if ltb_ℤ (priority e) (priority x) then up_to e xs else x ∷ up_to e xs

pub All-up_to :
    (e : Entry ScheduleByPriority) (xs : List (Entry ScheduleByPriority))
    → All (λ y. priority y ≤ℤ priority e) xs
    → (higher e xs ≡ []) × (up_to e xs ≡ xs)
All-up_to e [] h = (refl, refl)
All-up_to e (x ∷ xs) h =
    let r = le→not-ltb _ _ h.0 in
    let rest = All-up_to e xs h.1 in (rw r rest.0, rw r (ap (λ t. x ∷ t) rest.1))

insert_entry-in_turn :
    (e : Entry ScheduleByPriority) (xs : List (Entry ScheduleByPriority))
    → IsRanked xs
    → insert_entry ready_to_wake e xs ≡ higher e xs ++ e ∷ up_to e xs
unfolding insert_entry ready_to_wake
insert_entry-in_turn e [] s = refl
insert_entry-in_turn e (x ∷ xs) s = elim (Bool-cases (ltb_ℤ (priority e) (priority x))) [
  | inl r ↦ rw r (ap (λ t. x ∷ t) (insert_entry-in_turn e xs s.1))
  | inr r ↦
      let le = not-ltb→le _ _ r in
      let rest = All-up_to e xs (All-map _ _ xs (λ y q. omega arith) s.0) in
      rw (r, rest.0, rest.1) refl
]

-- On a valid ranked list of n nodes that is not full, with fuel for n rounds, `insert` succeeds,
-- and the list is valid and ranked, with the new entry behind all of a higher priority and in front
-- of the others, each of these in their order.
pub insert-in_front :
    (fuel n : ℕ) (blank w : ScheduleByPriority) (h : Handle)
    (l : StaticList (Entry ScheduleByPriority)) (es : List (Entry ScheduleByPriority))
    → Holds n l es
    → length es < n
    → n ≤ fuel
    → IsRanked es
    → (l' : StaticList (Entry ScheduleByPriority)) × (insert ready_to_wake fuel blank h w l
        ≡ some (tt, l'))
      × Holds n l' (higher (entry h w) es ++ entry h w ∷ up_to (entry h w) es)
      × IsRanked (higher (entry h w) es ++ entry h w ∷ up_to (entry h w) es)
insert-in_front fuel n blank w h l es holds lt enough ranked =
    let (l', run, is) = insert-insert_entry ready_to_wake fuel n blank w h l es holds lt enough in
    let e = insert_entry-in_turn (entry h w) es ranked in
    (
      l',
      run,
      subst (Holds n l') e is,
      subst IsRanked e (insert_entry-IsRanked (entry h w) es ranked),
    )

module _ {S : Type 0}
    (run : Handle
      → S
      → StaticList (Entry ScheduleByPriority)
      → Option (S × StaticList (Entry ScheduleByPriority))) where
  -- On a valid ranked list of n nodes, with more than n rounds of fuel, whose first entry has at
  -- least the priority `level`: `resume` takes it off, which has at least the priority of the
  -- others, resumes its handle on the valid list of the others, and if that returns reports true
  -- and no next condition.
  pub resume-highest :
      (fuel n : ℕ) (level : ℤ) (s : S) (l : StaticList (Entry ScheduleByPriority))
      (x : Entry ScheduleByPriority) (xs : List (Entry ScheduleByPriority))
      → Holds n l (x ∷ xs)
      → n < fuel
      → IsRanked (x ∷ xs)
      → level ≤ℤ priority x
      → (t : UpdateTrace) × ((l' : StaticList (Entry ScheduleByPriority)) × Holds n l' xs
          × All (λ y. priority y ≤ℤ priority x) xs
          × (resume ready_to_wake run fuel (with_priority level) s l
              ≡ after_run ready_to_wake run
                  (record { pending = true; next_wake = none; trace = t })
                  (run x.handle s l')))
  unfolding with_priority priority_after
  resume-highest fuel n level s l x xs holds enough ranked le =
      let (t, rest) =
        resume-Due ready_to_wake run fuel n (with_priority level) s l [] x xs holds enough tt
          (ready_of_le x.wake_condition (with_priority level) le) in
      (t, (rest.0, rest.1, ranked.0, rest.2))
