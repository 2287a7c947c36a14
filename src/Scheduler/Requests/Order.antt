-- ===== src/Scheduler/Requests/Order.antt =====
-- The order of the waiting list over every sequence of calls of `insert` and `resume`.
use baremetal_cxx_coro.Common.{
  ℕ, ◌<◌, ◌≡◌, ap, subst, ◌∙◌, Option, none, some, List, [], ◌∷◌, ◌++◌, length, ltb, Bool,
  Bool-cases, inl, inr, All,
}
use baremetal_cxx_coro.StaticList.{StaticList}
use baremetal_cxx_coro.StaticList.Validity.{Holds}
use baremetal_cxx_coro.Scheduler.{Entry, Handle, entry}
use baremetal_cxx_coro.Scheduler.Spec.{insert_entry}
use baremetal_cxx_coro.Scheduler.Delay
use baremetal_cxx_coro.Scheduler.Delay.{ScheduleByDelay, IsSorted, insert_entry-IsSorted}
use baremetal_cxx_coro.Scheduler.Priority
use baremetal_cxx_coro.Scheduler.Priority.{ScheduleByPriority, IsRanked, insert_entry-IsRanked}
use baremetal_cxx_coro.Scheduler.Requests.{
  Request, inserting, resuming, Ledger, first_due, first_due-none, first_due-some, search_due,
  perform_all, enter, enter_all, enter_again, opened,
}
use baremetal_cxx_coro.Scheduler.Requests.Conserved.{perform_all-enter_all}

module _ {W S : Type 0} (ready_to_wake : W → W → Bool) (body : Handle → S → S × Option W) (n : ℕ)
    (P : List (Entry W) → Type 0)
    (insert_keeps : (e : Entry W) (es : List (Entry W))
      → P es
      → P (insert_entry ready_to_wake e es))
    (removal_keeps : (ms : List (Entry W)) (x : Entry W) (rs : List (Entry W))
      → P (ms ++ x ∷ rs)
      → P (ms ++ rs)) where
  enter_again-keeps :
      (h : Handle) (sw : S × Option W) (g : Ledger W S)
      → P g.queue
      → P (enter_again ready_to_wake body h sw g).queue
  enter_again-keeps h (s, none) g p = p
  enter_again-keeps h (s, some w) g p = insert_keeps (entry h w) g.queue p

  enter-keeps :
      (r : Request W) (g : Ledger W S) → P g.queue → P (enter ready_to_wake body n r g).queue
  unfolding enter
  enter-keeps (inserting h w) g p = elim (Bool-cases (ltb (length g.queue) n)) [
    | inl room ↦ rw room (insert_keeps (entry h w) g.queue p)
    | inr full ↦ rw full p
  ]
  enter-keeps (resuming ready) g p = elim (search_due ready_to_wake ready g.queue) [
    | inl ws ↦ rw (first_due-none ready_to_wake ready g.queue ws) p
    | inr f ↦
        rw
          (ap (first_due ready_to_wake ready) f.parts
            ∙ first_due-some ready_to_wake ready f.front f.due f.rear f.front_waits f.due_now)
          (enter_again-keeps f.due.handle (body f.due.handle g.state)
            (record g { queue = f.front ++ f.rear; ran = f.due.handle ∷ g.ran })
            (removal_keeps f.front f.due f.rear (subst P f.parts p)))
  ]

  -- What insertion and removal keep, every sequence of calls keeps.
  enter_all-keeps :
      (rs : List (Request W)) (g : Ledger W S)
      → P g.queue
      → P (enter_all ready_to_wake body n rs g).queue
  unfolding enter_all
  enter_all-keeps [] g p = p
  enter_all-keeps (r ∷ rs) g p =
      enter_all-keeps rs (enter ready_to_wake body n r g) (enter-keeps r g p)

All-removal :
    {W : Type 0} (P : Entry W → Type 0) (ms : List (Entry W)) (x : Entry W) (rs : List (Entry W))
    → All P (ms ++ x ∷ rs)
    → All P (ms ++ rs)
All-removal P [] x rs h = h.1
All-removal P (m ∷ ms) x rs h = (h.0, All-removal P ms x rs h.1)

IsSorted-removal :
    (ms : List (Entry ScheduleByDelay)) (x : Entry ScheduleByDelay)
    (rs : List (Entry ScheduleByDelay))
    → IsSorted (ms ++ x ∷ rs)
    → IsSorted (ms ++ rs)
IsSorted-removal [] x rs s = s.1
IsSorted-removal (m ∷ ms) x rs s = (All-removal _ ms x rs s.0, IsSorted-removal ms x rs s.1)

IsRanked-removal :
    (ms : List (Entry ScheduleByPriority)) (x : Entry ScheduleByPriority)
    (rs : List (Entry ScheduleByPriority))
    → IsRanked (ms ++ x ∷ rs)
    → IsRanked (ms ++ rs)
IsRanked-removal [] x rs s = s.1
IsRanked-removal (m ∷ ms) x rs s = (All-removal _ ms x rs s.0, IsRanked-removal ms x rs s.1)

-- On a valid sorted list of n nodes, with more than n rounds of fuel, every sequence of calls of
-- `insert` and `resume` of the delay scheduler, with coroutines that may await it again when they
-- run, succeeds and leaves a valid sorted list.
pub perform_all-IsSorted :
    {S : Type 0} (body : Handle → S → S × Option ScheduleByDelay) (fuel : ℕ)
    (blank : ScheduleByDelay) (n : ℕ) (rs : List (Request ScheduleByDelay)) (s : S)
    (l : StaticList (Entry ScheduleByDelay)) (es : List (Entry ScheduleByDelay))
    → Holds n l es
    → n < fuel
    → IsSorted es
    → (s' : S) × ((l' : StaticList (Entry ScheduleByDelay)) × ((es' : List (Entry ScheduleByDelay))
          × (perform_all Delay.ready_to_wake body fuel blank rs s l ≡ some (s', l'))
          × Holds n l' es'
          × IsSorted es'))
perform_all-IsSorted body fuel blank n rs s l es holds enough sorted =
    let (l', run, is) =
      perform_all-enter_all Delay.ready_to_wake body fuel blank n enough rs l (opened s es) holds in
    let g = enter_all Delay.ready_to_wake body n rs (opened s es) in
    (
      g.state,
      (
        l',
        (
          g.queue,
          run,
          is,
          enter_all-keeps Delay.ready_to_wake body n IsSorted insert_entry-IsSorted IsSorted-removal
              rs (opened s es) sorted,
        ),
      ),
    )

-- The same of a ranked list and the priority scheduler.
pub perform_all-IsRanked :
    {S : Type 0} (body : Handle → S → S × Option ScheduleByPriority) (fuel : ℕ)
    (blank : ScheduleByPriority) (n : ℕ) (rs : List (Request ScheduleByPriority)) (s : S)
    (l : StaticList (Entry ScheduleByPriority)) (es : List (Entry ScheduleByPriority))
    → Holds n l es
    → n < fuel
    → IsRanked es
    → (s' : S) × ((l' : StaticList (Entry ScheduleByPriority)) × ((es' : List
            (Entry ScheduleByPriority))
          × (perform_all Priority.ready_to_wake body fuel blank rs s l ≡ some (s', l'))
          × Holds n l' es'
          × IsRanked es'))
perform_all-IsRanked body fuel blank n rs s l es holds enough ranked =
    let (l', run, is) =
      perform_all-enter_all Priority.ready_to_wake body fuel blank n enough rs l (opened s es)
        holds in
    let g = enter_all Priority.ready_to_wake body n rs (opened s es) in
    (
      g.state,
      (
        l',
        (
          g.queue,
          run,
          is,
          enter_all-keeps Priority.ready_to_wake body n IsRanked insert_entry-IsRanked
              IsRanked-removal rs (opened s es) ranked,
        ),
      ),
    )
