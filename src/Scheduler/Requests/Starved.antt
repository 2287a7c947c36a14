-- ===== src/Scheduler/Requests/Starved.antt =====
-- A coroutine that awaits a priority that no other one exceeds, time and again.
use baremetal_cxx_coro.Common.{
  ℕ, zero, suc, ◌<◌, ◌≡◌, refl, ◌∙◌, ap, subst, Option, some, List, [], ◌∷◌, map, All,
}
use baremetal_cxx_coro.Common.Int.{ℤ, ◌≤ℤ◌}
use baremetal_cxx_coro.StaticList.{StaticList}
use baremetal_cxx_coro.StaticList.Validity.{Holds}
use baremetal_cxx_coro.Scheduler.{Entry, Handle, entry}
use baremetal_cxx_coro.Scheduler.Spec.{insert_entry}
use baremetal_cxx_coro.Scheduler.Priority.{
  ScheduleByPriority, ready_to_wake, with_priority, priority, ready_of_le,
}
use baremetal_cxx_coro.Scheduler.Requests.{
  Ledger, resuming, perform_all, enter, enter_all, enter_again, first_due, opened,
}
use baremetal_cxx_coro.Scheduler.Requests.Conserved.{perform_all-enter_all}
use baremetal_cxx_coro.Scheduler.Requests.Levels.{copies}

module _ {S : Type 0} (body : Handle → S → S × Option ScheduleByPriority) where
  -- The coroutine runs k times.
  unfoldable pub runs : ℕ → Handle → S → S
  runs zero h s = s
  runs (suc k) h s = runs k h (body h s).0

module _ {S : Type 0} (body : Handle → S → S × Option ScheduleByPriority) (n : ℕ) (level p : ℤ)
    (h : Handle) (xs : List (Entry ScheduleByPriority)) (enough : level ≤ℤ p)
    (others : All (λ y. priority y ≤ℤ p) xs)
    (again : (s : S) → (body h s).1 ≡ some (with_priority p)) where
  insert_first :
      (ys : List (Entry ScheduleByPriority))
      → All (λ y. priority y ≤ℤ p) ys
      → insert_entry ready_to_wake (entry h (with_priority p)) ys ≡ entry h (with_priority p) ∷ ys
  unfolding insert_entry with_priority
  insert_first [] le = refl
  insert_first (y ∷ ys) le = rw (ready_of_le (with_priority p) y.wake_condition le.0)

  -- What the ledger is after the coroutine has run.
  abbrev after : Ledger ScheduleByPriority S → Ledger ScheduleByPriority S
  after g = record g {
    state = (body h g.state).0;
    queue = entry h (with_priority p) ∷ xs;
    queued = h ∷ g.queued;
    ran = h ∷ g.ran;
  }

  enter_again-after :
      (sw : S × Option ScheduleByPriority) (g : Ledger ScheduleByPriority S)
      → sw.1 ≡ some (with_priority p)
      → enter_again ready_to_wake body h sw (record g { queue = xs; ran = h ∷ g.ran }) ≡ record g {
        state = sw.0;
        queue = entry h (with_priority p) ∷ xs;
        queued = h ∷ g.queued;
        ran = h ∷ g.ran;
      }
  enter_again-after (s, w) g e = rw e (rw (insert_first xs others))

  enter-after :
      (w : ScheduleByPriority) (g : Ledger ScheduleByPriority S)
      → level ≤ℤ w.priority
      → enter ready_to_wake body n
          (resuming (with_priority level))
          (record g { queue = entry h w ∷ xs })
        ≡ after g
  unfolding enter first_due with_priority
  enter-after w g le =
      rw (ready_of_le w (with_priority level) le)
        (enter_again-after (body h g.state) g (again g.state))

  starved_ledger :
      (k : ℕ) (w : ScheduleByPriority) (g : Ledger ScheduleByPriority S)
      → level ≤ℤ w.priority
      → (v : ScheduleByPriority) × ((enter_all ready_to_wake body n
            (map resuming (copies k (with_priority level)))
            (record g { queue = entry h w ∷ xs })).queue
          ≡ entry h v ∷ xs)
        × ((enter_all ready_to_wake body n
              (map resuming (copies k (with_priority level)))
              (record g { queue = entry h w ∷ xs })).state
            ≡ runs body k h g.state)
  unfolding enter_all runs with_priority
  starved_ledger zero w g le = (w, refl, refl)
  starved_ledger (suc k) w g le =
      let rest = starved_ledger k (with_priority p) (after g) enough in
      let q = map resuming (copies k (with_priority level)) in
      let step = ap (enter_all ready_to_wake body n q) (enter-after w g le) in
      (rest.0, ap (λ g'. g'.queue) step ∙ rest.1, ap (λ g'. g'.state) step ∙ rest.2)

  -- On a valid list of n nodes, with more than n rounds of fuel, whose first entry is of a
  -- coroutine that has a priority of at least `level`, and that whenever it runs awaits the
  -- scheduler again with a priority `p` of at least `level` and of at least those of all other
  -- entries: any number of calls of `resume` at that level succeeds and runs this coroutine at each
  -- call and no other, and it stands first again, in front of the others.
  pub resume-starves :
      (fuel k : ℕ) (blank w : ScheduleByPriority) (s : S)
      (l : StaticList (Entry ScheduleByPriority))
      → Holds n l (entry h w ∷ xs)
      → n < fuel
      → level ≤ℤ w.priority
      → (v : ScheduleByPriority) × ((l' : StaticList (Entry ScheduleByPriority)) × (perform_all
              ready_to_wake body fuel blank
              (map resuming (copies k (with_priority level)))
              s
              l
            ≡ some (runs body k h s, l'))
          × Holds n l' (entry h v ∷ xs))
  resume-starves fuel k blank w s l holds lt le =
      let (v, queue, state) = starved_ledger k w (opened s []) le in
      let (l', run, is) =
        perform_all-enter_all ready_to_wake body fuel blank n lt
          (map resuming (copies k (with_priority level))) l (opened s (entry h w ∷ xs)) holds in
      (v, (l', run ∙ ap (λ t. some (t, l')) state, subst (Holds n l') queue is))
