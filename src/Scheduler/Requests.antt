-- ===== src/Scheduler/Requests.antt =====
-- A program's use of `scheduler_ordered`: any sequence of calls of `insert` and of `resume`, with
-- coroutines that may await the scheduler again when they run.
pub mod Conserved
pub mod Order
pub mod Drain
pub mod Deadlines
pub mod Levels
pub mod Starved
use baremetal_cxx_coro.Common.{
  ℕ, suc, ◌+◌, ◌<◌, ◌≡◌, refl, Bool, true, false, Option, none, some, List, [], ◌∷◌, ◌++◌, length,
  ltb, if◌then◌else◌, All, Bool-cases, inl, inr, ◌⊎◌, ap, ltb→lt, not-ltb→le, arith,
}
use baremetal_cxx_coro.StaticList.{StaticList, and_then}
use baremetal_cxx_coro.Scheduler.{Entry, Handle, Resumed, entry, insert, resume}
use baremetal_cxx_coro.Scheduler.Spec.{insert_entry}
use baremetal_cxx_coro.Scheduler.Resume.{Waits, Due}

-- `scheduler.insert(handle, condition)` and `scheduler.resume(condition)`
pub data Request (W : Type 0) : Type 0 where
  inserting : Handle → W → Request W
  resuming : W → Request W

-- What the program's calls amount to: its own state, the entries that wait, and the handles that
-- were queued, that were run and that found the list full, the latest first.
pub record Ledger (W S : Type 0) : Type 0 where
  pub state : S
  pub queue : List (Entry W)
  pub queued : List Handle
  pub ran : List Handle
  pub lost : List Handle

module _ {W : Type 0} (ready_to_wake : W → W → Bool) where
  abbrev pub behind :
      Entry W → Option (Entry W × List (Entry W)) → Option (Entry W × List (Entry W))
  behind e none = none
  behind e (some (x, rest)) = some (x, e ∷ rest)

  -- The first entry that is due, and the others.
  unfoldable pub first_due : W → List (Entry W) → Option (Entry W × List (Entry W))
  first_due ready [] = none
  first_due ready (e ∷ es) =
      if ready_to_wake e.wake_condition ready then some (e, es) else behind e (first_due ready es)

  pub first_due-none :
      (ready : W) (es : List (Entry W))
      → All (Waits ready_to_wake ready) es
      → first_due ready es ≡ none
  unfolding first_due
  first_due-none ready [] h = refl
  first_due-none ready (e ∷ es) h = rw (h.0, first_due-none ready es h.1)

  pub first_due-some :
      (ready : W) (ms : List (Entry W)) (x : Entry W) (rs : List (Entry W))
      → All (Waits ready_to_wake ready) ms
      → Due ready_to_wake ready x
      → first_due ready (ms ++ x ∷ rs) ≡ some (x, ms ++ rs)
  unfolding first_due
  first_due-some ready [] x rs h due = rw due
  first_due-some ready (m ∷ ms) x rs h due = rw (h.0, first_due-some ready ms x rs h.1 due)

  -- A list of entries with its first one that is due.
  pub record Found (ready : W) (es : List (Entry W)) : Type 0 where
    pub front : List (Entry W)
    pub due : Entry W
    pub rear : List (Entry W)
    pub parts : es ≡ front ++ due ∷ rear
    pub front_waits : All (Waits ready_to_wake ready) front
    pub due_now : Due ready_to_wake ready due

  pub search_due :
      (ready : W) (es : List (Entry W)) → All (Waits ready_to_wake ready) es ⊎ Found ready es
  search_due ready [] = inl tt
  search_due ready (e ∷ es) = elim (Bool-cases (ready_to_wake e.wake_condition ready)) [
    | inl r ↦
        inr (record { front = []; due = e; rear = es; parts = refl; front_waits = tt; due_now = r })
    | inr r ↦ elim (search_due ready es) [
      | inl ws ↦ inl (r, ws)
      | inr f ↦ inr (record {
        front = e ∷ f.front;
        due = f.due;
        rear = f.rear;
        parts = ap (λ t. e ∷ t) f.parts;
        front_waits = (r, f.front_waits);
        due_now = f.due_now;
      })
    ]
  ]

  -- A coroutine is known by the part of its body that runs up to its next suspension: it changes
  -- the program's other state, and gives the condition with which it awaits this scheduler again.
  module _ {S : Type 0} (body : Handle → S → S × Option W) where
    module _ (fuel : ℕ) (blank : W) where
      abbrev pub await_again :
          Handle → S × Option W → StaticList (Entry W) → Option (S × StaticList (Entry W))
      await_again h (s, none) l = some (s, l)
      await_again h (s, some w) l =
          and_then (insert ready_to_wake fuel blank h w l) (λ _ l'. some (s, l'))

      -- `handle.resume()`: where the body awaits the scheduler, `await_suspend` inserts the handle.
      abbrev pub run_body : Handle → S → StaticList (Entry W) → Option (S × StaticList (Entry W))
      run_body h s l = await_again h (body h s) l

      abbrev pub result_dropped :
          Option (Resumed W × S × StaticList (Entry W)) → Option (S × StaticList (Entry W))
      result_dropped none = none
      result_dropped (some (result, s, l)) = some (s, l)

      -- One call on the list.
      unfoldable pub perform :
          Request W → S → StaticList (Entry W) → Option (S × StaticList (Entry W))
      perform (inserting h w) s l =
          and_then (insert ready_to_wake fuel blank h w l) (λ _ l'. some (s, l'))
      perform (resuming ready) s l = result_dropped (resume ready_to_wake run_body fuel ready s l)

      abbrev pub perform_next :
          (S → StaticList (Entry W) → Option (S × StaticList (Entry W)))
          → Option (S × StaticList (Entry W))
          → Option (S × StaticList (Entry W))
      perform_next k none = none
      perform_next k (some (s, l)) = k s l

      -- The calls in turn.
      unfoldable pub perform_all :
          List (Request W) → S → StaticList (Entry W) → Option (S × StaticList (Entry W))
      perform_all [] s l = some (s, l)
      perform_all (r ∷ rs) s l = perform_next (λ s' l'. perform_all rs s' l') (perform r s l)

    -- The same calls on a ledger, with room for n entries.
    abbrev pub enter_again : Handle → S × Option W → Ledger W S → Ledger W S
    enter_again h (s, none) g = record g { state = s }
    enter_again h (s, some w) g = record g {
      state = s;
      queue = insert_entry ready_to_wake (entry h w) g.queue;
      queued = h ∷ g.queued;
    }

    abbrev pub enter_run : Option (Entry W × List (Entry W)) → Ledger W S → Ledger W S
    enter_run none g = g
    enter_run (some (x, rest)) g =
        enter_again x.handle (body x.handle g.state)
          (record g { queue = rest; ran = x.handle ∷ g.ran })

    unfoldable pub enter : ℕ → Request W → Ledger W S → Ledger W S
    enter n (inserting h w) g =
        if ltb (length g.queue) n
        then record g {
          queue = insert_entry ready_to_wake (entry h w) g.queue;
          queued = h ∷ g.queued;
        }
        else record g { lost = h ∷ g.lost }
    enter n (resuming ready) g = enter_run (first_due ready g.queue) g

    unfoldable pub enter_all : ℕ → List (Request W) → Ledger W S → Ledger W S
    enter_all n [] g = g
    enter_all n (r ∷ rs) g = enter_all n rs (enter n r g)

abbrev pub opened : {W S : Type 0} → S → List (Entry W) → Ledger W S
opened s es = record { state = s; queue = es; queued = []; ran = []; lost = [] }
