-- ===== src/Scheduler/Requests/Drain.antt =====
-- Repeated calls of `resume`, each with a coroutine that may await the scheduler again.
use mathlib.Core.List.{reverse, reverse-append, append_assoc, append-nil}
use baremetal_cxx_coro.Common.{
  ℕ, ◌<◌, ◌≡◌, refl, sym, ◌∙◌, ap, subst, Bool, false, Option, none, some, List, [], ◌∷◌, ◌++◌, map,
  length, All, All-map, arith,
}
use baremetal_cxx_coro.StaticList.{StaticList}
use baremetal_cxx_coro.StaticList.Validity.{Holds}
use baremetal_cxx_coro.Scheduler.{Entry, Handle, entry}
use baremetal_cxx_coro.Scheduler.Spec.{insert_entry, All-insert}
use baremetal_cxx_coro.Scheduler.Resume.{Due}
use baremetal_cxx_coro.Scheduler.Requests.{
  resuming, Ledger, first_due, perform_all, enter, enter_all, enter_again, opened,
}
use baremetal_cxx_coro.Scheduler.Requests.Conserved.{perform_all-enter_all, handles}

module _ {W S : Type 0} (ready_to_wake : W → W → Bool) (body : Handle → S → S × Option W) where
  -- The coroutines of the entries `ms` run in turn, while those of the queue wait.
  unfoldable pub turn : List (Entry W) → Ledger W S → Ledger W S
  turn [] g = g
  turn (m ∷ ms) g = turn ms (
      enter_again ready_to_wake body m.handle (body m.handle g.state)
        (record g { ran = m.handle ∷ g.ran }))

  -- A new entry with this condition passes the entries.
  abbrev pub Passes : List (Entry W) → W → Type 0
  Passes ms w = All (λ m. ready_to_wake w m.wake_condition ≡ false) ms

  insert_entry-Passes :
      (e : Entry W) (ms rs : List (Entry W))
      → Passes ms e.wake_condition
      → insert_entry ready_to_wake e (ms ++ rs) ≡ ms ++ insert_entry ready_to_wake e rs
  unfolding insert_entry
  insert_entry-Passes e [] rs h = refl
  insert_entry-Passes e (m ∷ ms) rs h = rw h.0 (ap (λ t. m ∷ t) (insert_entry-Passes e ms rs h.1))

  -- The queue `ms ++ rs` for the queue `rs`.
  abbrev ahead : List (Entry W) → Ledger W S → Ledger W S
  ahead ms g = record g { queue = ms ++ g.queue }

  enter_again-ahead :
      (h : Handle) (ms : List (Entry W)) (sw : S × Option W) (g : Ledger W S)
      → ((w : W) → sw.1 ≡ some w → Passes ms w)
      → enter_again ready_to_wake body h sw (ahead ms g)
        ≡ ahead ms (enter_again ready_to_wake body h sw g)
  enter_again-ahead h ms (s, none) g passes = refl
  enter_again-ahead h ms (s, some w) g passes =
      rw (insert_entry-Passes (entry h w) ms g.queue (passes w refl)) refl

  -- What a ledger is after the coroutine of `m` has run.
  abbrev after : Entry W → Ledger W S → Ledger W S
  after m g =
      enter_again ready_to_wake body m.handle (body m.handle g.state)
        (record g { ran = m.handle ∷ g.ran })

  enter-front :
      (n : ℕ) (c : W) (m : Entry W) (ms : List (Entry W)) (g : Ledger W S)
      → Due ready_to_wake c m
      → ((w : W) → (body m.handle g.state).1 ≡ some w → Passes ms w)
      → enter ready_to_wake body n (resuming c) (ahead (m ∷ ms) g) ≡ ahead ms (after m g)
  unfolding enter first_due
  enter-front n c m ms g due passes = rw due (
      enter_again-ahead m.handle ms (body m.handle g.state) (record g { ran = m.handle ∷ g.ran })
        passes)

  -- As many calls of `resume` as entries stand in front that are due at all of them.
  pub enter_all-turn :
      (n : ℕ) (conditions : List W) (ms : List (Entry W)) (g : Ledger W S)
      → length conditions ≡ length ms
      → All (λ c. All (Due ready_to_wake c) ms) conditions
      → ((h : Handle) (s : S) (w : W) → (body h s).1 ≡ some w → Passes ms w)
      → enter_all ready_to_wake body n (map resuming conditions) (ahead ms g) ≡ turn ms g
  unfolding enter_all turn
  enter_all-turn n [] [] g size due passes = refl
  enter_all-turn n [] (m ∷ ms) g size due passes = absurd (omega arith)
  enter_all-turn n (c ∷ cs) [] g size due passes = absurd (omega arith)
  enter_all-turn n (c ∷ cs) (m ∷ ms) g size due passes =
      ap (enter_all ready_to_wake body n (map resuming cs))
        (enter-front n c m ms g due.0.0 (λ w e. (passes m.handle g.state w e).1))
      ∙ enter_all-turn n cs ms (after m g) (omega arith) (All-map _ _ cs (λ c' h. h.1) due.1)
          (λ h s w e. (passes h s w e).1)

  ran-enter_again :
      (h : Handle) (sw : S × Option W) (g : Ledger W S)
      → (enter_again ready_to_wake body h sw g).ran ≡ g.ran
  ran-enter_again h (s, none) g = refl
  ran-enter_again h (s, some w) g = refl

  -- Each of them has run once, in their order.
  pub ran-turn :
      (ms : List (Entry W)) (g : Ledger W S) → (turn ms g).ran ≡ reverse (handles ms) ++ g.ran
  unfolding turn
  ran-turn [] g = refl
  ran-turn (m ∷ ms) g =
      ran-turn ms _
      ∙ ap (λ t. reverse (handles ms) ++ t)
          (ran-enter_again m.handle (body m.handle g.state) (record g { ran = m.handle ∷ g.ran }))
      ∙ sym (
          ap (λ t. t ++ g.ran) (reverse-append (m.handle ∷ []) (handles ms))
          ∙ append_assoc (reverse (handles ms)) (m.handle ∷ []) g.ran)

  module _ (P : Entry W → Type 0)
      (again_keeps : (h : Handle) (s : S) (w : W) → (body h s).1 ≡ some w → P (entry h w)) where
    enter_again-All :
        (h : Handle) (sw : S × Option W) (g : Ledger W S)
        → ((w : W) → sw.1 ≡ some w → P (entry h w))
        → All P g.queue
        → All P (enter_again ready_to_wake body h sw g).queue
    enter_again-All h (s, none) g keeps all = all
    enter_again-All h (s, some w) g keeps all =
        All-insert ready_to_wake P (entry h w) g.queue (keeps w refl) all

    pub turn-All : (ms : List (Entry W)) (g : Ledger W S) → All P g.queue → All P (turn ms g).queue
    unfolding turn
    turn-All [] g all = all
    turn-All (m ∷ ms) g all = turn-All ms _ (
        enter_again-All m.handle (body m.handle g.state) (record g { ran = m.handle ∷ g.ran })
          (again_keeps m.handle g.state) all)

  -- As many calls of `resume` on a valid list, and what holds of the entries that wait then.
  pub perform_all-turn :
      (fuel n : ℕ) (blank : W) (conditions : List W) (s : S) (l : StaticList (Entry W))
      (es ms rs : List (Entry W)) (P : Entry W → Type 0)
      → Holds n l es
      → n < fuel
      → ms ++ rs ≡ es
      → length conditions ≡ length ms
      → All (λ c. All (Due ready_to_wake c) ms) conditions
      → All P rs
      → ((h : Handle) (s' : S) (w : W) → (body h s').1 ≡ some w → Passes ms w × P (entry h w))
      → (l' : StaticList (Entry W)) × (perform_all ready_to_wake body fuel blank
            (map resuming conditions)
            s
            l
          ≡ some ((turn ms (opened s rs)).state, l'))
        × Holds n l' (turn ms (opened s rs)).queue
        × ((turn ms (opened s rs)).ran ≡ reverse (handles ms))
        × All P (turn ms (opened s rs)).queue
  perform_all-turn fuel n blank conditions s l es ms rs P holds enough parts size due rest again =
      let all =
        enter_all-turn n conditions ms (opened s rs) size due (λ h s' w e. (again h s' w e).0) in
      let (l', run, is) =
        perform_all-enter_all ready_to_wake body fuel blank n enough (map resuming conditions) l
          (opened s (ms ++ rs)) (subst (Holds n l) (sym parts) holds) in
      (
        l',
        run ∙ ap (λ g. some (g.state, l')) all,
        subst (λ g. Holds n l' g.queue) all is,
        ran-turn ms (opened s rs) ∙ append-nil _,
        turn-All P (λ h s' w e. (again h s' w e).1) ms (opened s rs) rest,
      )
