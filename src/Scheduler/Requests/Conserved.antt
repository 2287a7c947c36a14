-- ===== src/Scheduler/Requests/Conserved.antt =====
-- Every sequence of calls of `insert` and `resume`, and the ledger of what it amounts to.
use baremetal_cxx_coro.Common.{
  ℕ, ◌+◌, ◌<◌, ◌≡◌, refl, ◌∙◌, ap, subst, Bool, Option, none, some, List, [], ◌∷◌, ◌++◌, map,
  length, length-append, ltb, ◌==◌, if◌then◌else◌, Bool-cases, inl, inr, ltb→lt, not-ltb→le, arith,
}
use baremetal_cxx_coro.StaticList.{StaticList}
use baremetal_cxx_coro.StaticList.Validity.{Holds}
use baremetal_cxx_coro.StaticList.Contents.{length-le}
use baremetal_cxx_coro.Scheduler.{Entry, Handle, entry}
use baremetal_cxx_coro.Scheduler.Spec.{insert_entry}
use baremetal_cxx_coro.Scheduler.Insert.{insert-insert_entry, insert-full}
use baremetal_cxx_coro.Scheduler.Resume.{resume-Due, resume-idle}
use baremetal_cxx_coro.Scheduler.Requests.{
  Request, inserting, resuming, Ledger, first_due, first_due-none, first_due-some, search_due,
  await_again, run_body, perform, perform_all, enter, enter_all, enter_again, opened,
}

module _ {W S : Type 0} (ready_to_wake : W → W → Bool) (body : Handle → S → S × Option W) (fuel : ℕ)
    (blank : W) (n : ℕ) (enough : n < fuel) where
  -- Where there is room, a coroutine that has run awaits the scheduler again as its body says.
  await_again-Holds :
      (h : Handle) (sw : S × Option W) (l : StaticList (Entry W)) (g : Ledger W S)
      → Holds n l g.queue
      → length g.queue < n
      → (l' : StaticList (Entry W)) × (await_again ready_to_wake body fuel blank h sw l
          ≡ some ((enter_again ready_to_wake body h sw g).state, l'))
        × Holds n l' (enter_again ready_to_wake body h sw g).queue
  await_again-Holds h (s, none) l g holds lt = (l, refl, holds)
  await_again-Holds h (s, some w) l g holds lt =
      let (l', run, is) =
        insert-insert_entry ready_to_wake fuel n blank w h l g.queue holds lt (omega arith) in
      (l', rw run refl, is)

  perform-enter :
      (r : Request W) (l : StaticList (Entry W)) (g : Ledger W S)
      → Holds n l g.queue
      → (l' : StaticList (Entry W)) × (perform ready_to_wake body fuel blank r g.state l
          ≡ some ((enter ready_to_wake body n r g).state, l'))
        × Holds n l' (enter ready_to_wake body n r g).queue
  unfolding perform enter
  perform-enter (inserting h w) l g holds = elim (Bool-cases (ltb (length g.queue) n)) [
    | inl room ↦
        let (l', run, is) =
          insert-insert_entry ready_to_wake fuel n blank w h l g.queue holds (ltb→lt _ _ room)
            (omega arith) in
        (l', rw (run, room) refl, rw room is)
    | inr full ↦
        let size : length g.queue ≡ n =
          omega (arith, not-ltb→le _ _ full, length-le n l g.queue holds) in
        (
          l,
          rw (insert-full ready_to_wake fuel n blank w h l g.queue holds size enough, full) refl,
          rw full holds,
        )
  ]
  perform-enter (resuming ready) l g holds = elim (search_due ready_to_wake ready g.queue) [
    | inl ws ↦
        let (t, result) =
          resume-idle ready_to_wake (run_body ready_to_wake body fuel blank) fuel n ready g.state l
            g.queue holds enough ws in
        let e = first_due-none ready_to_wake ready g.queue ws in
        (l, rw (result, e) refl, rw e holds)
    | inr f ↦
        let whole : Holds n l (f.front ++ f.due ∷ f.rear) = subst (Holds n l) f.parts holds in
        let (t, rest) =
          resume-Due ready_to_wake (run_body ready_to_wake body fuel blank) fuel n ready g.state l
            f.front f.due f.rear whole enough f.front_waits f.due_now in
        let e =
          ap (first_due ready_to_wake ready) f.parts
          ∙ first_due-some ready_to_wake ready f.front f.due f.rear f.front_waits f.due_now in
        let taken = record g { queue = f.front ++ f.rear; ran = f.due.handle ∷ g.ran } in
        let room : length (f.front ++ f.rear) < n = omega (
          arith,
          length-le n l (f.front ++ f.due ∷ f.rear) whole,
          length-append f.front f.rear,
          length-append f.front (f.due ∷ f.rear),
        ) in
        let (l', run, is) =
          await_again-Holds f.due.handle (body f.due.handle g.state) rest.0 taken rest.1 room in
        (l', rw (rest.2, run, e) refl, rw e is)
  ]

  -- On a valid list of n nodes, with more than n rounds of fuel, every sequence of calls of
  -- `insert` and `resume` succeeds.
  pub perform_all-enter_all :
      (rs : List (Request W)) (l : StaticList (Entry W)) (g : Ledger W S)
      → Holds n l g.queue
      → (l' : StaticList (Entry W)) × (perform_all ready_to_wake body fuel blank rs g.state l
          ≡ some ((enter_all ready_to_wake body n rs g).state, l'))
        × Holds n l' (enter_all ready_to_wake body n rs g).queue
  unfolding perform_all enter_all
  perform_all-enter_all [] l g holds = (l, refl, holds)
  perform_all-enter_all (r ∷ rs) l g holds =
      let (l₁, run, is) = perform-enter r l g holds in
      let (l₂, rest, is₂) = perform_all-enter_all rs l₁ (enter ready_to_wake body n r g) is in
      (l₂, rw run rest, is₂)

-- How often a handle stands in a list.
abbrev pub count : Handle → List Handle → ℕ
count h [] = 0
count h (x ∷ xs) = (if h == x then 1 else 0) + count h xs

abbrev pub handles : {W : Type 0} → List (Entry W) → List Handle
handles es = map (λ e. e.handle) es

module _ {W S : Type 0} (ready_to_wake : W → W → Bool) (body : Handle → S → S × Option W)
    (n : ℕ) where
  count-insert :
      (h : Handle) (e : Entry W) (es : List (Entry W))
      → count h (handles (insert_entry ready_to_wake e es)) ≡ count h (handles (e ∷ es))
  unfolding insert_entry
  count-insert h e [] = refl
  count-insert h e (x ∷ xs) = elim (Bool-cases (ready_to_wake e.wake_condition x.wake_condition)) [
    | inl r ↦ rw r refl
    | inr r ↦ rw r (omega (arith, count-insert h e xs))
  ]

  count-middle :
      (h : Handle) (ms : List (Entry W)) (x : Entry W) (rs : List (Entry W))
      → count h (handles (ms ++ x ∷ rs)) ≡ count h (handles (x ∷ ms ++ rs))
  count-middle h [] x rs = refl
  count-middle h (m ∷ ms) x rs = omega (arith, count-middle h ms x rs)

  -- What the list held at first and what was queued since has been run, or still waits.
  abbrev pub IsBalanced : List (Entry W) → Ledger W S → Type 0
  IsBalanced es g =
      (h : Handle)
      → count h (handles es) + count h g.queued ≡ count h g.ran + count h (handles g.queue)

  enter_again-IsBalanced :
      (es : List (Entry W)) (h : Handle) (sw : S × Option W) (g : Ledger W S)
      → IsBalanced es g
      → IsBalanced es (enter_again ready_to_wake body h sw g)
  enter_again-IsBalanced es h (s, none) g b k = b k
  enter_again-IsBalanced es h (s, some w) g b k =
      omega (arith, b k, count-insert k (entry h w) g.queue)

  enter-IsBalanced :
      (es : List (Entry W)) (r : Request W) (g : Ledger W S)
      → IsBalanced es g
      → IsBalanced es (enter ready_to_wake body n r g)
  unfolding enter
  enter-IsBalanced es (inserting h w) g b = elim (Bool-cases (ltb (length g.queue) n)) [
    | inl room ↦ rw room (λ k. omega (arith, b k, count-insert k (entry h w) g.queue))
    | inr full ↦ rw full b
  ]
  enter-IsBalanced es (resuming ready) g b = elim (search_due ready_to_wake ready g.queue) [
    | inl ws ↦ rw (first_due-none ready_to_wake ready g.queue ws) b
    | inr f ↦
        rw
          (ap (first_due ready_to_wake ready) f.parts
            ∙ first_due-some ready_to_wake ready f.front f.due f.rear f.front_waits f.due_now)
          (enter_again-IsBalanced es f.due.handle (body f.due.handle g.state)
            (record g { queue = f.front ++ f.rear; ran = f.due.handle ∷ g.ran })
            (λ k. omega (
              arith,
              b k,
              ap (λ q. count k (handles q)) f.parts,
              count-middle k f.front f.due f.rear,
            )))
  ]

  enter_all-IsBalanced :
      (es : List (Entry W)) (rs : List (Request W)) (g : Ledger W S)
      → IsBalanced es g
      → IsBalanced es (enter_all ready_to_wake body n rs g)
  unfolding enter_all
  enter_all-IsBalanced es [] g b = b
  enter_all-IsBalanced es (r ∷ rs) g b =
      enter_all-IsBalanced es rs (enter ready_to_wake body n r g) (enter-IsBalanced es r g b)

module _ {W S : Type 0} (ready_to_wake : W → W → Bool) (body : Handle → S → S × Option W) (fuel : ℕ)
    (blank : W) (n : ℕ) where
  -- On a valid list of n nodes, with more than n rounds of fuel, every sequence of calls of
  -- `insert` and `resume`, with coroutines that may await the scheduler again when they run,
  -- succeeds and leaves the program's state and a valid list as the ledger of these calls has them;
  -- and each handle stands in the first list and among those queued since as often as among those
  -- that have run and those that still wait.
  pub perform_all-conserves :
      (rs : List (Request W)) (s : S) (l : StaticList (Entry W)) (es : List (Entry W))
      → Holds n l es
      → n < fuel
      → (l' : StaticList (Entry W)) × (perform_all ready_to_wake body fuel blank rs s l
          ≡ some ((enter_all ready_to_wake body n rs (opened s es)).state, l'))
        × Holds n l' (enter_all ready_to_wake body n rs (opened s es)).queue
        × IsBalanced ready_to_wake body n es (enter_all ready_to_wake body n rs (opened s es))
  perform_all-conserves rs s l es holds enough =
      let (l', run, is) =
        perform_all-enter_all ready_to_wake body fuel blank n enough rs l (opened s es) holds in
      (
        l',
        run,
        is,
        enter_all-IsBalanced ready_to_wake body n es rs (opened s es) (λ h. omega arith),
      )
