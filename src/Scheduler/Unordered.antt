-- ===== src/Scheduler/Unordered.antt =====
-- `scheduler_unordered` on a valid list is a queue that is run until it is empty.
use baremetal_cxx_coro.Common.{
  ℕ, zero, suc, ◌<◌, ◌≡◌, refl, ◌∙◌, Bool, true, false, Option, none, some, List, [], ◌∷◌, ◌++◌,
  arith, if◌then◌else◌, length, length-append, Bool-cases, inl, inr, ◌⊎◌, ◌≤◌, ◌+◌,
}
use baremetal_cxx_coro.StaticList.{StaticList}
use baremetal_cxx_coro.StaticList.Validity.{Holds}
use baremetal_cxx_coro.StaticList.Contents.{
  emplace_back-Holds, pop_front-Holds, length-le, empty-nil, empty-cons,
}
use baremetal_cxx_coro.StaticList.Iterate.{dereference-begin}
use baremetal_cxx_coro.Scheduler.{
  Handle, insert_unordered, take_front, resume_handle, resume_unordered,
}

-- The first handle of the queue is taken.
pub take_front-Holds :
    {T : Type 0} (n : ℕ) (l : StaticList T) (h : T) (q : List T)
    → Holds n l (h ∷ q)
    → (l' : StaticList T) × (take_front l ≡ some (h, l')) × Holds n l' q
unfolding take_front
take_front-Holds n l h q holds =
    let (l', read, run, is) = pop_front-Holds n l h q holds in
    (l', rw (dereference-begin l ∙ read, run) refl, is)

module _ {S : Type 0} (body : Handle → S → S × Bool) where
  abbrev requeue : Bool → Handle → List Handle → List Handle
  requeue again h q = if again then q ++ h ∷ [] else q

  -- The schedule as a queue of any length: the first coroutine runs to its next suspension, and
  -- goes behind the others if it awaits the scheduler again.
  pub drain : ℕ → S → List Handle → Option S
  drain zero s q = none
  drain (suc fuel) s [] = some s
  drain (suc fuel) s (h ∷ q) = let (s', again) = body h s in drain fuel s' (requeue again h q)

  -- On a valid list that is not full, as it is once an entry has been taken off, resuming a
  -- coroutine succeeds. It changes the state as its body does, and leaves a valid list, with the
  -- coroutine behind the others if it awaits the scheduler again.
  pub resume_handle-Holds :
      (n : ℕ) (h : Handle) (s : S) (l : StaticList Handle) (q : List Handle)
      → Holds n l q
      → length q < n
      → (l' : StaticList Handle) × (resume_handle body h s l ≡ some ((body h s).0, l'))
        × Holds n l' (requeue (body h s).1 h q)
  unfolding resume_handle insert_unordered
  resume_handle-Holds n h s l q holds lt = elim (Bool-cases (body h s).1) [
    | inl again ↦
        let (l', run, is) = emplace_back-Holds n l q h holds lt in
        (l', rw (again, run) refl, rw again is)
    | inr done ↦ (l, rw done refl, rw done holds)
  ]

  -- On a valid list, with the same fuel, `resume` of the unordered scheduler and the queue of its
  -- handles either both run out of fuel, or both end in the same state of the program, and the list
  -- is then valid and empty.
  pub resume_unordered-drain :
      (fuel n : ℕ) (s : S) (l : StaticList Handle) (q : List Handle)
      → Holds n l q
      → ((drain fuel s q ≡ none) × (resume_unordered body fuel s l ≡ none))
        ⊎ ((s' : S) × ((l' : StaticList Handle) × (drain fuel s q ≡ some s')
              × (resume_unordered body fuel s l ≡ some (s', l'))
              × Holds n l' []))
  unfolding drain resume_unordered
  resume_unordered-drain zero n s l q holds = inl (refl, refl)
  resume_unordered-drain (suc fuel) n s l [] holds =
      inr (s, (l, refl, rw (empty-nil n l holds) refl, holds))
  resume_unordered-drain (suc fuel) n s l (h ∷ q) holds =
      let (l₁, taken, is₁) = take_front-Holds n l h q holds in
      let (l₂, ran, is₂) = resume_handle-Holds n h s l₁ q is₁ (length-le n l (h ∷ q) holds) in
      rw (empty-cons n l h q holds, taken, ran)
        (resume_unordered-drain fuel n (body h s).0 l₂ (requeue (body h s).1 h q) is₂)

module _ {S : Type 0} (body : Handle → S → S × Bool) (budget : S → ℕ) where
  -- On a valid list, if a number that the program's state gives falls whenever a coroutine awaits
  -- the scheduler again and never grows, then with more fuel than that number and the length of the
  -- list together `resume` ends, and leaves the list valid and empty.
  pub resume_unordered-total :
      ((h : Handle) (s : S) → (body h s).1 ≡ true → budget (body h s).0 < budget s)
      → ((h : Handle) (s : S) → (body h s).1 ≡ false → budget (body h s).0 ≤ budget s)
      → (fuel n : ℕ) (s : S) (l : StaticList Handle) (q : List Handle) → Holds n l q
      → budget s + length q < fuel
      → (s' : S) × ((l' : StaticList Handle) × (resume_unordered body fuel s l ≡ some (s', l'))
          × Holds n l' [])
  unfolding resume_unordered
  resume_unordered-total spend keep zero n s l q holds lt = absurd (omega arith)
  resume_unordered-total spend keep (suc fuel) n s l [] holds lt =
      (s, (l, rw (empty-nil n l holds) refl, holds))
  resume_unordered-total spend keep (suc fuel) n s l (h ∷ q) holds lt =
      let (l₁, taken, is₁) = take_front-Holds n l h q holds in
      let (l₂, ran, is₂) = resume_handle-Holds body n h s l₁ q is₁ (length-le n l (h ∷ q) holds) in
      let less : budget (body h s).0 + length (requeue body (body h s).1 h q) < fuel =
        elim (Bool-cases (body h s).1) [
          | inl again ↦ rw again (omega (arith, spend h s again, length-append q (h ∷ [])))
          | inr done ↦ rw done (omega (arith, keep h s done))
        ] in
      rw (empty-cons n l h q holds, taken, ran)
        (resume_unordered-total spend keep fuel n (body h s).0 l₂ (requeue body (body h s).1 h q)
          is₂ less)

module _ {S : Type 0} (body : Handle → S → S × Bool)
    (again : (h : Handle) (s : S) → (body h s).1 ≡ true) where
  forever :
      (fuel n : ℕ) (s : S) (l : StaticList Handle) (q : List Handle)
      → 0 < length q
      → Holds n l q
      → resume_unordered body fuel s l ≡ none
  unfolding resume_unordered
  forever zero n s l q lt holds = refl
  forever (suc fuel) n s l [] lt holds = absurd (omega arith)
  forever (suc fuel) n s l (h ∷ q) lt holds =
      let (l₁, taken, is₁) = take_front-Holds n l h q holds in
      let (l₂, ran, is₂) = resume_handle-Holds body n h s l₁ q is₁ (length-le n l (h ∷ q) holds) in
      rw (empty-cons n l h q holds, taken, ran)
        (forever fuel n (body h s).0 l₂ (q ++ h ∷ []) (omega (arith, length-append q (h ∷ [])))
          (rw (again h s) at is₂))

  -- Where every coroutine awaits the scheduler again at once, `resume` of a valid list that is not
  -- empty does not return with any amount of fuel.
  pub resume_unordered-forever :
      (fuel n : ℕ) (s : S) (l : StaticList Handle) (h : Handle) (q : List Handle)
      → Holds n l (h ∷ q)
      → resume_unordered body fuel s l ≡ none
  resume_unordered-forever fuel n s l h q holds = forever fuel n s l (h ∷ q) (omega arith) holds
