-- ===== src/Scheduler/Spec.antt =====
-- The waiting list of `scheduler_ordered` as a list of entries.
use baremetal_cxx_coro.Common.{
  ◌≡◌, refl, ap, Bool, List, [], ◌∷◌, ◌++◌, All, if◌then◌else◌, Bool-cases, inl, inr,
}
use baremetal_cxx_coro.StaticList.{Ptr}
use baremetal_cxx_coro.StaticList.Chain.{Cells}
use baremetal_cxx_coro.StaticList.Values.{values}
use baremetal_cxx_coro.Scheduler.{Entry, Handle, entry}

module _ {W : Type 0} (ready_to_wake : W → W → Bool) where
  -- `insert`: in front of the first entry whose condition the new one's condition accepts.
  unfoldable pub insert_entry : Entry W → List (Entry W) → List (Entry W)
  insert_entry e [] = e ∷ []
  insert_entry e (x ∷ xs) =
      if ready_to_wake e.wake_condition x.wake_condition then e ∷ x ∷ xs else x ∷ insert_entry e xs

  pub All-insert :
      (P : Entry W → Type 0) (e : Entry W) (xs : List (Entry W))
      → P e
      → All P xs
      → All P (insert_entry e xs)
  unfolding insert_entry
  All-insert P e [] h k = (h, tt)
  All-insert P e (x ∷ xs) h k =
      elim (Bool-cases (ready_to_wake e.wake_condition x.wake_condition)) [
        | inl r ↦ rw r (h, k)
        | inr r ↦ rw r (k.0, All-insert P e xs h k.1)
      ]

  -- The nodes that the search of `insert` passes, and those from its position on.
  abbrev pub passed : W → Cells (Entry W) → Cells (Entry W)
  passed w [] = []
  passed w ((a, e) ∷ xs) = if ready_to_wake w e.wake_condition then [] else (a, e) ∷ passed w xs

  abbrev pub remaining : W → Cells (Entry W) → Cells (Entry W)
  remaining w [] = []
  remaining w ((a, e) ∷ xs) =
      if ready_to_wake w e.wake_condition then (a, e) ∷ xs else remaining w xs

  pub passed-append-remaining : (w : W) (xs : Cells (Entry W)) → passed w xs ++ remaining w xs ≡ xs
  passed-append-remaining w [] = refl
  passed-append-remaining w ((a, e) ∷ xs) = elim (Bool-cases (ready_to_wake w e.wake_condition)) [
    | inl h ↦ rw h
    | inr h ↦ rw h (ap (λ t. (a, e) ∷ t) (passed-append-remaining w xs))
  ]

  pub values-insert :
      (w : W) (h : Handle) (b : Ptr) (xs : Cells (Entry W))
      → values (passed w xs ++ (b, entry h w) ∷ remaining w xs)
        ≡ insert_entry (entry h w) (values xs)
  unfolding insert_entry
  values-insert w h b [] = refl
  values-insert w h b ((a, e) ∷ xs) = elim (Bool-cases (ready_to_wake w e.wake_condition)) [
    | inl r ↦ rw r refl
    | inr r ↦ rw r (ap (λ t. e ∷ t) (values-insert w h b xs))
  ]
