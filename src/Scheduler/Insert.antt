-- ===== src/Scheduler/Insert.antt =====
-- `insert` of `scheduler_ordered` on a valid list.
use mathlib.Core.List.{append_assoc}
use baremetal_cxx_coro.Common.{
  ℕ, zero, suc, ◌<◌, ◌≤◌, ◌≡◌, refl, sym, ◌∙◌, ap, subst, Bool, some, List, [], ◌∷◌, ◌++◌, arith,
  length, length-map, eq-nil, Bool-cases, inl, inr,
}
use baremetal_cxx_coro.StaticList.{Ptr, null, StaticList, begin}
use baremetal_cxx_coro.StaticList.Chain.{Cells, head_or}
use baremetal_cxx_coro.StaticList.Validity.{IsValid, Holds}
use baremetal_cxx_coro.StaticList.Emplace.{emplace-IsValid, emplace_end-IsValid, emplace-full}
use baremetal_cxx_coro.StaticList.Iterate.{dereference-value, increment-next, not_end}
use baremetal_cxx_coro.Scheduler.{Entry, Handle, entry, move_entry, find_position, insert}
use baremetal_cxx_coro.Scheduler.Spec.{
  insert_entry, passed, remaining, passed-append-remaining, values-insert,
}

module _ {W : Type 0} (ready_to_wake : W → W → Bool) where
  find_position-remaining :
      (fuel n : ℕ) (w : W) (l : StaticList (Entry W)) (pre post fs : Cells (Entry W))
      → IsValid n l (pre ++ post) fs
      → length post < fuel
      → find_position ready_to_wake fuel w (head_or post null) l
        ≡ some (head_or (remaining ready_to_wake w post) null, l)
  unfolding find_position
  find_position-remaining zero n w l pre post fs valid lt = absurd (omega arith)
  find_position-remaining (suc fuel) n w l pre [] fs valid lt = refl
  find_position-remaining (suc fuel) n w l pre ((a, e) ∷ post) fs valid lt =
      let there = not_end n l pre post fs a e valid in
      let read = dereference-value n l pre post fs a e valid in
      elim (Bool-cases (ready_to_wake w e.wake_condition)) [
        | inl r ↦ rw (there, read, r) refl
        | inr r ↦
            rw (there, read, r, increment-next n l pre post fs a e valid)
              (find_position-remaining fuel n w l (pre ++ (a, e) ∷ []) post fs
                (rw (append_assoc pre ((a, e) ∷ []) post) valid) (omega arith))
      ]

  -- `insert` puts the entry where `insert_entry` does, and leaves the other nodes in place.
  insert-cells :
      (fuel n : ℕ) (blank w : W) (h : Handle) (l : StaticList (Entry W)) (xs fs : Cells (Entry W))
      (b : Ptr) (g : Entry W)
      → IsValid n l xs ((b, g) ∷ fs)
      → length xs < fuel
      → (l' : StaticList (Entry W)) × (insert ready_to_wake fuel blank h w l ≡ some (tt, l'))
        × IsValid n l'
            (passed ready_to_wake w xs ++ (b, entry h w) ∷ remaining ready_to_wake w xs)
            fs
  unfolding insert begin move_entry
  insert-cells fuel n blank w h l xs fs b g valid lt = place (remaining ready_to_wake w xs) refl
    where
      front : Cells (Entry W)
      front = passed ready_to_wake w xs

      found :
          (rest : Cells (Entry W))
          → remaining ready_to_wake w xs ≡ rest
          → find_position ready_to_wake fuel w l.first l ≡ some (head_or rest null, l)
      found rest e =
          ap (λ p. find_position ready_to_wake fuel w p l) valid.first
          ∙ find_position-remaining fuel n w l [] xs ((b, g) ∷ fs) valid lt
          ∙ ap (λ r. some (head_or r null, l)) e

      parted :
          (rest : Cells (Entry W))
          → remaining ready_to_wake w xs ≡ rest
          → IsValid n l (front ++ rest) ((b, g) ∷ fs)
      parted rest e =
          subst (λ t. IsValid n l t ((b, g) ∷ fs))
            (sym (passed-append-remaining ready_to_wake w xs) ∙ ap (λ t. front ++ t) e) valid

      place :
          (rest : Cells (Entry W))
          → remaining ready_to_wake w xs ≡ rest
          → (l' : StaticList (Entry W)) × (insert ready_to_wake fuel blank h w l ≡ some (tt, l'))
            × IsValid n l' (passed ready_to_wake w xs ++ (b, entry h w) ∷ rest) fs
      place [] e =
          let (l', run, is) = emplace_end-IsValid n l fs b g (entry h w) front (parted [] e) in
          (l', rw (found [] e) run, is)
      place ((i, x) ∷ rest) e =
          let (l', run, is) =
            emplace-IsValid n l fs b g (entry h w) front rest i x (parted ((i, x) ∷ rest) e) in
          (l', rw (found ((i, x) ∷ rest) e) run, is)

  -- On a valid list of n nodes that is not full, with fuel for n rounds, `insert` succeeds, and the
  -- list is valid and holds what `insert_entry` makes of its entries.
  pub insert-insert_entry :
      (fuel n : ℕ) (blank w : W) (h : Handle) (l : StaticList (Entry W)) (es : List (Entry W))
      → Holds n l es
      → length es < n
      → n ≤ fuel
      → (l' : StaticList (Entry W)) × (insert ready_to_wake fuel blank h w l ≡ some (tt, l'))
        × Holds n l' (insert_entry ready_to_wake (entry h w) es)
  insert-insert_entry fuel n blank w h l es holds lt enough = room holds.spares refl
    where
      open holds use {cells, valid}

      size : length cells ≡ length es
      size = sym (length-map cells (λ c. c.1)) ∙ ap length holds.values

      room :
          (fs : Cells (Entry W))
          → holds.spares ≡ fs
          → (l' : StaticList (Entry W)) × (insert ready_to_wake fuel blank h w l ≡ some (tt, l'))
            × Holds n l' (insert_entry ready_to_wake (entry h w) es)
      room [] e = absurd (omega (arith, size, valid.size, ap length e))
      room ((b, g) ∷ fs) e =
          let (l', run, is) =
            insert-cells fuel n blank w h l cells fs b g (subst (λ t. IsValid n l cells t) e valid)
              (omega (arith, size)) in
          (
            l',
            run,
            record {
              cells =
                  passed ready_to_wake w cells ++ (b, entry h w) ∷ remaining ready_to_wake w cells;
              spares = fs;
              valid = is;
              values =
                  values-insert ready_to_wake w h b cells
                  ∙ ap (insert_entry ready_to_wake (entry h w)) holds.values;
            },
          )

  -- On a valid list of n nodes that holds n entries, with more than n rounds of fuel, `insert`
  -- returns and leaves the list as it is: the new entry is dropped.
  pub insert-full :
      (fuel n : ℕ) (blank w : W) (h : Handle) (l : StaticList (Entry W)) (es : List (Entry W))
      → Holds n l es
      → length es ≡ n
      → n < fuel
      → insert ready_to_wake fuel blank h w l ≡ some (tt, l)
  unfolding insert begin
  insert-full fuel n blank w h l es holds full enough =
      rw
        (ap (λ p. find_position ready_to_wake fuel w p l) valid.first
          ∙ find_position-remaining fuel n w l [] cells holds.spares valid (omega (arith, size)))
        (emplace-full n l cells _ _ (subst (λ t. IsValid n l cells t) no_spare valid))
    where
      open holds use {cells, valid}

      size : length cells ≡ length es
      size = sym (length-map cells (λ c. c.1)) ∙ ap length holds.values

      no_spare : holds.spares ≡ []
      no_spare = eq-nil holds.spares (omega (arith, size, valid.size))
