-- ===== src/StaticList/Commands/Sequence.antt =====
-- Every sequence of operations of include/coro/static_list.hpp.
use baremetal_cxx_coro.Common.{
  ℕ, suc, ◌≡◌, ◌⊎◌, refl, ap, subst, Option, none, some, inl, inr, List, [], ◌∷◌, ◌++◌, length,
  length-map, eq-nil, take, drop, ltb, ltb→lt, not-ltb→le, Bool-cases, arith,
}
use baremetal_cxx_coro.StaticList.{
  Node, StaticList, construct, pure, and_then, pop_front, pop_back, front, back,
}
use baremetal_cxx_coro.StaticList.Validity.{IsValid, Holds}
use baremetal_cxx_coro.StaticList.Pop.{pop-empty}
use baremetal_cxx_coro.StaticList.Iterate.{front_back-empty}
use baremetal_cxx_coro.StaticList.Contents.{
  construct-Holds, emplace_back-Holds, emplace_back-full, pop_front-Holds, pop_back-Holds,
  length-le,
}
use baremetal_cxx_coro.StaticList.Commands.{
  Operation, append, insert_at, erase_at, drop_first, drop_last, read_first, read_last, operate,
  operate_all, and_read, read_end, all_but_last, expect, expect_all, Agrees, agree,
}
use baremetal_cxx_coro.StaticList.Commands.Position.{
  insert_at-Holds, insert_at-full, erase_at-Agrees,
}

module _ {T : Type 0} where
  all_but_last-append : (ws : List T) (v : T) → all_but_last (ws ++ v ∷ []) ≡ ws
  all_but_last-append [] v = refl
  all_but_last-append (w ∷ []) v = refl
  all_but_last-append (w ∷ x ∷ ws) v = ap (λ t. w ∷ t) (all_but_last-append (x ∷ ws) v)

  read_end-append : (ws : List T) (v : T) → read_end (ws ++ v ∷ []) ≡ some (v ∷ [])
  read_end-append [] v = refl
  read_end-append (w ∷ []) v = refl
  read_end-append (w ∷ x ∷ ws) v = read_end-append (x ∷ ws) v

  split_last : (vs : List T) → (vs ≡ []) ⊎ ((ws : List T) × ((v : T) × (vs ≡ ws ++ v ∷ [])))
  split_last [] = inl refl
  split_last (x ∷ []) = inr ([], (x, refl))
  split_last (x ∷ y ∷ xs) = elim (split_last (y ∷ xs)) [
    | inl e ↦ absurd (cc)
    | inr (ws, (v, e)) ↦ inr (x ∷ ws, (v, ap (λ t. x ∷ t) e))
  ]

  -- On a list that holds nothing, the first and the last value are neither taken nor read.
  nothing :
      (n : ℕ) (l : StaticList T)
      → Holds n l []
      → (pop_front l ≡ some (tt, l))
        × (pop_back l ≡ some (tt, l))
        × (front l ≡ none)
        × (back l ≡ none)
  nothing n l holds =
      let none_used =
        eq-nil holds.cells
          (omega (arith, length-map holds.cells (λ c. c.1), ap length holds.values)) in
      let valid = subst (λ t. IsValid n l t holds.spares) none_used holds.valid in
      let pops = pop-empty n l holds.spares valid in
      let reads = front_back-empty n l holds.spares valid in (pops.0, pops.1, reads.0, reads.1)

  operate-Agrees :
      (n : ℕ) (o : Operation T) (l : StaticList T) (vs : List T)
      → Holds n l vs
      → Agrees n (expect n o vs) (operate o l)
  unfolding operate expect
  operate-Agrees n (append v) l vs holds = elim (Bool-cases (ltb (length vs) n)) [
    | inl room ↦
        let (l', run, is) = emplace_back-Holds n l vs v holds (ltb→lt _ _ room) in
        agree n _ _ [] (vs ++ v ∷ []) l' (rw room refl) (rw run refl) is
    | inr full ↦
        let size : length vs ≡ n = omega (arith, not-ltb→le _ _ full, length-le n l vs holds) in
        agree n _ _ [] vs l (rw full refl) (rw (emplace_back-full n l vs v holds size) refl) holds
  ]
  operate-Agrees n (insert_at k v) l vs holds = elim (Bool-cases (ltb (length vs) n)) [
    | inl room ↦
        let (l', run, is) = insert_at-Holds n k l vs holds v (ltb→lt _ _ room) in
        agree n _ _ [] (take k vs ++ v ∷ drop k vs) l' (rw room refl) run is
    | inr full ↦
        let size : length vs ≡ n = omega (arith, not-ltb→le _ _ full, length-le n l vs holds) in
        agree n _ _ [] vs l (rw full refl) (insert_at-full n k l vs holds v size) holds
  ]
  operate-Agrees n (erase_at k) l vs holds = erase_at-Agrees n k l vs holds
  operate-Agrees n drop_first l [] holds =
      agree n _ _ [] [] l refl (rw (nothing n l holds).0 refl) holds
  operate-Agrees n drop_first l (v ∷ vs) holds =
      let (l', read, run, is) = pop_front-Holds n l v vs holds in
      agree n _ _ [] vs l' refl (rw run refl) is
  operate-Agrees n drop_last l vs holds = elim (split_last vs) [
    | inl e ↦
        let holds' = subst (Holds n l) e holds in
        agree n _ _ [] [] l (rw e refl) (rw (nothing n l holds').1 refl) holds'
    | inr (ws, (v, e)) ↦
        let (l', read, run, is) = pop_back-Holds n l v ws (subst (Holds n l) e holds) in
        agree n _ _ [] ws l' (rw (e, all_but_last-append ws v) refl) (rw run refl) is
  ]
  operate-Agrees n read_first l [] holds = inl (refl, rw (nothing n l holds).2 refl)
  operate-Agrees n read_first l (v ∷ vs) holds =
      let (l', read, run, is) = pop_front-Holds n l v vs holds in
      agree n _ _ (v ∷ []) (v ∷ vs) l refl (rw read refl) holds
  operate-Agrees n read_last l vs holds = elim (split_last vs) [
    | inl e ↦
        let holds' = subst (Holds n l) e holds in inl (rw e refl, rw (nothing n l holds').3 refl)
    | inr (ws, (v, e)) ↦
        let (l', read, run, is) = pop_back-Holds n l v ws (subst (Holds n l) e holds) in
        agree n _ _ (v ∷ []) vs l (rw (e, read_end-append ws v) refl) (rw read refl) holds
  ]

  next-Agrees :
      (n : ℕ) (read : List T) (o : Option (List T × List T)) (r : Option (List T × StaticList T))
      → Agrees n o r
      → Agrees n (and_read read o) (and_then r (λ rest. pure (read ++ rest)))
  next-Agrees n read o r (inl (e, f)) = inl (rw e refl, rw f refl)
  next-Agrees n read o r (inr (rest, (vs, (l, e, f, holds)))) =
      agree n _ _ (read ++ rest) vs l (rw e refl) (rw f refl) holds

  operate_all-Agrees :
      (n : ℕ) (os : List (Operation T)) (l : StaticList T) (vs : List T)
      → Holds n l vs
      → Agrees n (expect_all n os vs) (operate_all os l)
  unfolding operate_all expect_all
  operate_all-Agrees n [] l vs holds = agree n _ _ [] vs l refl refl holds
  operate_all-Agrees n (o ∷ os) l vs holds = elim (operate-Agrees n o l vs holds) [
    | inl (e, f) ↦ inl (rw e refl, rw f refl)
    | inr (read, (vs', (l', e, f, holds'))) ↦
        rw (e, f)
          (next-Agrees n read (expect_all n os vs') (operate_all os l')
            (operate_all-Agrees n os l' vs' holds'))
  ]

-- The constructor of a list of at least one node succeeds, and any sequence of the operations that
-- follow it, insertions and removals at an iterator that has gone any number of steps from
-- `begin()`, at both ends, and reads of the first and the last value, either faults like the same
-- sequence on a bounded list of values that is empty at first, or reads the same values and leaves
-- a valid list that holds the same.
pub construct-operate_all :
    {T : Type 0} (raw : ℕ → Node T) (m : ℕ) (os : List (Operation T))
    → (l : StaticList T) × (construct raw (suc m) ≡ some l)
      × Agrees (suc m) (expect_all (suc m) os []) (operate_all os l)
construct-operate_all raw m os =
    let (l, run, holds) = construct-Holds raw m in
    (l, run, operate_all-Agrees (suc m) os l [] holds)
