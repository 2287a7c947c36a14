-- ===== src/StaticList/Traverse.antt =====
-- Loops over the iterators of include/coro/static_list.hpp, forwards and backwards.
use mathlib.Core.List.{
  reverse, reverse_aux, reverse_aux-eq, reverse-cons, reverse-reverse, append_assoc,
}
use baremetal_cxx_coro.Common.{
  ℕ, zero, suc, ◌+◌, ◌<◌, ◌≡◌, refl, sym, ◌∙◌, ap, subst, none, some, List, [], ◌∷◌, ◌++◌, arith,
  length, ◌==◌, if◌then◌else◌,
}
use baremetal_cxx_coro.StaticList.{
  Ptr, null, StaticList, Cmd, pure, ◌>>=◌, begin, rbegin, increment, increment_reverse, dereference,
}
use baremetal_cxx_coro.StaticList.Chain.{Cells, head_or, last_or, last_or-append}
use baremetal_cxx_coro.StaticList.Values.{values}
use baremetal_cxx_coro.StaticList.Validity.{IsValid, Holds}
use baremetal_cxx_coro.StaticList.Iterate.{
  dereference-value, increment-next, increment_reverse-prev, not_end,
}

module _ {T : Type 0} (step : Ptr → Cmd T Ptr) where
  -- A loop over an iterator up to `end`, on fuel: the values that it reads.
  pub traverse : ℕ → Ptr → Cmd T (List T)
  traverse zero i l = none
  traverse (suc fuel) i l =
      (if i == null
          then pure []
          else do v ← dereference i; i' ← step i; vs ← traverse fuel i'; pure (v ∷ vs))
        l

module _ {T : Type 0} where
  map-reverse_aux :
      (xs ys : Cells T) → values (reverse_aux xs ys) ≡ reverse_aux (values xs) (values ys)
  map-reverse_aux [] ys = refl
  map-reverse_aux (x ∷ xs) ys = map-reverse_aux xs (x ∷ ys)

  last_or-reverse : (rs : Cells T) → last_or (reverse rs) null ≡ head_or rs null
  last_or-reverse [] = refl
  last_or-reverse ((a, v) ∷ rs) =
      ap (λ t. last_or t null) (reverse-cons (a, v) rs)
      ∙ last_or-append (reverse rs) ((a, v) ∷ []) null

  module _ (n : ℕ) (l : StaticList T) (fs : Cells T) where
    traverse-forward :
        (fuel : ℕ) (pre post : Cells T)
        → IsValid n l (pre ++ post) fs
        → length post < fuel
        → traverse increment fuel (head_or post null) l ≡ some (values post, l)
    unfolding traverse
    traverse-forward zero pre post valid lt = absurd (omega arith)
    traverse-forward (suc fuel) pre [] valid lt = refl
    traverse-forward (suc fuel) pre ((a, v) ∷ post) valid lt =
        rw
          (
            not_end n l pre post fs a v valid,
            dereference-value n l pre post fs a v valid,
            increment-next n l pre post fs a v valid,
            traverse-forward fuel (pre ++ (a, v) ∷ []) post
                (rw (append_assoc pre ((a, v) ∷ []) post) valid) (omega arith),
          )
          refl

    traverse-backward :
        (fuel : ℕ) (rs post : Cells T)
        → IsValid n l (reverse_aux rs post) fs
        → length rs < fuel
        → traverse increment_reverse fuel (head_or rs null) l ≡ some (values rs, l)
    unfolding traverse
    traverse-backward zero rs post valid lt = absurd (omega arith)
    traverse-backward (suc fuel) [] post valid lt = refl
    traverse-backward (suc fuel) ((a, v) ∷ rs) post valid lt =
        let split = subst (λ t. IsValid n l t fs) (reverse_aux-eq rs ((a, v) ∷ post)) valid in
        rw
          (
            not_end n l (reverse rs) post fs a v split,
            dereference-value n l (reverse rs) post fs a v split,
            increment_reverse-prev n l (reverse rs) post fs a v split,
            last_or-reverse rs,
            traverse-backward fuel rs ((a, v) ∷ post) valid (omega arith),
          )
          refl

  length-reverse_aux : (xs ys : Cells T) → length (reverse_aux xs ys) ≡ length xs + length ys
  length-reverse_aux [] ys = omega arith
  length-reverse_aux (x ∷ xs) ys = omega (arith, length-reverse_aux xs (x ∷ ys))

  -- On a valid list of n nodes, with more than n rounds of fuel, the iterators from `begin` on read
  -- the values in order, and the reverse iterators from `rbegin` on read them in the reverse order,
  -- and both change nothing.
  pub traverse-Holds :
      (n fuel : ℕ) (l : StaticList T) (vs : List T)
      → Holds n l vs
      → n < fuel
      → (traverse increment fuel (begin l) l ≡ some (vs, l))
        × (traverse increment_reverse fuel (rbegin l) l ≡ some (reverse vs, l))
  unfolding begin
  traverse-Holds n fuel l vs holds enough =
      let cells = holds.cells in
      let valid = holds.valid in
      let size = valid.size in
      let twice : reverse_aux (reverse cells) [] ≡ cells = reverse-reverse cells in
      let at_end : rbegin l ≡ head_or (reverse cells) null =
        valid.last ∙ ap (λ t. last_or t null) (sym twice) ∙ last_or-reverse (reverse cells) in
      (
        ap (λ p. traverse increment fuel p l) valid.first
            ∙ traverse-forward n l holds.spares fuel [] cells valid (omega arith)
            ∙ ap (λ t. some (t, l)) holds.values,
        ap (λ p. traverse increment_reverse fuel p l) at_end
            ∙ traverse-backward n l holds.spares fuel (reverse cells) []
                (subst (λ t. IsValid n l t holds.spares) (sym twice) valid)
                (omega (arith, length-reverse_aux cells []))
            ∙ ap (λ t. some (t, l)) (map-reverse_aux cells [] ∙ ap reverse holds.values),
      )
