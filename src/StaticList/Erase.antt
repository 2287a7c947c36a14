-- ===== src/StaticList/Erase.antt =====
-- `erase` unlinks the node at the iterator and returns it to the free list.
use baremetal_cxx_coro.Common.{
  ℕ, ◌+◌, ◌≡◌, refl, sym, ◌∙◌, none, some, ◌∷◌, ◌++◌, arith, ◌==◌, if◌then◌else◌, length-append,
}
use baremetal_cxx_coro.StaticList.{Ptr, null, Buffer, StaticList, with_next, with_prev, erase}
use baremetal_cxx_coro.StaticList.Chain.{
  node, Cells, count, head_or, last_or, count-append, head_or-append, last_or-append, Chain-append,
  Chain-split,
}
use baremetal_cxx_coro.StaticList.Writes.{with_next-mapped, with_prev-mapped}
use baremetal_cxx_coro.StaticList.Parts.{
  Apart, Parts, write_next-before, write_prev-after, write_prev-spare, write_next-middle,
  write_prev-middle,
}
use baremetal_cxx_coro.StaticList.Validity.{
  IsValid, in_array, in_array-le, pick_first, pick_last, Points, Points-head, Points-last,
}
use baremetal_cxx_coro.StaticList.Runs.{deref-run, set_first-set_next-run, set_last-set_prev-run}
use baremetal_cxx_coro.StaticList.Release.{
  Mapped-with_next, Mapped-with_prev, Points-with_next, Points-with_prev, released,
  return_free_elem-run,
}

module _ {T : Type 0} where
  -- The buffer after the node between `a` and `b` is taken out of the list.
  abbrev pub unlinked : Buffer T → Ptr → Ptr → Buffer T
  unlinked h a b = with_prev (with_next h a b) b a

  -- The list after `erase` of the node `i` between `a` and `b`.
  abbrev pub erased : StaticList T → Ptr → Ptr → Ptr → StaticList T
  erased l i a b = record {
    buffer = released (unlinked l.buffer a b) i l.free;
    free = i;
    first = if a == null then b else l.first;
    last = if b == null then a else l.last;
  }

  pub erase-run :
      (l : StaticList T) (i a b : Ptr) (v : T)
      → l.buffer i ≡ some (node b a v)
      → Points l.buffer a
      → Points l.buffer b
      → Points l.buffer l.free
      → erase i l ≡ some (tt, erased l i a b)
  unfolding erase
  erase-run l i a b v e pa pb pf =
      let l₁ : StaticList T = record l {
        buffer = with_next l.buffer a b;
        first = if a == null then b else l.first;
      } in
      let l₂ : StaticList T = record l₁ {
        buffer = with_prev l₁.buffer b a;
        last = if b == null then a else l.last;
      } in
      rw
        (
          deref-run l i e,
          set_first-set_next-run l a b pa,
          set_last-set_prev-run l₁ b a (Points-with_next l.buffer a b b pb),
          return_free_elem-run l₂ i
              (Mapped-with_prev _ b a i (Mapped-with_next l.buffer a b i (node b a v, e)))
              (Points-with_prev _ b a l.free (Points-with_next l.buffer a b l.free pf)),
        )
        refl

module _ {T : Type 0} (n : ℕ) (l : StaticList T) (pre post fs : Cells T) (i : Ptr) (v : T)
    (valid : IsValid n l (pre ++ (i, v) ∷ post) fs) where
  open valid use {live, spare, account, size, outside}

  erase_once : (x : Ptr) → count x pre + count x ((i, v) ∷ post) + count x fs ≡ in_array n x
  erase_once x = omega (arith, count-append x pre ((i, v) ∷ post), account x)

  erase-Apart : Apart pre post fs i
  erase-Apart = record {
    once = λ x. omega (arith, erase_once x, in_array-le n x);
    none_null = erase_once null;
  }

  null_free : l.buffer null ≡ none
  null_free = outside null refl

  start : Parts l.buffer pre post fs i v i i null (head_or post null) (last_or pre null)
  start =
      let halves = Chain-split l.buffer null pre ((i, v) ∷ post) null live in
      record { before = halves.0; after = halves.1.1; spare = spare; middle = halves.1.0 }

  abbrev result : StaticList T
  result = erased l i (last_or pre null) (head_or post null)

  result-Parts :
      Parts result.buffer pre post fs i v
        (head_or post null)
        (last_or pre null)
        i
        (head_or fs null)
        null
  result-Parts =
      let d = erase-Apart in
      rw valid.free (
        write_prev-spare d i (
          write_next-middle d (head_or fs null) (
            write_prev-middle d null (
              write_prev-after d (last_or pre null)
                (write_next-before d (head_or post null) start)))))

  result-outside : (x : Ptr) → in_array n x ≡ 0 → result.buffer x ≡ none
  result-outside x o = with_prev-mapped _ _ _ x (
      with_next-mapped _ _ _ x (
        with_prev-mapped _ _ _ x
          (with_prev-mapped _ _ _ x (with_next-mapped _ _ _ x (outside x o)))))

  result-IsValid : IsValid n result (pre ++ post) ((i, v) ∷ fs)
  result-IsValid =
      let open_parts = result-Parts in
      record {
        live = Chain-append result.buffer null pre post null open_parts.before open_parts.after;
        spare = (open_parts.middle, open_parts.spare);
        first =
            pick_first pre (head_or post null) l.first i (omega (arith, erase_once null))
              (valid.first ∙ head_or-append pre ((i, v) ∷ post) null)
            ∙ sym (head_or-append pre post null);
        last =
            pick_last post (last_or pre null) l.last i (omega (arith, erase_once null))
              (valid.last ∙ last_or-append pre ((i, v) ∷ post) null)
            ∙ sym (last_or-append pre post null);
        free = refl;
        account = λ x. omega (arith, erase_once x, count-append x pre post);
        size = omega (arith, size, length-append pre ((i, v) ∷ post), length-append pre post);
        outside = result-outside;
      }

  -- On a valid list that has the node `i` in use, `erase` at `i` succeeds, takes its value out of
  -- the list, keeps the others in their order, puts the node in front of the free ones, and leaves
  -- a valid list.
  pub erase-IsValid :
      (l' : StaticList T) × (erase i l ≡ some (tt, l')) × IsValid n l' (pre ++ post) ((i, v) ∷ fs)
  erase-IsValid = (
    result,
    erase-run l i (last_or pre null) (head_or post null) v start.middle
        (Points-last l.buffer null pre i null_free start.before)
        (Points-head l.buffer i post null null_free start.after)
        (rw valid.free (Points-head l.buffer null fs null null_free spare)),
    result-IsValid,
  )
