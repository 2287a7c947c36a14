-- ===== src/StaticList/Emplace.antt =====
-- `emplace` and `emplace_back` take a node off the free list, build the value in it, and link it in.
use mathlib.Core.List.{append-nil}
use baremetal_cxx_coro.Common.{
  ℕ, ◌+◌, ◌≡◌, refl, sym, ◌∙◌, false, none, some, [], ◌∷◌, ◌++◌, arith, ◌==◌, if◌then◌else◌,
  length-append,
}
use baremetal_cxx_coro.StaticList.{
  Ptr, null, StaticList, with_prev, with_value, get_free_elem, insert_last, insert_before, emplace,
  emplace_back, end,
}
use baremetal_cxx_coro.StaticList.Chain.{
  node, Cells, count, head_or, last_or, count-append, head_or-append, last_or-append, Chain-append,
  Chain-split,
}
use baremetal_cxx_coro.StaticList.Writes.{with_next-mapped, with_prev-mapped, with_value-mapped}
use baremetal_cxx_coro.StaticList.Parts.{
  Apart, Parts, write_next-before, write_prev-after, write_prev-spare, write_next-middle,
  write_prev-middle, write_value-middle,
}
use baremetal_cxx_coro.StaticList.Validity.{
  IsValid, in_array, in_array-le, pick_first, fill_first, Points, ne_null_of_mapped, Points-head,
  Points-last,
}
use baremetal_cxx_coro.StaticList.Runs.{set_value-run}
use baremetal_cxx_coro.StaticList.Release.{Mapped, Mapped-with_prev, Points-with_prev}
use baremetal_cxx_coro.StaticList.Link.{
  Points-with_value, taken, appended, inserted, get_free_elem-run, insert_last-run,
  insert_before-run,
}

module _ {T : Type 0} (n : ℕ) (l : StaticList T) (pre post fs : Cells T) (e : Ptr) (g v : T)
    (valid : IsValid n l (pre ++ post) ((e, g) ∷ fs)) where
  open valid use {live, spare, account, size, outside}

  emplace_once :
      (x : Ptr)
      → count x pre + ((if x == e then 1 else 0) + count x post) + count x fs ≡ in_array n x
  emplace_once x = omega (arith, count-append x pre post, account x)

  emplace-Apart : Apart pre post fs e
  emplace-Apart = record {
    once = λ x. omega (arith, emplace_once x, in_array-le n x);
    none_null = emplace_once null;
  }

  abbrev f : Ptr
  f = head_or fs null

  -- The list with the node `e` allocated and its value built.
  abbrev built : StaticList T
  built = record l { buffer = with_value (with_prev l.buffer f null) e v; free = f }

  built-Parts :
      Parts built.buffer pre post fs e v (head_or post null) (last_or pre null) null f null
  built-Parts =
      let halves = Chain-split l.buffer null pre post null live in
      let at_start : Parts l.buffer pre post fs e g (head_or post null) (last_or pre null) e f
          null =
        record { before = halves.0; after = halves.1; spare = spare.1; middle = spare.0 } in
      write_value-middle emplace-Apart v (write_prev-spare emplace-Apart null at_start)

  built-outside : (x : Ptr) → in_array n x ≡ 0 → built.buffer x ≡ none
  built-outside x o = with_value-mapped _ e v x (with_prev-mapped _ f null x (outside x o))

  -- Once the node is linked in between the two parts, the list is valid.
  linked-IsValid :
      (l' : StaticList T)
      → Parts l'.buffer pre post fs e v e e null (head_or post null) (last_or pre null)
      → l'.first ≡ head_or pre e
      → l'.last ≡ last_or post e
      → l'.free ≡ f
      → ((x : Ptr) → in_array n x ≡ 0 → l'.buffer x ≡ none)
      → IsValid n l' (pre ++ (e, v) ∷ post) fs
  linked-IsValid l' parts first last free unmapped = record {
    live =
        Chain-append l'.buffer null pre ((e, v) ∷ post) null parts.before
          (parts.middle, parts.after);
    spare = parts.spare;
    first = first ∙ sym (head_or-append pre ((e, v) ∷ post) null);
    last = last ∙ sym (last_or-append pre ((e, v) ∷ post) null);
    free = free;
    account = λ x. omega (arith, emplace_once x, count-append x pre ((e, v) ∷ post));
    size = omega (arith, size, length-append pre post, length-append pre ((e, v) ∷ post));
    outside = unmapped;
  }

  null_free : l.buffer null ≡ none
  null_free = outside null refl

  built-Mapped : Mapped built.buffer e
  built-Mapped = (node f null v, built-Parts.middle)

  built-Points : (p : Ptr) → Points l.buffer p → Points built.buffer p
  built-Points p h = Points-with_value _ e v p (Points-with_prev l.buffer f null p h)

  -- `emplace` with a free node: the value is built in it before it is linked in.
  emplace-built :
      (i : Ptr) → emplace i v l ≡ (if i == null then insert_last e else insert_before e i) built
  unfolding emplace
  emplace-built i =
      let ne = ne_null_of_mapped l.buffer e null_free spare.0 in
      let there : (e == null) ≡ false = ground arith in
      rw
        (
          get_free_elem-run l e f null g valid.free ne spare.0
              (Points-head l.buffer e fs null null_free spare.1),
          there,
          set_value-run (taken l f) e null
              (Mapped-with_prev l.buffer f null e (node f null g, spare.0)).1 v,
        )
        refl

module _ {T : Type 0} (n : ℕ) (l : StaticList T) (fs : Cells T) (e : Ptr) (g v : T) where
  pub emplace_end-IsValid :
      (xs : Cells T)
      → IsValid n l (xs ++ []) ((e, g) ∷ fs)
      → (l' : StaticList T) × (emplace null v l ≡ some (tt, l'))
        × IsValid n l' (xs ++ (e, v) ∷ []) fs
  emplace_end-IsValid xs valid =
      let l₁ = built n l xs [] fs e g v valid in
      let d = emplace-Apart n l xs [] fs e g v valid in
      let parts = built-Parts n l xs [] fs e g v valid in
      let z = null_free n l xs [] fs e g v valid in
      let last_eq : l.last ≡ last_or xs null = valid.last ∙ last_or-append xs [] null in
      let chain = (Chain-split l.buffer null xs [] null valid.live).0 in
      let pl : Points l.buffer l.last = rw last_eq (Points-last l.buffer null xs null z chain) in
      let linked =
        write_next-before d e
          (write_next-middle d null (write_prev-middle d (last_or xs null) parts)) in
      (
        appended l₁ e,
        emplace-built n l xs [] fs e g v valid null
            ∙ insert_last-run l₁ e (built-Mapped n l xs [] fs e g v valid)
                (built-Points n l xs [] fs e g v valid l.last pl),
        linked-IsValid n l xs [] fs e g v valid (appended l₁ e)
            (rw last_eq (record {
              before = linked.before;
              after = tt;
              spare = linked.spare;
              middle = linked.middle;
            }))
            (fill_first xs e l.first (omega (arith, d.none_null))
              (valid.first ∙ head_or-append xs [] null))
            refl refl
            (λ x o. with_next-mapped _ _ _ x (
              with_next-mapped _ _ _ x
                (with_prev-mapped _ _ _ x (built-outside n l xs [] fs e g v valid x o)))),
      )

  -- On a valid list with a free node and with the node `i` in use, `emplace` before `i` succeeds,
  -- puts the value in front of that of `i`, keeps the others in their order, and leaves a valid
  -- list.
  pub emplace-IsValid :
      (pre post : Cells T) (i : Ptr) (w : T)
      → IsValid n l (pre ++ (i, w) ∷ post) ((e, g) ∷ fs)
      → (l' : StaticList T) × (emplace i v l ≡ some (tt, l'))
        × IsValid n l' (pre ++ (e, v) ∷ (i, w) ∷ post) fs
  emplace-IsValid pre post i w valid =
      let rest = (i, w) ∷ post in
      let l₁ = built n l pre rest fs e g v valid in
      let d = emplace-Apart n l pre rest fs e g v valid in
      let parts = built-Parts n l pre rest fs e g v valid in
      let z = null_free n l pre rest fs e g v valid in
      let a = last_or pre null in
      let chain = Chain-split l.buffer null pre rest null valid.live in
      let ne = ne_null_of_mapped l.buffer i z chain.1.0 in
      let there : (i == null) ≡ false = ground arith in
      (
        inserted l₁ e i a,
        emplace-built n l pre rest fs e g v valid i
            ∙ rw there (
                insert_before-run l₁ e i a (head_or post null) w
                  (built-Mapped n l pre rest fs e g v valid) ne parts.after.0
                  (built-Points n l pre rest fs e g v valid a
                    (Points-last l.buffer null pre i z chain.0))),
        linked-IsValid n l pre rest fs e g v valid (inserted l₁ e i a)
            (write_prev-after d e
              (write_next-middle d i (write_next-before d e (write_prev-middle d a parts))))
            (pick_first pre e l.first i (omega (arith, d.none_null))
              (valid.first ∙ head_or-append pre rest null))
            (valid.last ∙ last_or-append pre rest null) refl
            (λ x o. with_prev-mapped _ _ _ x (
              with_next-mapped _ _ _ x (
                with_next-mapped _ _ _ x
                  (with_prev-mapped _ _ _ x (built-outside n l pre rest fs e g v valid x o))))),
      )

module _ {T : Type 0} where
  -- `emplace_back` is `emplace` at the end iterator, in every state.
  pub emplace-end : (l : StaticList T) (v : T) → emplace (end l) v l ≡ emplace_back v l
  unfolding emplace emplace_back end
  emplace-end l v = refl

  -- With no free node both leave the list as it is: the value is dropped, and nothing tells.
  pub emplace-full :
      (n : ℕ) (l : StaticList T) (xs : Cells T) (i : Ptr) (v : T)
      → IsValid n l xs []
      → emplace i v l ≡ some (tt, l)
  unfolding emplace get_free_elem
  emplace-full n l xs i v valid = rw valid.free

  -- With a free node `emplace_back` succeeds and puts the value behind the others.
  pub emplace_back-IsValid :
      (n : ℕ) (l : StaticList T) (xs fs : Cells T) (e : Ptr) (g v : T)
      → IsValid n l xs ((e, g) ∷ fs)
      → (l' : StaticList T) × (emplace_back v l ≡ some (tt, l'))
        × IsValid n l' (xs ++ (e, v) ∷ []) fs
  unfolding end
  emplace_back-IsValid n l xs fs e g v valid =
      let valid' : IsValid n l (xs ++ []) ((e, g) ∷ fs) = rw append-nil valid in
      let (l', run, is) = emplace_end-IsValid n l fs e g v xs valid' in
      (l', sym (emplace-end l v) ∙ run, is)
