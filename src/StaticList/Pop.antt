-- ===== src/StaticList/Pop.antt =====
-- `pop_front` and `pop_back` are `erase` at the first and at the last node.
use baremetal_cxx_coro.Common.{
  ℕ, ◌≡◌, refl, sym, ◌∙◌, ◌≢◌, ap, inl, false, none, some, [], ◌∷◌, ◌++◌, arith, ◌==◌,
  if◌then◌else◌,
}
use baremetal_cxx_coro.StaticList.{
  Ptr, null, StaticList, with_next, with_prev, erase, pop_front, pop_back,
}
use baremetal_cxx_coro.StaticList.Chain.{
  node, Cells, count, head_or, last_or, count-append, count-head, head_or-append, last_or-append,
  Chain-split,
}
use baremetal_cxx_coro.StaticList.Writes.{
  with_next-unmapped, with_prev-unmapped, with_next-mapped, count-last,
}
use baremetal_cxx_coro.StaticList.Validity.{
  IsValid, in_array-le, Points, ne_null_of_mapped, Points-head, Points-last,
}
use baremetal_cxx_coro.StaticList.Runs.{
  deref-run, unless_null-set_next-run, unless_null-set_prev-run,
}
use baremetal_cxx_coro.StaticList.Release.{
  Mapped-with_next, Mapped-with_prev, Points-with_next, Points-with_prev, released,
  return_free_elem-run,
}
use baremetal_cxx_coro.StaticList.Erase.{erase-run}

module _ {T : Type 0} where
  pop_front-run :
      (l : StaticList T) (b p : Ptr) (v : T)
      → l.first ≢ null
      → l.buffer l.first ≡ some (node b p v)
      → Points l.buffer b
      → Points l.buffer l.free
      → pop_front l
        ≡ some (
          tt,
          record {
            buffer = released (with_prev l.buffer b null) l.first l.free;
            free = l.first;
            first = b;
            last = if l.first == l.last then b else l.last;
          },
        )
  unfolding pop_front
  pop_front-run l b p v ne e pb pf =
      let there : (l.first == null) ≡ false = ground arith in
      rw
        (
          there,
          deref-run l l.first e,
          unless_null-set_prev-run l b null pb,
          return_free_elem-run (record l { buffer = with_prev l.buffer b null }) l.first
              (Mapped-with_prev l.buffer b null l.first (node b p v, e))
              (Points-with_prev l.buffer b null l.free pf),
        )
        (ground arith)

  pop_back-run :
      (l : StaticList T) (n a : Ptr) (v : T)
      → l.last ≢ null
      → l.buffer l.last ≡ some (node n a v)
      → Points l.buffer a
      → Points l.buffer l.free
      → pop_back l
        ≡ some (
          tt,
          record {
            buffer = released (with_next l.buffer a null) l.last l.free;
            free = l.last;
            first = if l.first == l.last then a else l.first;
            last = a;
          },
        )
  unfolding pop_back
  pop_back-run l n a v ne e pa pf =
      let there : (l.last == null) ≡ false = ground arith in
      rw
        (
          there,
          deref-run l l.last e,
          unless_null-set_next-run l a null pa,
          return_free_elem-run (record l { buffer = with_next l.buffer a null }) l.last
              (Mapped-with_next l.buffer a null l.last (node n a v, e))
              (Points-with_next l.buffer a null l.free pf),
        )
        (ground arith)

  -- The end at which the list is popped, and the other end.
  pick_pop_front :
      (a : Ptr) (v : T) (xs : Cells T)
      → count a xs ≡ 0
      → count null xs ≡ 0
      → (if a == last_or xs a then head_or xs null else last_or xs a)
        ≡ (if head_or xs null == null then null else last_or xs a)
  pick_pop_front a v [] z out = ground arith
  pick_pop_front a v ((b, w) ∷ xs) z out = ground (arith, count-last b w xs, count-head b w xs)

  pick_pop_back :
      (xs : Cells T) (i : Ptr)
      → count i xs ≡ 0
      → count null xs ≡ 0
      → (if head_or xs i == i then last_or xs null else head_or xs i)
        ≡ (if last_or xs null == null then null else head_or xs i)
  pick_pop_back [] i z out = ground arith
  pick_pop_back ((b, w) ∷ xs) i z out = ground (arith, count-last b w xs, count-head b w xs)

module _ {T : Type 0} (n : ℕ) (l : StaticList T) (i : Ptr) (v : T) (xs fs : Cells T) where
  -- On a valid list with a first node `pop_front` does what `erase` at the first node does.
  pub pop_front-erase : IsValid n l ((i, v) ∷ xs) fs → pop_front l ≡ erase l.first l
  pop_front-erase valid =
      let z : l.buffer null ≡ none = valid.outside null refl in
      let b = head_or xs null in
      let e : l.buffer l.first ≡ some (node b null v) = ap l.buffer valid.first ∙ valid.live.0 in
      let pb = Points-head l.buffer i xs null z valid.live.1 in
      let pf : Points l.buffer l.free =
        rw valid.free (Points-head l.buffer null fs null z valid.spare) in
      let once : count i xs ≡ 0 =
        omega (arith, valid.account i, in_array-le n i, count-head i v xs) in
      let out : count null xs ≡ 0 = omega (arith, valid.account null) in
      let last_eq : (if l.first == l.last then b else l.last)
          ≡ (if b == null then null else l.last) =
        rw (valid.first, valid.last) (pick_pop_front i v xs once out) in
      pop_front-run l b null v (ne_null_of_mapped l.buffer l.first z e) e pb pf
      ∙ rw (with_next-unmapped l.buffer null b z, last_eq) refl
      ∙ sym (erase-run l l.first null b v e (inl (refl, z)) pb pf)

  -- On a valid list with a last node `pop_back` does what `erase` at the last node does.
  pub pop_back-erase : IsValid n l (xs ++ (i, v) ∷ []) fs → pop_back l ≡ erase l.last l
  pop_back-erase valid =
      let z : l.buffer null ≡ none = valid.outside null refl in
      let a = last_or xs null in
      let chain = Chain-split l.buffer null xs ((i, v) ∷ []) null valid.live in
      let last_i : l.last ≡ i = valid.last ∙ last_or-append xs ((i, v) ∷ []) null in
      let first_i : l.first ≡ head_or xs i = valid.first ∙ head_or-append xs ((i, v) ∷ []) null in
      let e : l.buffer l.last ≡ some (node null a v) = ap l.buffer last_i ∙ chain.1.0 in
      let pa = Points-last l.buffer null xs i z chain.0 in
      let pf : Points l.buffer l.free =
        rw valid.free (Points-head l.buffer null fs null z valid.spare) in
      let once : count i xs ≡ 0 = omega (
        arith,
        valid.account i,
        in_array-le n i,
        count-append i xs ((i, v) ∷ []),
        count-head i v [],
      ) in
      let out : count null xs ≡ 0 =
        omega (arith, valid.account null, count-append null xs ((i, v) ∷ [])) in
      let first_eq : (if l.first == l.last then a else l.first)
          ≡ (if a == null then null else l.first) =
        rw (first_i, last_i) (pick_pop_back xs i once out) in
      pop_back-run l null a v (ne_null_of_mapped l.buffer l.last z e) e pa pf
      ∙ rw
          (
            with_prev-unmapped (with_next l.buffer a null) null a
                (with_next-mapped l.buffer a null null z),
            first_eq,
          )
          refl
      ∙ sym (erase-run l l.last a null v e pa (inl (refl, z)) pf)

module _ {T : Type 0} (n : ℕ) (l : StaticList T) (fs : Cells T) where
  -- On an empty list `pop_front` and `pop_back` do nothing.
  pub pop-empty : IsValid n l [] fs → (pop_front l ≡ some (tt, l)) × (pop_back l ≡ some (tt, l))
  unfolding pop_front pop_back
  pop-empty valid = (rw valid.first, rw valid.last)
