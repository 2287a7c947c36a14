-- ===== src/StaticList/Reused.antt =====
-- `pop_front` of include/coro/static_list.hpp with an interrupt behind its call of
-- `return_free_elem`, whose handler inserts into the same list.
use baremetal_cxx_coro.Common.{
  ℕ, ◌<◌, ◌≡◌, ◌≢◌, refl, sym, ◌∙◌, ap, subst, true, false, some, [], ◌∷◌, map, arith, ◌==◌,
  if◌then◌else◌, inr,
}
use baremetal_cxx_coro.StaticList.{
  Ptr, null, StaticList, Cmd, pure, ◌>>=◌, ◌>>◌, deref, set_prev, set_first, set_last, unless_null,
  return_free_elem, emplace_back, empty, with_value,
}
use baremetal_cxx_coro.StaticList.Chain.{Cells, node, count, count-head}
use baremetal_cxx_coro.StaticList.Writes.{with_next_self, with_prev_self, with_prev-ne}
use baremetal_cxx_coro.StaticList.Validity.{
  IsValid, Holds, in_array-le, Points, Points-head, ne_null_of_mapped, ne-head_or,
}
use baremetal_cxx_coro.StaticList.Runs.{deref-run, set_value-run}
use baremetal_cxx_coro.StaticList.Release.{
  return_free_elem-run, released, Points-with_next, Points-with_prev, Mapped-with_prev,
}
use baremetal_cxx_coro.StaticList.Interrupted.{pop_front_interrupted, interrupted-loses}
use baremetal_cxx_coro.StaticList.Link.{
  get_free_elem-run, insert_last-run, taken, appended, Mapped-with_value,
}

module _ {T : Type 0} where
  -- What `pop_front` does behind `return_free_elem`.
  pub pop_front_end : Ptr → Cmd T (Unit {0})
  pop_front_end next l =
      ((if l.first == l.last then set_last next else pure tt) >> set_first next) l

  -- `pop_front`, with what the handler does to the list.
  pub pop_front_reused : Cmd T (Unit {0}) → Cmd T (Unit {0})
  pop_front_reused isr l =
      (if l.first == null then pure tt else do
        n ← deref l.first
        unless_null n.next (set_prev n.next null)
        return_free_elem l.first
        isr
        pop_front_end n.next)
        l

  -- The list whose only node `i` has just been put in front of the free ones.
  module _ (n : ℕ) (l : StaticList T) (i : Ptr) (a v : T) (fs : Cells T)
      (valid : IsValid n l ((i, a) ∷ []) fs) where
    at_first : l.buffer i ≡ some (node null null a)
    at_first = valid.live.0

    there : i ≢ null
    there = ne_null_of_mapped l.buffer i (valid.outside null refl) at_first

    i-ne-free : i ≢ l.free
    i-ne-free =
        let out : count i fs ≡ 0 =
          omega (arith, valid.account i, in_array-le n i, count-head i a []) in
        subst (λ f. i ≢ f) (sym valid.free) (ne-head_or i fs there out)

    pointed : Points l.buffer l.free
    pointed =
        rw valid.free (Points-head l.buffer null fs null (valid.outside null refl) valid.spare)

    abbrev freed : StaticList T
    freed = record l { buffer = released l.buffer i l.free; free = i }

    at_freed : freed.buffer i ≡ some (node l.free null a)
    at_freed =
        with_prev-ne _ l.free i i i-ne-free
        ∙ with_next_self _ i l.free null null a
            (with_prev_self l.buffer i null null null a at_first)

    still_pointed : Points freed.buffer l.free
    still_pointed =
        Points-with_prev _ l.free i l.free
          (Points-with_next _ i l.free l.free (Points-with_prev l.buffer i null l.free pointed))

    -- The handler's insertion takes that node, which the list still names as its first and last.
    emplace_back-freed :
        (l' : StaticList T) × (emplace_back v freed ≡ some (tt, l'))
        × (l'.first ≡ i)
        × (l'.last ≡ i)
        × (l'.free ≡ l.free)
    unfolding emplace_back
    emplace_back-freed =
        let used : (i == null) ≡ false = let ne = there in ground arith in
        let l₁ = taken freed l.free in
        let (m, at) = Mapped-with_prev freed.buffer l.free null i (node l.free null a, at_freed) in
        let l₂ = record l₁ { buffer = with_value l₁.buffer i v } in
        let mapped = Mapped-with_value l₁.buffer i v i (m, at) in
        let at_last : Points l₂.buffer l₂.last =
          subst (λ p. Points l₂.buffer p) (sym valid.last) (inr (there, mapped)) in
        (
          appended l₂ i,
          rw
              (
                get_free_elem-run freed i l.free null a refl there at_freed still_pointed,
                used,
                set_value-run l₁ i null at v,
                insert_last-run l₂ i mapped at_last,
              )
              refl,
          rw (valid.first, used) refl,
          refl,
          refl,
        )

  -- The list is empty then, and the node is not free either.
  reused-loses :
      (n : ℕ) (l : StaticList T) (a v : T)
      → Holds n l (a ∷ [])
      → (l' : StaticList T) × (pop_front_reused (emplace_back v) l ≡ some (tt, l'))
        × (empty l' ≡ true)
        × (l'.free ≡ l.free)
  unfolding pop_front_reused pop_front_end empty
  reused-loses n l a v holds = one holds.cells holds.spares holds.valid holds.values
    where
      one :
          (xs fs : Cells T)
          → IsValid n l xs fs
          → map (λ c. c.1) xs ≡ a ∷ []
          → (l' : StaticList T) × (pop_front_reused (emplace_back v) l ≡ some (tt, l'))
            × (empty l' ≡ true)
            × (l'.free ≡ l.free)
      one [] fs valid e = absurd cc
      one (x ∷ y ∷ xs) fs valid e = absurd cc
      one ((i, w) ∷ []) fs valid e =
          let ne = subst (λ p. p ≢ null) (sym valid.first) (there n l i w v fs valid) in
          let used : (l.first == null) ≡ false = ground arith in
          let at : l.buffer l.first ≡ some (node null null w) =
            ap l.buffer valid.first ∙ at_first n l i w v fs valid in
          let (l₁, run, first, last, free) = emplace_back-freed n l i w v fs valid in
          let added =
            subst
              (λ p.
                emplace_back v (record l { buffer = released l.buffer p l.free; free = p })
                ≡ some (tt, l₁))
              (sym valid.first) run in
          let same : (l₁.first == l₁.last) ≡ true =
            rw (first, last) (let x : (i == i) ≡ true = ground arith in x) in
          (
            record l₁ { first = null; last = null },
            rw
                (
                  used,
                  deref-run l l.first at,
                  return_free_elem-run l l.first (node null null w, at)
                      (pointed n l i w v fs valid),
                  added,
                  same,
                )
                refl,
            refl,
            free,
          )

  -- On a valid list of more than one node that holds one value, if an interrupt that appends a
  -- value comes when `pop_front` has read `next`, or behind its call of `return_free_elem`, then
  -- `pop_front` ends and the list is empty: the value is lost. In the second case the free list
  -- starts where it did before, without the node.
  pub pop_front-loses :
      (n : ℕ) (l : StaticList T) (a v : T)
      → Holds n l (a ∷ [])
      → 1 < n
      → ((l' : StaticList T) × (pop_front_interrupted (emplace_back v) l ≡ some (tt, l'))
          × (empty l' ≡ true))
        × ((l' : StaticList T) × (pop_front_reused (emplace_back v) l ≡ some (tt, l'))
            × (empty l' ≡ true)
            × (l'.free ≡ l.free))
  pop_front-loses n l a v holds room =
      (interrupted-loses n l a v holds room, reused-loses n l a v holds)
