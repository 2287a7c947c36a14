-- ===== src/StaticList/Link.antt =====
-- The steps of `emplace` and `emplace_back`: taking a node off the free list, and linking it in.
use baremetal_cxx_coro.Common.{
  ◌≡◌, refl, ◌∙◌, ◌≢◌, ap, inl, inr, false, some, arith, ◌==◌, if◌then◌else◌, Bool-cases,
}
use baremetal_cxx_coro.StaticList.{
  Ptr, null, Buffer, StaticList, with_next, with_prev, with_value, get_free_elem, insert_last,
  insert_before,
}
use baremetal_cxx_coro.StaticList.Chain.{node}
use baremetal_cxx_coro.StaticList.Validity.{Points}
use baremetal_cxx_coro.StaticList.Runs.{
  deref-run, set_next-run, set_prev-run, unless_null-set_next-run, unless_null-set_prev-run,
  set_first-set_next-run,
}
use baremetal_cxx_coro.StaticList.Release.{
  Mapped, Mapped-with_next, Mapped-with_prev, Points-with_next, Points-with_prev,
}

module _ {T : Type 0} where
  pub Mapped-with_value :
      (h : Buffer T) (p : Ptr) (v : T) (i : Ptr) → Mapped h i → Mapped (with_value h p v) i
  unfolding with_value
  Mapped-with_value h p v i (m, e) = elim (Bool-cases (i == p)) [
    | inl same ↦ (record m { value = v }, rw (same, e))
    | inr other ↦ (m, rw (other, e))
  ]

  pub Points-with_value :
      (h : Buffer T) (p : Ptr) (v : T) (i : Ptr) → Points h i → Points (with_value h p v) i
  unfolding with_value
  Points-with_value h p v i = elim [
    | inl (z, e) ↦ inl (z, ground arith)
    | inr (ne, m) ↦ inr (ne, Mapped-with_value h p v i m)
  ]

  -- The list after `get_free_elem` with the second free node at `f`.
  abbrev pub taken : StaticList T → Ptr → StaticList T
  taken l f = record l { buffer = with_prev l.buffer f null; free = f }

  pub get_free_elem-run :
      (l : StaticList T) (e f p : Ptr) (g : T)
      → l.free ≡ e
      → e ≢ null
      → l.buffer e ≡ some (node f p g)
      → Points l.buffer f
      → get_free_elem l ≡ some (e, taken l f)
  unfolding get_free_elem
  get_free_elem-run l e f p g at ne m pf =
      let full : (l.free == null) ≡ false = ground arith in
      rw
        (
          full,
          deref-run l l.free (ap l.buffer at ∙ m),
          unless_null-set_prev-run (record l { free = f }) f null pf,
          at,
        )
        refl

  -- The list after the new node `e` is linked in behind the last one.
  abbrev pub appended : StaticList T → Ptr → StaticList T
  appended l e = record l {
    buffer = with_next (with_next (with_prev l.buffer e l.last) e null) l.last e;
    first = if l.first == null then e else l.first;
    last = e;
  }

  pub insert_last-run :
      (l : StaticList T) (e : Ptr)
      → Mapped l.buffer e
      → Points l.buffer l.last
      → insert_last e l ≡ some (tt, appended l e)
  unfolding insert_last
  insert_last-run l e m pl =
      let h₁ = with_prev l.buffer e l.last in
      let h₂ = with_next h₁ e null in
      let m₁ = Mapped-with_prev l.buffer e l.last e m in
      let pl₂ = Points-with_next h₁ e null l.last (Points-with_prev l.buffer e l.last l.last pl) in
      rw
        (
          set_prev-run l e l.last m.1,
          set_next-run (record l { buffer = h₁ }) e null m₁.1,
          unless_null-set_next-run (record l { buffer = h₂ }) l.last e pl₂,
        )
        (ground arith)

  -- The list after the new node `e` is linked in between `a` and `i`.
  abbrev pub inserted : StaticList T → Ptr → Ptr → Ptr → StaticList T
  inserted l e i a = record l {
    buffer = with_prev (with_next (with_next (with_prev l.buffer e a) a e) e i) i e;
    first = if a == null then e else l.first;
  }

  pub insert_before-run :
      (l : StaticList T) (e i a nx : Ptr) (w : T)
      → Mapped l.buffer e
      → i ≢ null
      → l.buffer i ≡ some (node nx a w)
      → Points l.buffer a
      → insert_before e i l ≡ some (tt, inserted l e i a)
  unfolding insert_before
  insert_before-run l e i a nx w m ne at pa =
      let h₁ = with_prev l.buffer e a in
      let h₂ = with_next h₁ a e in
      let h₃ = with_next h₂ e i in
      let l₂ : StaticList T = record l { buffer = h₂; first = if a == null then e else l.first } in
      let m₂ = Mapped-with_next h₁ a e e (Mapped-with_prev l.buffer e a e m) in
      let at₃ =
        Mapped-with_next h₂ e i i
          (Mapped-with_next h₁ a e i (Mapped-with_prev l.buffer e a i (node nx a w, at))) in
      let there : (i == null) ≡ false = ground arith in
      rw
        (
          deref-run l i at,
          set_prev-run l e a m.1,
          set_first-set_next-run (record l { buffer = h₁ }) a e
              (Points-with_prev l.buffer e a a pa),
          set_next-run l₂ e i m₂.1,
          there,
          set_prev-run (record l₂ { buffer = h₃ }) i e at₃.1,
        )
        refl
